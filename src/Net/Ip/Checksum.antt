-- ===== src/Net/Ip/Checksum.antt =====
-- The checksum that is put into a packet makes the sum of the whole packet come out right.
use shmily.Base.{ℕ, ◌+◌, ◌*◌, ◌^◌, ◌<◌, ◌≡◌, ◌∙◌, List, [], ◌∷◌, ◌++◌, arith, add32}
use shmily.Base.Store.{word_bytes}
use shmily.Net.Ip.{sum_words, fold_sum, generate_checksum}

-- The sum without wrap-around.
abbrev pub weight : List ℕ → ℕ
weight [] = 0
weight (low ∷ []) = low
weight (low ∷ high ∷ pkt) = low + high * 256 + weight pkt

-- A list of an even number of bytes.
abbrev pub IsEven : List ℕ → Type 0
IsEven [] = Unit {0}
IsEven (low ∷ []) = ⊥
IsEven (low ∷ high ∷ pkt) = IsEven pkt

sum_words-weight :
    (behind c : ℕ) (pkt : List ℕ)
    → IsEven pkt
    → c + weight pkt < 2 ^ 32
    → sum_words behind c pkt ≡ c + weight pkt
unfolding sum_words
sum_words-weight behind c [] even h = omega arith
sum_words-weight behind c (low ∷ []) even h = absurd even
sum_words-weight behind c (low ∷ high ∷ pkt) even h =
    let e : add32 c (low + high * 256) ≡ c + (low + high * 256) = omega arith in
    rw e (sum_words-weight behind (c + (low + high * 256)) pkt even (omega arith) ∙ omega arith)

weight-append : (xs ys : List ℕ) → IsEven xs → weight (xs ++ ys) ≡ weight xs + weight ys
weight-append [] ys even = omega arith
weight-append (low ∷ []) ys even = absurd even
weight-append (low ∷ high ∷ xs) ys even = omega (arith, weight-append xs ys even)

IsEven-append : (xs ys : List ℕ) → IsEven xs → IsEven ys → IsEven (xs ++ ys)
IsEven-append [] ys even evens = evens
IsEven-append (low ∷ []) ys even evens = absurd even
IsEven-append (low ∷ high ∷ xs) ys even evens = IsEven-append xs ys even evens

pub fold_sum-lt : (s : ℕ) → fold_sum s < 2 ^ 16
unfolding fold_sum
fold_sum-lt s = omega arith

-- Adding the folded sum's complement makes the sum fold to all ones.
fold_sum-complement : (s : ℕ) → s < 2 ^ 31 → fold_sum (s + fold_sum s) ≡ 0
unfolding fold_sum
fold_sum-complement s h = omega arith

word_bytes-weight : (w : ℕ) (ys : List ℕ) → weight (word_bytes w ++ ys) ≡ w + weight ys
word_bytes-weight w ys = omega arith

-- A packet of an even number of bytes whose checksum word stood at 0 while the checksum was
-- generated, and was then set to it, has the checksum 0: the receiver's test succeeds. This needs
-- the sum to stay below 2 ^ 31, so that the 32-bit sum does not wrap.
pub generate_checksum-verifies :
    (behind : ℕ) (front rest : List ℕ)
    → IsEven front
    → IsEven rest
    → weight front + weight rest < 2 ^ 31
    → generate_checksum behind
        (front ++ (word_bytes (generate_checksum behind (front ++ (word_bytes 0 ++ rest))) ++ rest))
      ≡ 0
unfolding generate_checksum
generate_checksum-verifies behind front rest ef er h =
    let even = λ (w : ℕ). IsEven-append front (word_bytes w ++ rest) ef er in
    let total = λ (w : ℕ). weight-append front (word_bytes w ++ rest) ef in
    let s : ℕ = weight front + weight rest in
    let first : sum_words behind 0 (front ++ (word_bytes 0 ++ rest)) ≡ s =
      sum_words-weight behind 0 (front ++ (word_bytes 0 ++ rest)) (even 0) (omega (arith, total 0))
      ∙ omega (arith, total 0) in
    let c : ℕ = fold_sum s in
    let second : sum_words behind 0 (front ++ (word_bytes c ++ rest)) ≡ s + c =
      sum_words-weight behind 0 (front ++ (word_bytes c ++ rest)) (even c)
        (omega (arith, total c, fold_sum-lt s))
      ∙ omega (arith, total c) in
    rw (first, second) (fold_sum-complement s (omega arith))
