-- ===== src/Base/Store.antt =====
-- Bytes and 32-bit words in memory, a function from addresses to bytes; the lowest byte of a word
-- stands first.
use Prim.Native.Nat.{ℕ, zero, suc, ◌+◌, ◌-◌, ◌*◌, ◌/◌, ◌%◌, ◌^◌, ◌≤◌, ◌<◌}
use mathlib.Core.Path.{◌≡◌, refl, ap, subst, ◌∙◌}
use mathlib.Core.Bool.{true, ◌&&◌}
use mathlib.Core.List.{List, [], ◌∷◌}
use native.Mathlib.Omega.{arith}
use shmily.Base.Tests.{ltb, leb, if◌then◌else◌}
use shmily.Base.Lists.{length, get_or, All}

-- An `unsigned short` and an `unsigned int` as bytes.
abbrev pub word_bytes : ℕ → List ℕ
word_bytes w = w % 256 ∷ (w / 256) ∷ []

abbrev pub double_word_bytes : ℕ → List ℕ
double_word_bytes w = w % 256 ∷ (w / 256 % 256) ∷ (w / 65536 % 256) ∷ (w / 16777216) ∷ []

-- `n` bytes from `p` on are written.
abbrev pub write_bytes : (ℕ → ℕ) → ℕ → ℕ → (ℕ → ℕ) → ℕ → ℕ
write_bytes m p n content a = if leb p a && ltb a (p + n) then content (a - p) else m a

-- `*(unsigned int*)p = w`
abbrev pub write_word : (ℕ → ℕ) → ℕ → ℕ → ℕ → ℕ
write_word m p w = write_bytes m p 4 (λ i. get_or (double_word_bytes w) i 0)

-- `*(unsigned int*)p`
abbrev pub read_word : (ℕ → ℕ) → ℕ → ℕ
read_word m p = m p + m (p + 1) * 256 + m (p + 2) * 65536 + m (p + 3) * 16777216

-- The bytes from `p` on.
abbrev pub read_bytes : (ℕ → ℕ) → ℕ → ℕ → List ℕ
read_bytes m p zero = []
read_bytes m p (suc n) = m p ∷ read_bytes m (p + 1) n

-- A row of words.
unfoldable pub write_words : (ℕ → ℕ) → ℕ → List ℕ → ℕ → ℕ
write_words m p [] = m
write_words m p (w ∷ ws) = write_words (write_word m p w) (p + 4) ws

unfoldable pub read_words : (ℕ → ℕ) → ℕ → ℕ → List ℕ
read_words m p zero = []
read_words m p (suc n) = read_word m p ∷ read_words m (p + 4) n

-- From `start` on, the memory holds the bytes.
abbrev pub Holds : (ℕ → ℕ) → ℕ → List ℕ → Type 0
Holds m start [] = Unit {0}
Holds m start (b ∷ bs) = (m start ≡ b) × Holds m (start + 1) bs

pub read_bytes-Holds :
    (m : ℕ → ℕ) (p : ℕ) (bs : List ℕ) → Holds m p bs → read_bytes m p (length bs) ≡ bs
read_bytes-Holds m p [] h = refl
read_bytes-Holds m p (b ∷ bs) h = rw (h.0, read_bytes-Holds m (p + 1) bs h.1)

pub write_bytes_in :
    (m : ℕ → ℕ) (p n : ℕ) (content : ℕ → ℕ) (i : ℕ)
    → i < n
    → write_bytes m p n content (p + i) ≡ content i
write_bytes_in m p n content i h =
    let q : p + i - p ≡ i = omega arith in
    let e : (leb p (p + i) && ltb (p + i) (p + n)) ≡ true = ground arith in rw (e, q)

pub write_bytes_before :
    (m : ℕ → ℕ) (p n : ℕ) (content : ℕ → ℕ) (a : ℕ) → a < p → write_bytes m p n content a ≡ m a
write_bytes_before m p n content a h = ground arith

pub write_bytes_after :
    (m : ℕ → ℕ) (p n : ℕ) (content : ℕ → ℕ) (a : ℕ) → p + n ≤ a → write_bytes m p n content a ≡ m a
write_bytes_after m p n content a h = ground arith

-- The bytes written are those of another memory.
pub Holds-written :
    (m : ℕ → ℕ) (p n : ℕ) (packet : ℕ → ℕ) (start k : ℕ) (bs : List ℕ)
    → k + length bs ≤ n
    → Holds packet (start + k) bs
    → Holds (write_bytes m p n (λ i. packet (start + i))) (p + k) bs
Holds-written m p n packet start k [] h there = tt
Holds-written m p n packet start k (b ∷ bs) h there = (
  write_bytes_in m p n (λ i. packet (start + i)) k (omega arith) ∙ there.0,
  subst (λ (a : ℕ). Holds (write_bytes m p n (λ i. packet (start + i))) a bs) (omega arith)
      (Holds-written m p n packet start (k + 1) bs (omega arith)
        (subst (λ (a : ℕ). Holds packet a bs) (omega arith) there.1)),
)

pub read_word-bytes :
    (m : ℕ → ℕ) (p n : ℕ)
    → m p ≡ n % 256
    → m (p + 1) ≡ n / 256 % 256
    → m (p + 2) ≡ n / 65536 % 256
    → m (p + 3) ≡ n / 16777216
    → n < 2 ^ 32
    → read_word m p ≡ n
read_word-bytes m p n a b c d h = omega arith

pub read_word-write_word : (m : ℕ → ℕ) (p w : ℕ) → w < 2 ^ 32 → read_word (write_word m p w) p ≡ w
read_word-write_word m p w h =
    let at = write_bytes_in m p 4 (λ i. get_or (double_word_bytes w) i 0) in
    read_word-bytes (write_word m p w) p w
      (ap (write_word m p w) (omega arith) ∙ at 0 (omega arith)) (at 1 (omega arith))
      (at 2 (omega arith)) (at 3 (omega arith)) h

-- Bytes outside a row of words stay.
pub write_words_before :
    (m : ℕ → ℕ) (p : ℕ) (ws : List ℕ) (a : ℕ) → a < p → write_words m p ws a ≡ m a
unfolding write_words
write_words_before m p [] a h = refl
write_words_before m p (w ∷ ws) a h =
    write_words_before (write_word m p w) (p + 4) ws a (omega arith)
    ∙ write_bytes_before m p 4 (λ i. get_or (double_word_bytes w) i 0) a h

pub write_words_after :
    (m : ℕ → ℕ) (p : ℕ) (ws : List ℕ) (a : ℕ) → p + 4 * length ws ≤ a → write_words m p ws a ≡ m a
unfolding write_words
write_words_after m p [] a h = refl
write_words_after m p (w ∷ ws) a h =
    write_words_after (write_word m p w) (p + 4) ws a (omega arith)
    ∙ write_bytes_after m p 4 (λ i. get_or (double_word_bytes w) i 0) a (omega arith)

-- Words that agree byte by byte.
read_word_same :
    (m w : ℕ → ℕ) (p : ℕ)
    → ((a : ℕ) → p ≤ a → a < p + 4 → m a ≡ w a)
    → read_word m p ≡ read_word w p
read_word_same m w p h = omega (
  arith,
  h p (omega arith) (omega arith),
  h (p + 1) (omega arith) (omega arith),
  h (p + 2) (omega arith) (omega arith),
  h (p + 3) (omega arith) (omega arith),
)

pub read_words_same :
    (m w : ℕ → ℕ) (p n : ℕ)
    → ((a : ℕ) → p ≤ a → a < p + 4 * n → m a ≡ w a)
    → read_words m p n ≡ read_words w p n
unfolding read_words
read_words_same m w p zero h = refl
read_words_same m w p (suc n) h = rw (
  read_word_same m w p (λ a lo hi. h a lo (omega arith)),
  read_words_same m w (p + 4) n (λ a lo hi. h a (omega arith) (omega arith)),
)

pub read_words-write_words :
    (m : ℕ → ℕ) (p : ℕ) (ws : List ℕ)
    → All (λ w. w < 2 ^ 32) ws
    → read_words (write_words m p ws) p (length ws) ≡ ws
unfolding read_words write_words
read_words-write_words m p [] fit = refl
read_words-write_words m p (w ∷ ws) fit =
    let first : read_word (write_words (write_word m p w) (p + 4) ws) p ≡ w =
      read_word_same (write_words (write_word m p w) (p + 4) ws) (write_word m p w) p
        (λ a lo hi. write_words_before (write_word m p w) (p + 4) ws a hi)
      ∙ read_word-write_word m p w fit.0 in
    rw (first, read_words-write_words (write_word m p w) (p + 4) ws fit.1)
