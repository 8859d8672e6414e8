-- ===== src/Support/CycleList/Walk.antt =====
-- The operations that walk along a list or round it.
use mathlib.Core.List.{append_assoc, append-nil}
use shmily.Base.{
  ℕ, zero, suc, ◌+◌, ◌<◌, ◌≡◌, ap, ◌∙◌, List, [], ◌∷◌, ◌++◌, some, true, false, arith, ◌==◌, leb,
  if◌then◌else◌, All, All-append_right, Distinct-delete, length, ==_ne, ==_refl,
}
use shmily.Support.CycleList.{Links, tail, count_from, get_length, get_elem, next_elem}
use shmily.Support.CycleList.Linked.{Apart, Linked, Linked-from}
use shmily.Support.CycleList.Refine.{IsList}

count_from-length :
    (fuel : ℕ) (m : Links) (l a i : ℕ) (xs : List ℕ)
    → Linked m (a ∷ (xs ++ tail l ∷ []))
    → All (Apart (tail l)) xs
    → length xs < fuel
    → count_from fuel l m (m.next a) i ≡ some (i + length xs)
unfolding count_from
count_from-length zero m l a i xs h out f = absurd (omega arith)
count_from-length (suc k) m l a i [] h out f =
    let e : (m.next a == tail l) ≡ true = rw h.0 (==_refl (tail l)) in rw e (ap some (omega arith))
count_from-length (suc k) m l a i (x ∷ xs) h out f =
    let e : (m.next a == tail l) ≡ false = rw h.0 (==_ne x (tail l) out.0) in
    rw (e, h.0)
      (count_from-length k m l x (i + 1) xs h.2 out.1 (omega arith) ∙ ap some (omega arith))

pub Apart-tail : (m : Links) (l : ℕ) (xs : List ℕ) → IsList m l xs → All (Apart (tail l)) xs
Apart-tail m l xs h = rw append-nil at ((Distinct-delete (tail l) xs [] h.distinct.1).1)

-- With more rounds than elements `get_length` returns, and what it returns is their number.
pub get_length-length :
    (fuel : ℕ) (m : Links) (l : ℕ) (xs : List ℕ)
    → IsList m l xs
    → length xs < fuel
    → get_length fuel l m ≡ some (length xs)
unfolding get_length
get_length-length fuel m l xs h f =
    count_from-length fuel m l l 0 xs h.linked (Apart-tail m l xs h) f ∙ ap some (omega arith)

-- The first element, or NULL.
abbrev pub first : List ℕ → ℕ
first [] = 0
first (x ∷ xs) = x

-- `get_elem` returns the first element for every index within the list, and NULL for the others.
pub get_elem-first :
    (fuel : ℕ) (m : Links) (l idx : ℕ) (xs : List ℕ)
    → IsList m l xs
    → length xs < fuel
    → get_elem fuel l idx m ≡ some (if leb (length xs) idx then 0 else first xs)
unfolding get_elem
get_elem-first fuel m l idx [] h f =
    let e = get_length-length fuel m l [] h f in rw (e, get_elem) (ground arith)
get_elem-first fuel m l idx (x ∷ xs) h f =
    let e = get_length-length fuel m l (x ∷ xs) h f in rw (e, get_elem, h.linked.0)

next_first :
    (m : Links) (l e : ℕ) (xs ys : List ℕ)
    → IsList m l (xs ++ e ∷ ys)
    → m.next l ≡ first (xs ++ e ∷ [])
next_first m l e [] ys h = h.linked.0
next_first m l e (x ∷ xs) ys h = h.linked.0

pub next_from :
    (m : Links) (l e : ℕ) (xs ys : List ℕ)
    → IsList m l (xs ++ e ∷ ys)
    → m.next e ≡ first (ys ++ tail l ∷ [])
next_from m l e xs ys h =
    let split : Linked m ((l ∷ xs) ++ e ∷ (ys ++ tail l ∷ [])) = rw append_assoc at h.linked in
    behind ys (Linked-from m (l ∷ xs) e (ys ++ tail l ∷ []) split)
  where
    behind :
        (ys : List ℕ) → Linked m (e ∷ (ys ++ tail l ∷ [])) → m.next e ≡ first (ys ++ tail l ∷ [])
    behind [] k = k.0
    behind (y ∷ ys) k = k.0

-- `next_elem` goes from an element to the one behind it, and from the last one to the first.
pub next_elem_round :
    (m : Links) (l e : ℕ) (xs ys : List ℕ)
    → IsList m l (xs ++ e ∷ ys)
    → next_elem l e m ≡ first (ys ++ (xs ++ e ∷ []))
unfolding next_elem
next_elem_round m l e xs [] h =
    rw (next_from m l e xs [] h, ==_refl (tail l)) (next_first m l e xs [] h)
next_elem_round m l e xs (y ∷ ys) h =
    let apart =
      All-append_right (Apart (tail l)) xs (e ∷ y ∷ ys) (Apart-tail m l (xs ++ e ∷ y ∷ ys) h) in
    rw (next_from m l e xs (y ∷ ys) h, ==_ne y (tail l) apart.1.0)
