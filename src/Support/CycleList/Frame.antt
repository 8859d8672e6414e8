-- ===== src/Support/CycleList/Frame.antt =====
-- An operation on one list touches the nodes of that list and the element given, and no other.
use mathlib.Core.Path.{subst}
use shmily.Base.{
  ℕ, ◌≡◌, refl, sym, ◌∙◌, ◌≢◌, List, [], ◌∷◌, ◌++◌, arith, All, All-append_right, All-imp, All-imp₂,
  Distinct-append_right, split_last, update_ne, Distinct, ==_ne, ==_refl,
}
use shmily.Support.CycleList.{Links, tail, append, remove, next_elem}
use shmily.Support.CycleList.Walk.{first, next_from, Apart-tail}
use shmily.Support.CycleList.Linked.{Apart, Linked, Linked-from, Linked-same}
use shmily.Support.CycleList.Refine.{
  IsList, nodes, nodes_last, nodes_split, append-insert, remove-unlink, remove-IsList,
}

abbrev pub Untouched : Links → Links → ℕ → Type 0
Untouched m w p = (w.next p ≡ m.next p) × (w.prev p ≡ m.prev p)

pub append-Untouched :
    (m : Links) (l e p : ℕ) (xs : List ℕ)
    → IsList m l xs
    → All (Apart e) (nodes l xs)
    → All (λ y. p ≢ y) (nodes l xs)
    → p ≢ e
    → Untouched m (append l e m) p
append-Untouched m l e p xs h out far ne =
    let (us, z, q) = split_last l xs in
    let split = nodes_last l z xs us q in
    let back = Linked-from m us z (tail l ∷ []) (subst (Linked m) split h.linked) in
    let out' = All-append_right (Apart e) us (z ∷ tail l ∷ []) (subst (All (Apart e)) split out) in
    let far' =
      All-append_right (λ y. p ≢ y) us (z ∷ tail l ∷ []) (subst (All (λ y. p ≢ y)) split far) in
    rw (append-insert l e z m back.1 out'.1.0) (ground arith, ground arith)

remove_at-Untouched :
    (m : Links) (us : List ℕ) (a e b p : ℕ) (vs : List ℕ)
    → Linked m (us ++ a ∷ e ∷ b ∷ vs)
    → Distinct (us ++ a ∷ e ∷ b ∷ vs)
    → All (λ y. p ≢ y) (us ++ a ∷ e ∷ b ∷ vs)
    → Untouched m (remove e m) p
remove_at-Untouched m us a e b p vs linked distinct far =
    let back = Linked-from m us a (e ∷ b ∷ vs) linked in
    let apart = Distinct-append_right us (a ∷ e ∷ b ∷ vs) distinct in
    let far' = All-append_right (λ y. p ≢ y) us (a ∷ e ∷ b ∷ vs) far in
    rw (remove-unlink a e b m back.2.0 back.1 (λ h. apart.1.0.0 (sym h)))
      (ground arith, ground arith)

remove_from-Untouched :
    (m : Links) (l e z p : ℕ) (xs us ys : List ℕ)
    → l ∷ xs ≡ us ++ z ∷ []
    → IsList m l (xs ++ e ∷ ys)
    → All (λ y. p ≢ y) (nodes l (xs ++ e ∷ ys))
    → Untouched m (remove e m) p
remove_from-Untouched m l e z p xs us [] q h far =
    let split = nodes_split l z xs us (e ∷ []) q in
    remove_at-Untouched m us z e (tail l) p [] (subst (Linked m) split h.linked)
      (subst Distinct split h.distinct) (subst (All (λ y. p ≢ y)) split far)
remove_from-Untouched m l e z p xs us (y ∷ ys) q h far =
    let split = nodes_split l z xs us (e ∷ y ∷ ys) q in
    remove_at-Untouched m us z e y p (ys ++ tail l ∷ []) (subst (Linked m) split h.linked)
      (subst Distinct split h.distinct) (subst (All (λ y. p ≢ y)) split far)

pub remove-Untouched :
    (m : Links) (l e p : ℕ) (xs ys : List ℕ)
    → IsList m l (xs ++ e ∷ ys)
    → All (λ y. p ≢ y) (nodes l (xs ++ e ∷ ys))
    → Untouched m (remove e m) p
remove-Untouched m l e p xs ys h far =
    let (us, z, q) = split_last l xs in remove_from-Untouched m l e z p xs us ys q h far

-- Two lists have no node in common.
abbrev pub Disjoint : List ℕ → List ℕ → Type 0
Disjoint ns ms = All (λ p. All (λ y. p ≢ y) ms) ns

-- A list stays as it is while an element that is on neither list is put behind another list that
-- has no node in common with it.
pub append-IsList_other :
    (m : Links) (l e l' : ℕ) (xs ys : List ℕ)
    → IsList m l xs
    → All (Apart e) (nodes l xs)
    → IsList m l' ys
    → All (Apart e) (nodes l' ys)
    → Disjoint (nodes l' ys) (nodes l xs)
    → IsList (append l e m) l' ys
append-IsList_other m l e l' xs ys h out other away apart = record {
  linked =
      Linked-same m (append l e m) (nodes l' ys)
        (All-imp₂ (λ p. All (λ y. p ≢ y) (nodes l xs)) (Apart e) (Untouched m (append l e m))
          (nodes l' ys) (λ p far ne. append-Untouched m l e p xs h out far ne) apart away)
        other.linked;
  distinct = other.distinct;
}

-- A list stays as it is while an element is taken off another list that has no node in common with
-- it.
pub remove-IsList_other :
    (m : Links) (l e l' : ℕ) (xs zs ys : List ℕ)
    → IsList m l (xs ++ e ∷ zs)
    → IsList m l' ys
    → Disjoint (nodes l' ys) (nodes l (xs ++ e ∷ zs))
    → IsList (remove e m) l' ys
remove-IsList_other m l e l' xs zs ys h other apart = record {
  linked =
      Linked-same m (remove e m) (nodes l' ys)
        (All-imp (λ p. All (λ y. p ≢ y) (nodes l (xs ++ e ∷ zs))) (Untouched m (remove e m))
          (nodes l' ys) (λ p far. remove-Untouched m l e p xs zs h far) apart)
        other.linked;
  distinct = other.distinct;
}

remove_at_next :
    (m : Links) (us : List ℕ) (a e b : ℕ) (vs : List ℕ)
    → Linked m (us ++ a ∷ e ∷ b ∷ vs)
    → Distinct (us ++ a ∷ e ∷ b ∷ vs)
    → (remove e m).next e ≡ m.next e
remove_at_next m us a e b vs linked distinct =
    let back = Linked-from m us a (e ∷ b ∷ vs) linked in
    let apart = Distinct-append_right us (a ∷ e ∷ b ∷ vs) distinct in
    rw (remove-unlink a e b m back.2.0 back.1 (λ h. apart.1.0.0 (sym h)))
      (update_ne m.next a e b apart.0.0)

remove_from_next :
    (m : Links) (l e z : ℕ) (xs us ys : List ℕ)
    → l ∷ xs ≡ us ++ z ∷ []
    → IsList m l (xs ++ e ∷ ys)
    → (remove e m).next e ≡ m.next e
remove_from_next m l e z xs us [] q h =
    let split = nodes_split l z xs us (e ∷ []) q in
    remove_at_next m us z e (tail l) [] (subst (Linked m) split h.linked)
      (subst Distinct split h.distinct)
remove_from_next m l e z xs us (y ∷ ys) q h =
    let split = nodes_split l z xs us (e ∷ y ∷ ys) q in
    remove_at_next m us z e y (ys ++ tail l ∷ []) (subst (Linked m) split h.linked)
      (subst Distinct split h.distinct)

head_next : (w : Links) (l : ℕ) (x : ℕ) (xs : List ℕ) → IsList w l (x ∷ xs) → w.next l ≡ x
head_next w l x xs h = h.linked.0

-- An element that has just been taken off a list still leads to the one that came behind it, and
-- from the last place to the first element left.
pub next_elem-remove :
    (m : Links) (l e : ℕ) (xs ys : List ℕ)
    → IsList m l (xs ++ e ∷ ys)
    → ys ++ xs ≢ []
    → next_elem l e (remove e m) ≡ first (ys ++ xs)
unfolding next_elem
next_elem-remove m l e [] [] h ne = absurd (ne refl)
next_elem-remove m l e (x ∷ xs) [] h ne =
    let (us, z, q) = split_last l (x ∷ xs) in
    let keep = remove_from_next m l e z (x ∷ xs) us [] q h ∙ next_from m l e (x ∷ xs) [] h in
    let rest = remove-IsList m l e (x ∷ xs) [] h in
    rw (keep, ==_refl (tail l)) (head_next (remove e m) l x (xs ++ []) rest)
next_elem-remove m l e xs (y ∷ ys) h ne =
    let (us, z, q) = split_last l xs in
    let keep = remove_from_next m l e z xs us (y ∷ ys) q h ∙ next_from m l e xs (y ∷ ys) h in
    let apart =
      All-append_right (Apart (tail l)) xs (e ∷ y ∷ ys) (Apart-tail m l (xs ++ e ∷ y ∷ ys) h) in
    rw (keep, ==_ne y (tail l) apart.1.0)
