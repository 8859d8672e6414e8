-- ===== src/Support/CycleList/Refine.antt =====
-- A list object that holds the elements `xs`, in order, and the operations as operations on `xs`.
use mathlib.Core.List.{append_assoc}
use mathlib.Core.Path.{subst}
use shmily.Base.{
  ℕ, ◌≡◌, refl, sym, ap, ◌∙◌, ◌≢◌, List, [], ◌∷◌, ◌++◌, true, arith, All, Distinct, Distinct-insert,
  Distinct-delete, split_last, update_ne, ==_ne, ==_iff, ◌↔◌, All-append_right,
  Distinct-append_right,
}
use shmily.Support.CycleList.{Links, tail, initialize, append, push, remove, pop, is_empty}
use shmily.Support.CycleList.Linked.{
  Apart, Linked, Linked-from, Linked-insert, Linked-unlink, insert_between, unlink_between,
}

abbrev pub nodes : ℕ → List ℕ → List ℕ
nodes l xs = l ∷ (xs ++ tail l ∷ [])

pub record IsList (m : Links) (l : ℕ) (xs : List ℕ) : Type 0 where
  pub linked : Linked m (nodes l xs)
  pub distinct : Distinct (nodes l xs)

-- `initialize` makes an empty list.
pub initialize-IsList : (l : ℕ) (m : Links) → IsList (initialize l m) l []
unfolding initialize
initialize-IsList l m = record {
  linked = (ground arith, ground arith, tt);
  distinct = ((λ h. omega arith, tt), (tt, tt));
}

pub append-insert :
    (l e z : ℕ) (m : Links)
    → m.prev (tail l) ≡ z
    → tail l ≢ e
    → append l e m ≡ insert_between z e (tail l) m
unfolding append
append-insert l e z m h ne = rw (update_ne m.prev e (tail l) (m.prev (tail l)) ne, h)

push-insert : (l e b : ℕ) (m : Links) → m.next l ≡ b → l ≢ e → push l e m ≡ insert_between l e b m
unfolding push
push-insert l e b m h ne = rw (update_ne m.next e l (m.next l) ne, h)

pub remove-unlink :
    (a e b : ℕ) (m : Links)
    → m.next e ≡ b
    → m.prev e ≡ a
    → e ≢ b
    → remove e m ≡ unlink_between a b m
unfolding remove
remove-unlink a e b m hn hp ne = rw (hn, hp, ==_ne e b ne)

-- The nodes of a list as a front, its last node before the tail, and the tail.
pub nodes_last :
    (l z : ℕ) (xs us : List ℕ) → l ∷ xs ≡ us ++ z ∷ [] → nodes l xs ≡ us ++ z ∷ tail l ∷ []
nodes_last l z xs us q = ap (λ r. r ++ tail l ∷ []) q ∙ append_assoc us (z ∷ []) (tail l ∷ [])

nodes_snoc : (l e : ℕ) (xs : List ℕ) → nodes l (xs ++ e ∷ []) ≡ l ∷ (xs ++ e ∷ tail l ∷ [])
nodes_snoc l e xs = ap (λ r. l ∷ r) (append_assoc xs (e ∷ []) (tail l ∷ []))

nodes_snoc_last :
    (l z e : ℕ) (xs us : List ℕ)
    → l ∷ xs ≡ us ++ z ∷ []
    → nodes l (xs ++ e ∷ []) ≡ us ++ z ∷ e ∷ tail l ∷ []
nodes_snoc_last l z e xs us q =
    nodes_snoc l e xs
    ∙ ap (λ r. r ++ e ∷ tail l ∷ []) q
    ∙ append_assoc us (z ∷ []) (e ∷ tail l ∷ [])

append_at :
    (m : Links) (l e z : ℕ) (xs us : List ℕ)
    → l ∷ xs ≡ us ++ z ∷ []
    → IsList m l xs
    → All (Apart e) (nodes l xs)
    → Linked (append l e m) (nodes l (xs ++ e ∷ []))
append_at m l e z xs us q h out =
    let split = nodes_last l z xs us q in
    let linked = subst (Linked m) split h.linked in
    let distinct = subst Distinct split h.distinct in
    let apart = subst (All (Apart e)) split out in
    let back = Linked-from m us z (tail l ∷ []) linked in
    let ne = (All-append_right (Apart e) us (z ∷ tail l ∷ []) apart).1.0 in
    rw (append-insert l e z m back.1 ne, nodes_snoc_last l z e xs us q)
      (Linked-insert m us z (tail l) e [] linked distinct apart)

-- `append` puts an element that is not on the list behind the others.
pub append-IsList :
    (m : Links) (l e : ℕ) (xs : List ℕ)
    → IsList m l xs
    → All (Apart e) (nodes l xs)
    → IsList (append l e m) l (xs ++ e ∷ [])
append-IsList m l e xs h out = record {
  linked = let (us, z, q) = split_last l xs in append_at m l e z xs us q h out;
  distinct =
      subst Distinct (sym (nodes_snoc l e xs))
        (Distinct-insert e (l ∷ xs) (tail l ∷ []) h.distinct out);
}

push_at :
    (m : Links) (l e b : ℕ) (vs : List ℕ)
    → Linked m (l ∷ b ∷ vs)
    → Distinct (l ∷ b ∷ vs)
    → All (Apart e) (l ∷ b ∷ vs)
    → Linked (push l e m) (l ∷ e ∷ b ∷ vs)
push_at m l e b vs linked distinct out =
    subst (λ w. Linked w (l ∷ e ∷ b ∷ vs)) (sym (push-insert l e b m linked.0 out.0))
      (Linked-insert m [] l b e vs linked distinct out)

push-Linked :
    (m : Links) (l e : ℕ) (xs : List ℕ)
    → IsList m l xs
    → All (Apart e) (nodes l xs)
    → Linked (push l e m) (nodes l (e ∷ xs))
push-Linked m l e [] h out = push_at m l e (tail l) [] h.linked h.distinct out
push-Linked m l e (x ∷ xs) h out = push_at m l e x (xs ++ tail l ∷ []) h.linked h.distinct out

-- `push` puts an element that is not on the list before the others.
pub push-IsList :
    (m : Links) (l e : ℕ) (xs : List ℕ)
    → IsList m l xs
    → All (Apart e) (nodes l xs)
    → IsList (push l e m) l (e ∷ xs)
push-IsList m l e xs h out = record {
  linked = push-Linked m l e xs h out;
  distinct = Distinct-insert e (l ∷ []) (xs ++ tail l ∷ []) h.distinct out;
}

remove_at :
    (m : Links) (us : List ℕ) (a e b : ℕ) (vs : List ℕ)
    → Linked m (us ++ a ∷ e ∷ b ∷ vs)
    → Distinct (us ++ a ∷ e ∷ b ∷ vs)
    → Linked (remove e m) (us ++ a ∷ b ∷ vs)
remove_at m us a e b vs linked distinct =
    let back = Linked-from m us a (e ∷ b ∷ vs) linked in
    let apart = Distinct-append_right us (a ∷ e ∷ b ∷ vs) distinct in
    rw (remove-unlink a e b m back.2.0 back.1 (λ h. apart.1.0.0 (sym h)))
      (Linked-unlink m us a b e vs linked distinct)

pub nodes_split :
    (l z : ℕ) (xs us : List ℕ) (rest : List ℕ)
    → l ∷ xs ≡ us ++ z ∷ []
    → l ∷ ((xs ++ rest) ++ tail l ∷ []) ≡ us ++ z ∷ (rest ++ tail l ∷ [])
nodes_split l z xs us rest q =
    ap (λ r. l ∷ r) (append_assoc xs rest (tail l ∷ []))
    ∙ ap (λ r. r ++ (rest ++ tail l ∷ [])) q
    ∙ append_assoc us (z ∷ []) (rest ++ tail l ∷ [])

remove-Linked :
    (m : Links) (l e z : ℕ) (xs us : List ℕ) (ys : List ℕ)
    → l ∷ xs ≡ us ++ z ∷ []
    → IsList m l (xs ++ e ∷ ys)
    → Linked (remove e m) (nodes l (xs ++ ys))
remove-Linked m l e z xs us [] q h =
    let split = nodes_split l z xs us (e ∷ []) q in
    rw (nodes_split l z xs us [] q) (
      remove_at m us z e (tail l) [] (subst (Linked m) split h.linked)
        (subst Distinct split h.distinct))
remove-Linked m l e z xs us (y ∷ ys) q h =
    let split = nodes_split l z xs us (e ∷ y ∷ ys) q in
    rw (nodes_split l z xs us (y ∷ ys) q) (
      remove_at m us z e y (ys ++ tail l ∷ []) (subst (Linked m) split h.linked)
        (subst Distinct split h.distinct))

-- `remove` takes an element out, wherever it stands, and keeps the order of the others.
pub remove-IsList :
    (m : Links) (l e : ℕ) (xs ys : List ℕ)
    → IsList m l (xs ++ e ∷ ys)
    → IsList (remove e m) l (xs ++ ys)
remove-IsList m l e xs ys h = record {
  linked = let (us, z, q) = split_last l xs in remove-Linked m l e z xs us ys q h;
  distinct =
      let whole : Distinct ((l ∷ xs) ++ e ∷ (ys ++ tail l ∷ [])) = rw append_assoc at h.distinct in
      rw append_assoc (Distinct-delete e (l ∷ xs) (ys ++ tail l ∷ []) whole).0;
}

-- `pop` returns the first element of a list that has one, and takes it out.
pub pop-IsList :
    (m : Links) (l x : ℕ) (xs : List ℕ)
    → IsList m l (x ∷ xs)
    → ((pop l m).0 ≡ x) × IsList (pop l m).1 l xs
unfolding pop
pop-IsList m l x xs h = (h.linked.0, rw h.linked.0 (remove-IsList m l x [] xs h))

-- `is_empty` tells whether the list has no element.
pub is_empty_iff :
    (m : Links) (l : ℕ) (xs : List ℕ) → IsList m l xs → (is_empty l m ≡ true) ↔ (xs ≡ [])
unfolding is_empty
is_empty_iff m l [] h = (λ e. refl, λ e. (==_iff _ _).1 h.linked.0)
is_empty_iff m l (x ∷ xs) h =
    let first : m.next l ≡ x = h.linked.0 in
    let apart : tail l ≢ x = (All-append_right (Apart x) xs (tail l ∷ []) h.distinct.1.0).0 in
    (λ e. absurd (apart (sym ((==_iff _ _).0 e) ∙ first)), λ e. cc)
