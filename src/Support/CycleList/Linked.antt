-- ===== src/Support/CycleList/Linked.antt =====
-- Nodes that are linked in both directions, and what writes between two of them do.
use mathlib.Core.List.{append_assoc}
use shmily.Base.{
  ℕ, ◌≡◌, ◌∙◌, ◌≢◌, List, [], ◌∷◌, ◌++◌, arith, All, All-append, All-append_left, All-append_right,
  All-imp, All-imp₂, Distinct, Distinct-delete, update,
}
use shmily.Support.CycleList.{Links}

-- Each node's `next` is its successor in the list, whose `prev` is the node.
abbrev pub Linked : Links → List ℕ → Type 0
Linked m [] = Unit {0}
Linked m (a ∷ []) = Unit {0}
Linked m (a ∷ b ∷ ns) = (m.next a ≡ b) × (m.prev b ≡ a) × Linked m (b ∷ ns)

abbrev SameNext : Links → Links → ℕ → Type 0
SameNext m w p = w.next p ≡ m.next p

abbrev SamePrev : Links → Links → ℕ → Type 0
SamePrev m w p = w.prev p ≡ m.prev p

module _ (m w : Links) where
  -- The nodes from `b` on stay linked if their `next` and the `prev` of those behind `b` are kept.
  keep_from :
      (b : ℕ) (vs : List ℕ)
      → Linked m (b ∷ vs)
      → All (SameNext m w) (b ∷ vs)
      → All (SamePrev m w) vs
      → Linked w (b ∷ vs)
  keep_from b [] l hn hp = tt
  keep_from b (c ∷ vs) l hn hp = (hn.0 ∙ l.0, hp.0 ∙ l.1, keep_from c vs l.2 hn.1 hp.1)

  -- A front part that ends at `a` stays linked whatever becomes of the `next` of `a`; what comes
  -- behind `a` is given.
  join :
      (us : List ℕ) (a : ℕ) (old new : List ℕ)
      → Linked m (us ++ a ∷ old)
      → All (SameNext m w) us
      → All (SamePrev m w) (us ++ a ∷ [])
      → Linked w (a ∷ new)
      → Linked w (us ++ a ∷ new)
  join [] a old new l hn hp r = r
  join (u ∷ []) a old new l hn hp r = (hn.0 ∙ l.0, hp.1.0 ∙ l.1, r)
  join (u ∷ v ∷ us) a old new l hn hp r =
      (hn.0 ∙ l.0, hp.1.0 ∙ l.1, join (v ∷ us) a old new l.2 hn.1 hp.1 r)

-- The part of linked nodes from one of them on.
pub Linked-from :
    (m : Links) (us : List ℕ) (a : ℕ) (vs : List ℕ) → Linked m (us ++ a ∷ vs) → Linked m (a ∷ vs)
Linked-from m [] a vs l = l
Linked-from m (u ∷ []) a vs l = l.2
Linked-from m (u ∷ v ∷ us) a vs l = Linked-from m (v ∷ us) a vs l.2

-- The four writes that put `e` between `a` and `b`.
abbrev pub insert_between : ℕ → ℕ → ℕ → Links → Links
insert_between a e b m = record {
  prev = update (update m.prev e a) b e;
  next = update (update m.next e b) a e;
}

-- The two writes that take out what stands between `a` and `b`.
abbrev pub unlink_between : ℕ → ℕ → Links → Links
unlink_between a b m = record { prev = update m.prev b a; next = update m.next a b }

abbrev pub Apart : ℕ → ℕ → Type 0
Apart e y = y ≢ e

-- What holds of the front and of `a` in a list that goes on behind `a`.
front :
    (P : ℕ → Type 0) (us : List ℕ) (a : ℕ) (vs : List ℕ)
    → All P (us ++ a ∷ vs)
    → All P (us ++ a ∷ [])
front P us a vs h =
    All-append P us (a ∷ []) (All-append_left P us (a ∷ vs) h)
      ((All-append_right P us (a ∷ vs) h).0, tt)

-- In a list of distinct nodes `b` is apart from all that stands before it and after it.
Apart-second :
    (us : List ℕ) (a b : ℕ) (vs : List ℕ)
    → Distinct (us ++ a ∷ b ∷ vs)
    → All (Apart b) (us ++ a ∷ []) × All (Apart b) vs
Apart-second us a b vs d =
    let d' : Distinct ((us ++ a ∷ []) ++ b ∷ vs) = rw append_assoc d in
    let h = (Distinct-delete b (us ++ a ∷ []) vs d').1 in
    (All-append_left (Apart b) (us ++ a ∷ []) vs h, All-append_right (Apart b) (us ++ a ∷ []) vs h)

module _ (m : Links) (us : List ℕ) (a b e : ℕ) (vs : List ℕ) where
  pub Linked-insert :
      Linked m (us ++ a ∷ b ∷ vs)
      → Distinct (us ++ a ∷ b ∷ vs)
      → All (Apart e) (us ++ a ∷ b ∷ vs)
      → Linked (insert_between a e b m) (us ++ a ∷ e ∷ b ∷ vs)
  Linked-insert l d h =
      let w = insert_between a e b m in
      let far_a = (Distinct-delete a us (b ∷ vs) d).1 in
      let far_b = Apart-second us a b vs d in
      let near = All-append_right (Apart e) us (a ∷ b ∷ vs) h in
      let next_kept =
        λ (p : ℕ) (x : p ≢ a) (y : p ≢ e). let r : SameNext m w p = ground arith in r in
      let prev_kept =
        λ (p : ℕ) (x : p ≢ b) (y : p ≢ e). let r : SamePrev m w p = ground arith in r in
      let back = Linked-from m us a (b ∷ vs) l in
      join m w us a (b ∷ vs) (e ∷ b ∷ vs) l
        (All-imp₂ (Apart a) (Apart e) (SameNext m w) us next_kept
          (All-append_left (Apart a) us (b ∷ vs) far_a)
          (All-append_left (Apart e) us (a ∷ b ∷ vs) h))
        (All-imp₂ (Apart b) (Apart e) (SamePrev m w) (us ++ a ∷ []) prev_kept far_b.0
          (front (Apart e) us a (b ∷ vs) h))
        (
          ground arith,
          ground arith,
          (
            ground arith,
            ground arith,
            keep_from m w b vs back.2
                (All-imp₂ (Apart a) (Apart e) (SameNext m w) (b ∷ vs) next_kept
                  (All-append_right (Apart a) us (b ∷ vs) far_a) near.1)
                (All-imp₂ (Apart b) (Apart e) (SamePrev m w) vs prev_kept far_b.1 near.1.1),
          ),
        )

  pub Linked-unlink :
      Linked m (us ++ a ∷ e ∷ b ∷ vs)
      → Distinct (us ++ a ∷ e ∷ b ∷ vs)
      → Linked (unlink_between a b m) (us ++ a ∷ b ∷ vs)
  Linked-unlink l d =
      let w = unlink_between a b m in
      let far_a = (Distinct-delete a us (e ∷ b ∷ vs) d).1 in
      let d' : Distinct ((us ++ a ∷ []) ++ e ∷ b ∷ vs) = rw append_assoc d in
      let d'' : Distinct (us ++ a ∷ b ∷ vs) =
        rw append_assoc at ((Distinct-delete e (us ++ a ∷ []) (b ∷ vs) d').0) in
      let far_b = Apart-second us a b vs d'' in
      let next_kept = λ (p : ℕ) (x : p ≢ a). let r : SameNext m w p = ground arith in r in
      let prev_kept = λ (p : ℕ) (x : p ≢ b). let r : SamePrev m w p = ground arith in r in
      let back = Linked-from m us a (e ∷ b ∷ vs) l in
      join m w us a (e ∷ b ∷ vs) (b ∷ vs) l
        (All-imp (Apart a) (SameNext m w) us next_kept
          (All-append_left (Apart a) us (e ∷ b ∷ vs) far_a))
        (All-imp (Apart b) (SamePrev m w) (us ++ a ∷ []) prev_kept far_b.0)
        (
          ground arith,
          ground arith,
          keep_from m w b vs back.2.2
              (All-imp (Apart a) (SameNext m w) (b ∷ vs) next_kept
                (All-append_right (Apart a) us (e ∷ b ∷ vs) far_a).1)
              (All-imp (Apart b) (SamePrev m w) vs prev_kept far_b.1),
        )

-- Nodes whose two pointers are kept stay linked.
pub Linked-same :
    (m w : Links) (ns : List ℕ)
    → All (λ p. (w.next p ≡ m.next p) × (w.prev p ≡ m.prev p)) ns
    → Linked m ns
    → Linked w ns
Linked-same m w [] h l = tt
Linked-same m w (b ∷ vs) h l =
    keep_from m w b vs l
      (All-imp (λ p. (w.next p ≡ m.next p) × (w.prev p ≡ m.prev p)) (SameNext m w) (b ∷ vs)
        (λ p k. k.0) h)
      (All-imp (λ p. (w.next p ≡ m.next p) × (w.prev p ≡ m.prev p)) (SamePrev m w) vs (λ p k. k.1)
        h.1)
