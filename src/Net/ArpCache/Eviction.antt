-- ===== src/Net/ArpCache/Eviction.antt =====
-- Which item makes room when the table is full.
use mathlib.Core.Path.{subst}
use shmily.Base.{
  ℕ, suc, ◌+◌, ◌≤◌, ◌<◌, ◌≡◌, refl, sym, ◌∙◌, ◌≢◌, ◌⊎◌, inl, inr, List, [], ◌∷◌, arith, ltb, All,
  length, get_or, Bool-cases,
}
use shmily.Net.ArpCache.{Item, no_item, less_use, remove_less_use_item}

abbrev ref_at : List Item → ℕ → ℕ
ref_at items k = (get_or items k no_item).ref

-- The loop with `cnt` uses at best before `items`, which start at index `i`.
abbrev Least : ℕ → ℕ → ℕ → List Item → ℕ → Type 0
Least idx cnt i items r =
    ((r ≡ idx) × All (λ x. cnt ≤ x.ref) items)
    ⊎ ((k : ℕ) × (r ≡ i + k)
        × (k < length items)
        × (ref_at items k < cnt)
        × All (λ x. ref_at items k ≤ x.ref) items)

less_use-Least :
    (idx cnt i : ℕ) (items : List Item) → Least idx cnt i items (less_use idx cnt i items)
unfolding less_use
less_use-Least idx cnt i [] = inl (refl, tt)
less_use-Least idx cnt i (item ∷ items) = elim (Bool-cases (ltb item.ref cnt)) [
  | inl fewer ↦ rw fewer (elim (less_use-Least i item.ref (i + 1) items) [
    | inl h ↦ inr (0, h.0 ∙ omega arith, omega arith, ground arith, (omega arith, h.1))
    | inr (k, at, lt, less, all) ↦
        inr (suc k, omega (arith, at), omega arith, ground arith, (omega arith, all))
  ])
  | inr more ↦ rw more (elim (less_use-Least idx cnt (i + 1) items) [
    | inl h ↦ inl (h.0, (ground arith, h.1))
    | inr (k, at, lt, less, all) ↦
        inr (suc k, omega (arith, at), omega arith, less, (ground arith, all))
  ])
]

abbrev pub LeastUsed : List Item → ℕ → Type 0
LeastUsed items r = (r < length items) × All (λ x. (get_or items r no_item).ref ≤ x.ref) items

-- `remove_less_use_item` names an item of the table, and no item has been used less often.
pub remove_less_use_item-LeastUsed :
    (items : List Item) → items ≢ [] → LeastUsed items (remove_less_use_item items)
unfolding remove_less_use_item
remove_less_use_item-LeastUsed [] ne = absurd (ne refl)
remove_less_use_item-LeastUsed (item ∷ items) ne = elim (less_use-Least 0 item.ref 1 items) [
  | inl h ↦ subst (LeastUsed (item ∷ items)) (sym h.0) (omega arith, (omega arith, h.1))
  | inr (k, at, lt, less, all) ↦
      let e : less_use 0 item.ref 1 items ≡ suc k = at ∙ omega arith in
      subst (LeastUsed (item ∷ items)) (sym e) (omega arith, (omega arith, all))
]
