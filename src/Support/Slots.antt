-- ===== src/Support/Slots.antt =====
-- A stretch of a circular array, for the two ring buffers of lib/.
use native.Mathlib.Nat.{mod-add-mod, mod-eq_of_lt}
use mathlib.Core.Path.{ap₂, subst}
use shmily.Base.{
  ℕ, zero, suc, ◌+◌, ◌-◌, ◌%◌, ◌≤◌, ◌<◌, ◌≡◌, refl, sym, ap, ◌∙◌, ◌≢◌, List, [], ◌∷◌, ◌++◌, arith,
  length, All, update, update_self, update_ne,
}

module _ {ℓ} {A : Type ℓ} (size : ℕ) where
  -- The `n` cells from index `i` on, going round at `size`.
  abbrev pub slots : (ℕ → A) → ℕ → ℕ → List A
  slots f i zero = []
  slots f i (suc n) = f i ∷ slots f ((i + 1) % size) n

  pub length-slots : (f : ℕ → A) (i n : ℕ) → length (slots f i n) ≡ n
  length-slots f i zero = refl
  length-slots f i (suc n) = ap suc (length-slots f ((i + 1) % size) n)

  pub slots_pos :
      (f : ℕ → A) (i n : ℕ) → n ≢ 0 → slots f i n ≡ f i ∷ slots f ((i + 1) % size) (n - 1)
  slots_pos f i zero h = absurd (h refl)
  slots_pos f i (suc n) h = ap (λ k. slots f i (suc k)) (omega arith)

round-ne : (size i k : ℕ) → i < size → suc k < size → (i + suc k) % size ≢ i
round-ne size i k hi hk = grind arith

round_step : (size i k : ℕ) → i < size → k < size → (i + suc k) % size ≡ ((i + 1) % size + k) % size
round_step size i k hi hk = rw mod-add-mod (ap (λ t. t % size) (omega arith))

-- A write just past a stretch makes it longer by the cell written.
pub slots-update {ℓ} :
    {A : Type ℓ} (size : ℕ) (f : ℕ → A) (v : A) (n i p : ℕ)
    → i < size
    → n < size
    → p ≡ (i + n) % size
    → slots size (update f p v) i (suc n) ≡ slots size f i n ++ (v ∷ [])
slots-update size f v zero i p hi hn e =
    let same : p ≡ i = e ∙ ap (λ t. t % size) (omega arith) ∙ mod-eq_of_lt hi in
    rw same (ap (λ t. t ∷ []) (update_self f i v))
slots-update size f v (suc n) i p hi hn e =
    ap₂ ◌∷◌ (update_ne f p i v (λ h. round-ne size i n hi hn (sym (h ∙ e)))) (
      slots-update size f v n ((i + 1) % size) p (omega arith) (omega arith)
        (e ∙ round_step size i n hi (omega arith)))

-- A stretch that is longer by one cell ends in that cell.
pub slots_snoc {ℓ} :
    {A : Type ℓ} (size : ℕ) (f : ℕ → A) (n i p : ℕ)
    → i < size
    → n < size
    → p ≡ (i + n) % size
    → slots size f i (suc n) ≡ slots size f i n ++ (f p ∷ [])
slots_snoc size f zero i p hi hn e =
    let same : p ≡ i = e ∙ ap (λ t. t % size) (omega arith) ∙ mod-eq_of_lt hi in
    ap (λ t. f t ∷ []) (sym same)
slots_snoc size f (suc n) i p hi hn e =
    ap (λ r. f i ∷ r)
      (slots_snoc size f n ((i + 1) % size) p (omega arith) (omega arith)
        (e ∙ round_step size i n hi (omega arith)))

-- What holds of each cell of a stretch holds of all its items.
pub slots-All {ℓ κ} :
    {A : Type ℓ} (P : A → Type κ) (size : ℕ) (f : ℕ → A) (n i : ℕ)
    → i < size
    → n ≤ size
    → ((k : ℕ) → k < n → P (f ((i + k) % size)))
    → All P (slots size f i n)
slots-All P size f zero i hi hn h = tt
slots-All P size f (suc n) i hi hn h = (
  subst (λ t. P (f t)) (ap (λ t. t % size) (omega arith) ∙ mod-eq_of_lt hi) (h 0 (omega arith)),
  slots-All P size f n ((i + 1) % size) (omega arith) (omega arith) (λ k lt.
      subst (λ t. P (f t)) (round_step size i k hi (omega arith)) (h (suc k) (omega arith))),
)
