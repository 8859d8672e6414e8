-- ===== src/Base/Lists.antt =====
-- Lists measured and indexed by native numbers, under the library's names.
use Prim.Native.Nat.{ℕ, zero, suc, ◌+◌, ◌<◌}
use mathlib.Core.Path.{◌≡◌, refl, sym, ap}
use mathlib.Core.Logic.{◌≢◌}
use mathlib.Core.List.{List, [], ◌∷◌, ◌++◌}
use native.Mathlib.Omega.{arith}

module _ {ℓ} {A : Type ℓ} where
  abbrev pub length : List A → ℕ
  length [] = 0
  length (x ∷ xs) = suc (length xs)

  abbrev pub get_or : List A → ℕ → A → A
  get_or [] i d = d
  get_or (x ∷ xs) zero d = x
  get_or (x ∷ xs) (suc i) d = get_or xs i d

  -- A write out of bounds changes nothing.
  abbrev pub set : List A → ℕ → A → List A
  set [] i v = []
  set (x ∷ xs) zero v = v ∷ xs
  set (x ∷ xs) (suc i) v = x ∷ set xs i v

  abbrev pub replicate : ℕ → A → List A
  replicate zero a = []
  replicate (suc n) a = a ∷ replicate n a

  pub length-append : (xs ys : List A) → length (xs ++ ys) ≡ length xs + length ys
  length-append [] ys = omega arith
  length-append (x ∷ xs) ys = omega (arith, length-append xs ys)

  pub length-set : (xs : List A) (i : ℕ) (v : A) → length (set xs i v) ≡ length xs
  length-set [] i v = refl
  length-set (x ∷ xs) zero v = refl
  length-set (x ∷ xs) (suc i) v = ap suc (length-set xs i v)

  pub get_or-set_self :
      (xs : List A) (i : ℕ) (v d : A) → i < length xs → get_or (set xs i v) i d ≡ v
  get_or-set_self [] i v d h = absurd (omega arith)
  get_or-set_self (x ∷ xs) zero v d h = refl
  get_or-set_self (x ∷ xs) (suc i) v d h = get_or-set_self xs i v d (omega arith)

  pub get_or-set_ne :
      (xs : List A) {i j : ℕ} (v d : A) → i ≢ j → get_or (set xs i v) j d ≡ get_or xs j d
  get_or-set_ne [] v d h = refl
  get_or-set_ne (x ∷ xs) {i = zero} {j = zero} v d h = absurd (h refl)
  get_or-set_ne (x ∷ xs) {i = zero} {j = suc j} v d h = refl
  get_or-set_ne (x ∷ xs) {i = suc i} {j = zero} v d h = refl
  get_or-set_ne (x ∷ xs) {i = suc i} {j = suc j} v d h = get_or-set_ne xs v d (λ e. h (ap suc e))

-- A predicate that holds of every item.
abbrev pub All {ℓ κ} : {Item : Type ℓ} → (Item → Type κ) → List Item → Type κ
All Holds [] = Unit
All Holds (item ∷ rest) = Holds item × All Holds rest

module _ {ℓ} {A : Type ℓ} where
  pub All-append {κ} : (P : A → Type κ) (xs ys : List A) → All P xs → All P ys → All P (xs ++ ys)
  All-append P [] ys front back = back
  All-append P (x ∷ xs) ys front back = (front.0, All-append P xs ys front.1 back)

  pub All-append_left {κ} : (P : A → Type κ) (xs ys : List A) → All P (xs ++ ys) → All P xs
  All-append_left P [] ys h = tt
  All-append_left P (x ∷ xs) ys h = (h.0, All-append_left P xs ys h.1)

  pub All-append_right {κ} : (P : A → Type κ) (xs ys : List A) → All P (xs ++ ys) → All P ys
  All-append_right P [] ys h = h
  All-append_right P (x ∷ xs) ys h = All-append_right P xs ys h.1

  pub All-imp {κ μ} :
      (P : A → Type κ) (Q : A → Type μ) (xs : List A) → ((x : A) → P x → Q x) → All P xs → All Q xs
  All-imp P Q [] f h = tt
  All-imp P Q (x ∷ xs) f h = (f x h.0, All-imp P Q xs f h.1)

  pub All-imp₂ {κ μ ν} :
      (P : A → Type κ) (R : A → Type ν) (Q : A → Type μ) (xs : List A)
      → ((x : A) → P x → R x → Q x)
      → All P xs
      → All R xs
      → All Q xs
  All-imp₂ P R Q [] f h k = tt
  All-imp₂ P R Q (x ∷ xs) f h k = (f x h.0 k.0, All-imp₂ P R Q xs f h.1 k.1)

  -- No two items are the same.
  abbrev pub Distinct : List A → Type ℓ
  Distinct [] = Unit
  Distinct (x ∷ xs) = All (λ y. y ≢ x) xs × Distinct xs

  pub Distinct-insert :
      (e : A) (xs ys : List A)
      → Distinct (xs ++ ys)
      → All (λ y. y ≢ e) (xs ++ ys)
      → Distinct (xs ++ e ∷ ys)
  Distinct-insert e [] ys d h = (h, d)
  Distinct-insert e (x ∷ xs) ys d h = (
    All-append _ xs (e ∷ ys) (All-append_left _ xs ys d.0)
        (λ q. h.0 (sym q), All-append_right _ xs ys d.0),
    Distinct-insert e xs ys d.1 h.1,
  )

  pub Distinct-delete :
      (e : A) (xs ys : List A)
      → Distinct (xs ++ e ∷ ys)
      → Distinct (xs ++ ys) × All (λ y. y ≢ e) (xs ++ ys)
  Distinct-delete e [] ys d = (d.1, d.0)
  Distinct-delete e (x ∷ xs) ys d =
      let rest = Distinct-delete e xs ys d.1 in
      let apart = All-append_right _ xs (e ∷ ys) d.0 in
      (
        (All-append _ xs ys (All-append_left _ xs (e ∷ ys) d.0) apart.1, rest.0),
        (λ q. apart.0 (sym q), rest.1),
      )

  pub Distinct-append_right : (xs ys : List A) → Distinct (xs ++ ys) → Distinct ys
  Distinct-append_right [] ys d = d
  Distinct-append_right (x ∷ xs) ys d = Distinct-append_right xs ys d.1

  -- A list that is not empty, from its end.
  pub split_last : (x : A) (xs : List A) → (us : List A) × (z : A) × (x ∷ xs ≡ us ++ z ∷ [])
  split_last x [] = ([], x, refl)
  split_last x (y ∷ xs) = let (us, z, e) = split_last y xs in (x ∷ us, z, ap (λ t. x ∷ t) e)
