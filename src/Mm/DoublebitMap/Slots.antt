-- ===== src/Mm/DoublebitMap/Slots.antt =====
-- Reading back single slots.
use shmily.Base.{
  ℕ, ◌*◌, ◌/◌, ◌%◌, ◌^◌, ◌<◌, ◌≡◌, refl, sym, ap, ◌∙◌, true, Bool, ◌&&◌, arith, ◌==◌, ltb,
  if◌then◌else◌, mul32, update, update_self, update_ne, ==_iff, ==_ne, ==_refl, ℕ_discrete,
}
use shmily.Base.Bytes.{all_below, all_below_sound}
use shmily.Mm.DoublebitMap.{DoublebitMap, field, with_field, get_slot_status, set_slot_value}

-- Every byte of the memory is a byte.
abbrev pub IsValid : DoublebitMap → Type 0
IsValid m = (i : ℕ) → m.base i < 256

abbrev right_fields : ℕ → ℕ → ℕ → Bool
right_fields b i v =
    ltb (with_field b (2 * i) v) 256
    && all_below 4
        (λ j. field (with_field b (2 * i) v) (2 * j) == (if i == j then v else field b (2 * j)))

table : all_below 256 (λ b. all_below 4 (λ i. all_below 4 (right_fields b i))) ≡ true
unfolding all_below field with_field
table = refl

fields : (b i v : ℕ) → b < 256 → i < 4 → v < 4 → right_fields b i v ≡ true
fields b i v hb hi hv =
    let h1 =
      all_below_sound 256 (λ b. all_below 4 (λ i. all_below 4 (right_fields b i))) b table hb in
    let h2 = all_below_sound 4 (λ i. all_below 4 (right_fields b i)) i h1 hi in
    all_below_sound 4 (right_fields b i) v h2 hv

pub with_field-lt : (b i v : ℕ) → b < 256 → i < 4 → v < 4 → with_field b (2 * i) v < 256
with_field-lt b i v hb hi hv = ground (arith, fields b i v hb hi hv)

field-with_field :
    (b i v j : ℕ)
    → b < 256
    → i < 4
    → v < 4
    → j < 4
    → field (with_field b (2 * i) v) (2 * j) ≡ (if i == j then v else field b (2 * j))
field-with_field b i v j hb hi hv hj =
    let whole = fields b i v hb hi hv in
    let part : all_below 4
          (λ j. field (with_field b (2 * i) v) (2 * j) == (if i == j then v else field b (2 * j)))
        ≡ true =
      ground arith in
    (==_iff _ _).0 (
      all_below_sound 4
        (λ j. field (with_field b (2 * i) v) (2 * j) == (if i == j then v else field b (2 * j))) j
        part hj)

-- The slot's byte and its place there.
status_at :
    (idx : ℕ) (m : DoublebitMap)
    → idx < 2 ^ 31
    → get_slot_status idx m ≡ field (m.base (idx / 4)) (2 * (idx % 4))
unfolding get_slot_status
status_at idx m h =
    let a : mul32 idx 2 / 8 ≡ idx / 4 = omega arith in
    let b : mul32 idx 2 % 8 ≡ 2 * (idx % 4) = omega arith in rw (a, b) refl

value_at :
    (idx val : ℕ) (m : DoublebitMap)
    → idx < 2 ^ 31
    → set_slot_value idx val m ≡ record m {
      base = update m.base (idx / 4) (with_field (m.base (idx / 4)) (2 * (idx % 4)) val);
    }
unfolding set_slot_value
value_at idx val m h =
    let a : mul32 idx 2 / 8 ≡ idx / 4 = omega arith in
    let b : mul32 idx 2 % 8 ≡ 2 * (idx % 4) = omega arith in rw (a, b) refl

pub set_slot-IsValid :
    (idx val : ℕ) (m : DoublebitMap)
    → IsValid m
    → idx < 2 ^ 31
    → val < 4
    → IsValid (set_slot_value idx val m)
set_slot-IsValid idx val m v h hv i = rw (value_at idx val m h) (
    ground
      (arith, v i, with_field-lt (m.base (idx / 4)) (idx % 4) val (v (idx / 4)) (omega arith) hv))

same_place : (i j : ℕ) → j / 4 ≡ i / 4 → (i % 4 == j % 4) ≡ (i == j)
same_place i j e = elim (ℕ_discrete i j) [
  | yes y ↦ rw (y, ==_refl j, ==_refl (j % 4)) refl
  | no n ↦ rw (==_ne i j n, ==_ne (i % 4) (j % 4) (λ w. n (omega arith))) refl
]

-- After a slot below 2 ^ 31 is set to one of the four statuses it has that status, and every other
-- slot has the one it had.
pub slot_status-set :
    (idx val j : ℕ) (m : DoublebitMap)
    → IsValid m
    → idx < 2 ^ 31
    → val < 4
    → j < 2 ^ 31
    → get_slot_status j (set_slot_value idx val m) ≡ (if idx == j then val else get_slot_status j m)
slot_status-set idx val j m v h hv hj =
    rw (status_at j m hj, status_at j (set_slot_value idx val m) hj, value_at idx val m h)
      (elim (ℕ_discrete (j / 4) (idx / 4)) [
        | yes same ↦
            let place : (idx % 4 == j % 4) ≡ (idx == j) = same_place idx j same in
            rw (same, update_self m.base (idx / 4))
              (field-with_field (m.base (idx / 4)) (idx % 4) val (j % 4) (v (idx / 4)) (omega arith)
                  hv (omega arith)
                ∙ ap (λ b. if b then val else field (m.base (idx / 4)) (2 * (j % 4))) place)
        | no other ↦
            rw
              (
                update_ne m.base (idx / 4) (j / 4) _ other,
                ==_ne idx j (λ e. other (ap (λ x. x / 4) (sym e))),
              )
              refl
      ])
