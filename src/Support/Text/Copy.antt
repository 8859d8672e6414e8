-- ===== src/Support/Text/Copy.antt =====
-- What the copying loops write, and what they leave alone.
use shmily.Base.{
  ℕ, zero, suc, ◌+◌, ◌≤◌, ◌<◌, ◌≡◌, refl, sym, ap, ◌∙◌, ◌⊎◌, inl, inr, ◌↔◌, List, [], ◌∷◌, some,
  arith, length, ◌==◌, if◌then◌else◌, update, update_self, update_ne, ==_iff, ==_ne, false, dec_lt,
  leb, ltb, ◌&&◌, Bool-cases,
}
use shmily.Support.Text.{memcpy, memset, strcpy, IsString}

-- The addresses from `p` to before `p + n`.
abbrev pub Within : ℕ → ℕ → ℕ → Type 0
Within p n a = (p ≤ a) × (a < p + n)

memset-Within :
    (dst val cnt : ℕ) (m : ℕ → ℕ) (a : ℕ)
    → (Within dst cnt a → memset dst val cnt m a ≡ val)
      × (¬ Within dst cnt a → memset dst val cnt m a ≡ m a)
unfolding memset
memset-Within dst val zero m a = (λ h. absurd (omega arith), λ h. refl)
memset-Within dst val (suc cnt) m a =
    let rest = memset-Within (dst + 1) val cnt (update m dst val) a in
    elim (dec_lt dst a) [
      | yes lt ↦ (
        λ h. rest.0 (omega arith),
        λ h. rest.1 (λ w. h (omega arith)) ∙ update_ne m dst a val (omega arith),
      )
      | no ge ↦ (
        λ h.
            let e : a ≡ dst = omega arith in
            rest.1 (λ w. absurd (omega arith)) ∙ ap (update m dst val) e ∙ update_self m dst val,
        λ h. rest.1 (λ w. absurd (omega arith)) ∙ update_ne m dst a val (λ e. h (omega arith)),
      )
    ]

-- After `memset` each of the `cnt` bytes from `dst` on is `val`, and every other byte is as it was.
pub memset_lem :
    (dst val cnt : ℕ) (m : ℕ → ℕ) (a : ℕ)
    → memset dst val cnt m a ≡ (if leb dst a && ltb a (dst + cnt) then val else m a)
memset_lem dst val cnt m a =
    let h = memset-Within dst val cnt m a in
    elim (Bool-cases (leb dst a && ltb a (dst + cnt))) [
      | inl inside ↦ rw inside (h.0 (ground arith))
      | inr outside ↦ rw outside (h.1 (λ w. ground arith))
    ]

memcpy_outside :
    (dst src cnt : ℕ) (m : ℕ → ℕ) (a : ℕ) → ¬ Within dst cnt a → memcpy dst src cnt m a ≡ m a
unfolding memcpy
memcpy_outside dst src zero m a h = refl
memcpy_outside dst src (suc cnt) m a h =
    memcpy_outside (dst + 1) (src + 1) cnt (update m dst (m src)) a (λ w. h (omega arith))
    ∙ update_ne m dst a (m src) (λ e. h (omega arith))

-- The target does not start inside the source behind its first byte.
abbrev pub Forward : ℕ → ℕ → ℕ → Type 0
Forward dst src n = (dst ≤ src) ⊎ (src + n ≤ dst)

memcpy_inside :
    (dst src cnt : ℕ) (m : ℕ → ℕ) (i : ℕ)
    → Forward dst src cnt
    → i < cnt
    → memcpy dst src cnt m (dst + i) ≡ m (src + i)
unfolding memcpy
memcpy_inside dst src zero m i f h = absurd (omega arith)
memcpy_inside dst src (suc cnt) m zero f h =
    memcpy_outside (dst + 1) (src + 1) cnt (update m dst (m src)) (dst + 0) (λ w. omega arith)
    ∙ ap (update m dst (m src)) (omega arith)
    ∙ update_self m dst (m src)
    ∙ ap m (omega arith)
memcpy_inside dst src (suc cnt) m (suc i) f h =
    ap (memcpy (dst + 1) (src + 1) cnt (update m dst (m src))) (omega arith)
    ∙ memcpy_inside (dst + 1) (src + 1) cnt (update m dst (m src)) i (omega arith) (omega arith)
    ∙ update_ne m dst (src + 1 + i) (m src) (λ e. omega arith)
    ∙ ap m (omega arith)

-- What a copy of `cnt` bytes from `src` to `dst` is.
pub record Copied (dst src cnt : ℕ) (m w : ℕ → ℕ) : Type 0 where
  pub inside : (i : ℕ) → i < cnt → w (dst + i) ≡ m (src + i)
  pub outside : (a : ℕ) → ¬ Within dst cnt a → w a ≡ m a

-- `memcpy` moves the `cnt` bytes from `src` on to `dst` and writes nowhere else, if the target
-- does not start inside the source behind its first byte.
pub memcpy-Copied :
    (dst src cnt : ℕ) (m : ℕ → ℕ)
    → Forward dst src cnt
    → Copied dst src cnt m (memcpy dst src cnt m)
memcpy-Copied dst src cnt m f = record {
  inside = λ i h. memcpy_inside dst src cnt m i f h;
  outside = memcpy_outside dst src cnt m;
}

-- A text that is moved, with what stands behind it.
pub IsString-move :
    (m w : ℕ → ℕ) (p q : ℕ) (cs : List ℕ)
    → IsString m p cs
    → ((i : ℕ) → i < length cs → w (q + i) ≡ m (p + i))
    → w (q + length cs) ≡ 0
    → IsString w q cs
IsString-move m w p q [] s h z = ap w (omega arith) ∙ z
IsString-move m w p q (c ∷ cs) s h z = (
  ap w (omega arith) ∙ h 0 (omega arith) ∙ ap m (omega arith) ∙ s.0,
  s.1,
  IsString-move m w (p + 1) (q + 1) cs s.2
      (λ i lt. ap w (omega arith) ∙ h (suc i) (omega arith) ∙ ap m (omega arith))
      (ap w (omega arith) ∙ z),
)

pub IsString-end : (m : ℕ → ℕ) (p : ℕ) (cs : List ℕ) → IsString m p cs → m (p + length cs) ≡ 0
IsString-end m p [] s = ap m (omega arith) ∙ s
IsString-end m p (c ∷ cs) s = ap m (omega arith) ∙ IsString-end m (p + 1) cs s.2

IsString-update :
    (m : ℕ → ℕ) (p a v : ℕ) (cs : List ℕ)
    → IsString m p cs
    → (a < p) ⊎ (p + length cs < a)
    → IsString (update m a v) p cs
IsString-update m p a v [] s h = update_ne m a p v (λ e. omega arith) ∙ s
IsString-update m p a v (c ∷ cs) s h = (
  update_ne m a p v (λ e. omega arith) ∙ s.0,
  s.1,
  IsString-update m (p + 1) a v cs s.2 (omega arith),
)

-- `strcpy` is a `memcpy` of the bytes before the NUL.
strcpy-memcpy :
    (fuel dst src : ℕ) (m : ℕ → ℕ) (cs : List ℕ)
    → IsString m src cs
    → length cs < fuel
    → Forward dst src (suc (length cs))
    → strcpy fuel dst src m ≡ some (memcpy dst src (length cs) m)
unfolding strcpy memcpy
strcpy-memcpy zero dst src m cs s f h = absurd (omega arith)
strcpy-memcpy (suc k) dst src m [] s f h = rw ((==_iff (m src) 0).1 s)
strcpy-memcpy (suc k) dst src m (c ∷ cs) s f h =
    let ne : (m src == 0) ≡ false = ==_ne (m src) 0 (λ e. s.1 (sym s.0 ∙ e)) in
    rw ne (
      strcpy-memcpy k (dst + 1) (src + 1) (update m dst (m src)) cs
        (IsString-update m (src + 1) dst (m src) cs s.2 (omega arith)) (omega arith) (omega arith))

-- `strcpy` copies the bytes of the text and not its NUL: what it leaves at the target is that text
-- exactly if a NUL stood already where the text ends.
pub strcpy-Copied :
    (fuel dst src : ℕ) (m : ℕ → ℕ) (cs : List ℕ)
    → IsString m src cs
    → length cs < fuel
    → Forward dst src (suc (length cs))
    → (w : ℕ → ℕ) × (strcpy fuel dst src m ≡ some w)
      × Copied dst src (length cs) m w
      × (IsString w dst cs ↔ (m (dst + length cs) ≡ 0))
strcpy-Copied fuel dst src m cs s f h =
    let w = memcpy dst src (length cs) m in
    let c : Copied dst src (length cs) m w = memcpy-Copied dst src (length cs) m (omega arith) in
    let behind : w (dst + length cs) ≡ m (dst + length cs) =
      c.outside (dst + length cs) (λ k. omega arith) in
    (
      w,
      strcpy-memcpy fuel dst src m cs s f h,
      c,
      (
        λ t. sym behind ∙ IsString-end w dst cs t,
        λ z. IsString-move m w src dst cs s c.inside (behind ∙ z),
      ),
    )
