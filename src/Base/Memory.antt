-- ===== src/Base/Memory.antt =====
-- Memory as a function of the address: what a pointer leads to is there for every address.
use Prim.Native.Nat.{ℕ}
use mathlib.Core.Path.{◌≡◌, fun_ext}
use mathlib.Core.Logic.{◌≢◌}
use native.Mathlib.Omega.{arith}
use shmily.Base.Tests.{◌==◌, if◌then◌else◌}

module _ {ℓ} {A : Type ℓ} where
  abbrev pub update : (ℕ → A) → ℕ → A → ℕ → A
  update f p v q = if q == p then v else f q

  pub update_self : (f : ℕ → A) (p : ℕ) (v : A) → update f p v p ≡ v
  update_self f p v = ground arith

  pub update_ne : (f : ℕ → A) (p q : ℕ) (v : A) → q ≢ p → update f p v q ≡ f q
  update_ne f p q v h = ground arith

  pub update_twice : (f : ℕ → A) (p : ℕ) (u v : A) → update (update f p u) p v ≡ update f p v
  update_twice f p u v = fun_ext (λ q. ground arith)
