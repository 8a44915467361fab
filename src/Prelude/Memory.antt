-- ===== src/Prelude/Memory.antt =====
-- Memory as a function from addresses to bytes or words, with its update.
use Prim.Native.Nat.{ℕ}
use mathlib.Core.Path.{◌≡◌, fun_ext}
use mathlib.Core.Logic.{◌≢◌}
use native.Mathlib.Omega.{arith}
use operating_systems_lab.Prelude.Tests.{◌==◌, if◌then◌else◌}

module _ {ℓ} {A : Type ℓ} where
  abbrev pub update : (ℕ → A) → ℕ → A → ℕ → A
  update f p v q = if p == q then v else f q

  pub update_self : (f : ℕ → A) (p : ℕ) (v : A) → update f p v p ≡ v
  update_self f p v = ground arith

  pub update_ne : (f : ℕ → A) (p : ℕ) (v : A) (q : ℕ) → p ≢ q → update f p v q ≡ f q
  update_ne f p v q h = ground arith

  pub update_same : (f : ℕ → A) (p : ℕ) (v : A) → f p ≡ v → update f p v ≡ f
  update_same f p v h = fun_ext λ q. ground arith
