-- ===== src/Base/Maps.antt =====
-- Maps from numbers, as functions; `none` is a missing key.
use Prim.Native.Nat.{ℕ}
use mathlib.Core.Path.{◌≡◌}
use mathlib.Core.Logic.{◌≢◌}
use mathlib.Core.Option.{Option}
use native.Mathlib.Omega.{arith}
use tcp_server.Base.Tests.{◌==◌, if◌then◌else◌}

module _ {ℓ} {A : Type ℓ} where
  abbrev pub update : (ℕ → Option A) → ℕ → Option A → ℕ → Option A
  update m k v j = if j == k then v else m j

  pub update_self : (m : ℕ → Option A) (k : ℕ) (v : Option A) → update m k v k ≡ v
  update_self m k v = ground arith

  pub update_ne : (m : ℕ → Option A) (k j : ℕ) (v : Option A) → j ≢ k → update m k v j ≡ m j
  update_ne m k j v h = ground arith
