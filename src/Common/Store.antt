-- ===== src/Common/Store.antt =====
-- A key-value store keyed by identifiers, which the program only compares.
use Prim.Native.Nat.{ℕ}
use mathlib.Core.Path.{◌≡◌}
use mathlib.Core.Logic.{◌≢◌}
use mathlib.Core.Option.{Option, none, some}
use native.Mathlib.Omega.{arith}
use iotaps.Common.Tests.{if◌then◌else◌, ◌==◌}

abbrev pub Store {ℓ} : Type ℓ → Type ℓ
Store V = ℕ → Option V

module _ {ℓ} {V : Type ℓ} where
  abbrev pub empty : Store V
  empty k = none

  -- `SET key value`
  unfoldable pub put : ℕ → V → Store V → Store V
  put k v s j = if j == k then some v else s j

  pub put_self : (k : ℕ) (v : V) (s : Store V) → put k v s k ≡ some v
  unfolding put
  put_self k v s = ground arith

  pub put_ne : (j k : ℕ) (v : V) (s : Store V) → j ≢ k → put k v s j ≡ s j
  unfolding put
  put_ne j k v s h = ground arith
