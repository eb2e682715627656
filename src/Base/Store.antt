-- ===== src/Base/Store.antt =====
-- Arrays as functions of the index, and the write of one cell.
use Prim.Native.Nat.{ℕ}
use mathlib.Core.Path.{◌≡◌}
use mathlib.Core.Logic.{◌≢◌}
use nano_trade.Base.Tests.{◌==◌, if◌then◌else◌, ==-self, ==-ne}

module _ {ℓ} {A : Type ℓ} where
  -- `f[i] = v`
  abbrev pub update : (ℕ → A) → ℕ → A → ℕ → A
  update f i v j = if j == i then v else f j

  pub update_self : (f : ℕ → A) (i : ℕ) (v : A) → update f i v i ≡ v
  update_self f i v = rw (==-self i)

  pub update-ne : (f : ℕ → A) (i : ℕ) (v : A) (j : ℕ) → j ≢ i → update f i v j ≡ f j
  update-ne f i v j h = rw (==-ne j i h)
