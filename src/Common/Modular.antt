-- ===== src/Common/Modular.antt =====
-- Places in a ring of `n`.
use Prim.Native.Nat.{ℕ, ◌+◌, ◌-◌, ◌%◌, ◌<◌}
use mathlib.Core.Path.{◌∙◌, sym, ap}
use mathlib.Core.Logic.{◌≢◌}
use native.Mathlib.Decide.{dec_lt}
use native.Mathlib.Nat.{mod-eq_of_lt, mod-eq-sub-mod, mod-lt, mod-add-mod}
use native.Mathlib.Omega.{arith}

-- Fewer than `n` steps round the ring do not come back to the start.
around-ne : (n r d : ℕ) → r < n → 0 < d → d < n → (r + d) % n ≢ r
around-ne n r d hr hd hn e = elim (dec_lt (r + d) n) [
  | yes p ↦ omega (arith, mod-eq_of_lt p)
  | no p ↦ omega (
    arith,
    mod-eq-sub-mod {n = r + d} {m = n} (omega arith),
    mod-eq_of_lt {n = r + d - n} {m = n} (omega arith),
  )
]

-- different residues within `n` steps
pub mod-ne : (n i k : ℕ) → i < k → k < i + n → i % n ≢ k % n
mod-ne n i k h l e =
    around-ne n (i % n) (k - i) (mod-lt i (omega arith)) (omega arith) (omega arith)
      (mod-add-mod i n (k - i) ∙ ap (λ (j : ℕ). j % n) (omega arith) ∙ sym e)
