-- ===== src/Prelude/Cycle.antt =====
-- Steps round a cycle of `n` ranks.
use Prim.Native.Nat.{ℕ, ◌+◌, ◌-◌, ◌%◌, ◌≤◌, ◌<◌}
use mathlib.Core.Path.{◌≡◌}
use mathlib.Core.Logic.{◌≢◌}
use native.Mathlib.Omega.{arith}
use native.Mathlib.Nat.{mod-eq_of_lt}

pub cycle_below : (n r s : ℕ) → r + s < n → (r + s) % n ≡ r + s
cycle_below n r s h = mod-eq_of_lt h

pub cycle_past : (n r s : ℕ) → r < n → s < n → n ≤ r + s → (r + s) % n ≡ r + s - n
cycle_past n r s hr hs h = grind arith

pub cycle-ne : (n r s : ℕ) → r < n → 1 ≤ s → s < n → (r + s) % n ≢ r
cycle-ne n r s hr lo hi = grind arith
