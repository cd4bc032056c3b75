-- ===== src/Base/Words.antt =====
-- `u64` arithmetic as compiled for release: it wraps around, and a division by zero panics (`none`).
use Prim.Native.Nat.{ℕ, ◌+◌, ◌*◌, ◌/◌, ◌%◌, ◌^◌, ◌<◌, ◌≤◌}
use mathlib.Core.Path.{◌≡◌, refl}
use mathlib.Core.Bool.{Bool, true, false}
use mathlib.Core.Option.{Option, none, some}
use lighter_integration.Base.Tests.{◌==◌, if◌then◌else◌}
use native.Mathlib.Omega.{arith}
use native.Mathlib.Decide.{dec_lt}
use native.Mathlib.Nat.{mod-lt, div-add-mod}

abbrev pub wrap : ℕ → ℕ
wrap n = n % 2 ^ 64

pub wrap_small : (n : ℕ) → n < 2 ^ 64 → wrap n ≡ n
wrap_small n h = omega arith

-- `a.div_ceil(b)`
unfoldable pub div_ceil : ℕ → ℕ → Option ℕ
div_ceil a b = if b == 0 then none else some (if a % b == 0 then a / b else a / b + 1)

round_up :
    (a b q r : ℕ) (exact : Bool)
    → (r == 0) ≡ exact
    → b * q + r ≡ a
    → r < b
    → (a ≤ (if exact then q else q + 1) * b) × ((if exact then q else q + 1) * b < a + b)
round_up a b q r true z e l = let r_zero : r ≡ 0 = ground arith in (omega arith, omega arith)
round_up a b q r false z e l = let r_pos : 0 < r = ground arith in (omega arith, omega arith)

-- The least multiple of `b` that is at least `a`.
pub div_ceil_covers : (a b c : ℕ) → div_ceil a b ≡ some c → (a ≤ c * b) × (c * b < a + b)
unfolding div_ceil
div_ceil_covers a b c h = elim (dec_lt 0 b) [
  | no z ↦ absurd (ground arith)
  | yes nz ↦
      let is_c : (if a % b == 0 then a / b else a / b + 1) ≡ c = ground arith in
      rw (← is_c) (round_up a b (a / b) (a % b) (a % b == 0) refl (div-add-mod a b) (mod-lt a nz))
]
