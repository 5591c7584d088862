-- ===== src/Prelude/Cyclic.antt =====
-- Remainders as places on a ring of `n`.
use Prim.Native.Nat.{ℕ, suc, ◌+◌, ◌*◌, ◌/◌, ◌%◌, ◌≤◌, ◌<◌}
use mathlib.Core.Path.{◌≡◌}
use mathlib.Core.Logic.{◌≢◌}
use native.Mathlib.Omega.{arith}
use native.Mathlib.Nat.{mod-add-div, add-mod_right, mod-add-mod, mul-le-mul_left, mul-suc}
use native.Mathlib.Decide.{dec_lt}

mul_step : (n p q : ℕ) → p < q → n * p + n ≤ n * q
mul_step n p q h = omega (arith, mul-suc n p, mul-le-mul_left {m = suc p} {n = q} n (omega arith))

-- Two counts less than a round apart stand at different places.
pub apart : (a b n : ℕ) → a < b → b < a + n → a % n ≢ b % n
apart a b n h l e = elim (dec_lt (a / n) (b / n)) [
  | yes p ↦ omega (arith, mod-add-div a n, mod-add-div b n, mul_step n (a / n) (b / n) p, e)
  | no p ↦ omega (
    arith,
    mod-add-div a n,
    mod-add-div b n,
    mul-le-mul_left {m = b / n} {n = a / n} n (omega arith),
    e,
  )
]

pub next_place : (a n : ℕ) → (a % n + 1) % n ≡ (a + 1) % n
next_place a n = mod-add-mod a n 1

pub full_round : (a n : ℕ) → (a + n) % n ≡ a % n
full_round a n = add-mod_right a n
