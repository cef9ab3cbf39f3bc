-- ===== src/Prelude/Decimal.antt =====
-- `str` of an integer, as f-strings print it.
use Prim.Native.Nat.{ℕ, zero, suc, ◌+◌, ◌/◌, ◌%◌, ◌≤◌}
use mathlib.Core.Path.{◌≡◌, refl}
use mathlib.Core.List.{[], ◌∷◌}
use native.Mathlib.Omega.{arith}
use ohmydb_proxy.Prelude.Tests.{if◌then◌else◌, ltb}
use ohmydb_proxy.Prelude.Lists.{All}
use ohmydb_proxy.Prelude.Slices.{Text, lit}

-- The digits of `n` in front of `tail`; a round is a division by ten.
unfoldable pub decimal_loop : ℕ → ℕ → Text → Text
decimal_loop zero n tail = tail
decimal_loop (suc fuel) n tail =
    let front : Text = (48 + n % 10) ∷ tail in
    let rest = decimal_loop fuel (n / 10) front in if ltb n 10 then front else rest

-- `n` has at most `n + 1` digits.
unfoldable pub decimal : ℕ → Text
unfolding decimal_loop
decimal n = decimal_loop (suc n) n []

abbrev pub IsDigit : ℕ → Type 0
IsDigit c = (48 ≤ c) × (c ≤ 57)

decimal_loop-IsDigit :
    (fuel n : ℕ) (tail : Text) → All IsDigit tail → All IsDigit (decimal_loop fuel n tail)
unfolding decimal_loop
decimal_loop-IsDigit zero n tail h = h
decimal_loop-IsDigit (suc fuel) n tail h = ground (
  arith,
  decimal_loop-IsDigit fuel (n / 10) ((48 + n % 10) ∷ tail) ((omega arith, omega arith), h),
)

pub decimal-IsDigit : (n : ℕ) → All IsDigit (decimal n)
unfolding decimal
decimal-IsDigit n = decimal_loop-IsDigit (suc n) n [] tt

decimal_runs : decimal 16777220 ≡ lit "16777220"
unfolding decimal lit
decimal_runs = refl
