-- ===== src/Prelude/Decimal.antt =====
-- `str(n)` of a natural number, and the two-digit format `{n:02d}`.
use Prim.Native.Nat.{ℕ, zero, suc, ◌/◌, ◌%◌}
use Prim.Native.String.{String, ◌++◌}
use mathlib.Core.Path.{◌≡◌, refl}
use fox_runner_server.Prelude.Tests.{ltb, ◌==◌, if◌then◌else◌}

abbrev digit : ℕ → String
digit n =
    if n == 0
    then "0"
    else if n == 1
    then "1"
    else if n == 2
    then "2"
    else if n == 3
    then "3"
    else if n == 4
    then "4"
    else if n == 5
    then "5"
    else if n == 6
    then "6"
    else if n == 7
    then "7"
    else if n == 8
    then "8"
    else "9"

show_fuel : ℕ → ℕ → String
show_fuel zero n = digit (n % 10)
show_fuel (suc f) n =
    let front = show_fuel f (n / 10) in if ltb n 10 then digit n else front ++ digit (n % 10)

-- A number has at most as many digits as its value, so the number itself is enough fuel.
unfoldable pub show : ℕ → String
unfolding show_fuel
show n = show_fuel n n

unfoldable pub two_digits : ℕ → String
unfolding show
two_digits n = if ltb n 10 then "0" ++ show n else show n

show_sample : show 1209 ≡ "1209"
unfolding show
show_sample = refl
