-- ===== src/Units/Time/Value.antt =====
-- The number that is shown of a time.
use cppkg.Base.{ℕ, zero, suc, ◌+◌, ◌*◌, ◌/◌, ◌^◌, ◌≤◌, ◌<◌, ◌≡◌, arith}
use cppkg.Units.Time.{scale, value, one}
use cppkg.Units.Time.Choice.{scaled}

-- `n` ten thousandths are the quotient of `time` and `denom`, rounded down.
abbrev pub Rounded : ℕ → ℕ → ℕ × ℕ → Type 0
Rounded time denom d =
    (d.1 ≡ 10000) × (d.0 * denom ≤ time * 10000) × (time * 10000 < (d.0 + 1) * denom)

-- If the chosen unit has at least 10000 of the given ones, and less than 2 ^ 32 ten thousandths of
-- it are in the time, then the number shown is the time in that unit, rounded down to ten
-- thousandths.
pub value-Rounded :
    (time unit : ℕ)
    → unit ≤ one
    → 10000 ≤ (scaled time unit).1
    → time < 2 ^ 32 * ((scaled time unit).1 / 10000)
    → Rounded time (scaled time unit).1 (value time (scaled time unit).1)
unfolding scale value
value-Rounded time zero h large small = ground (arith, large, small)
value-Rounded time (suc zero) h large small = ground (arith, large, small)
value-Rounded time (suc (suc zero)) h large small = ground (arith, large, small)
value-Rounded time (suc (suc (suc zero))) h large small = ground (arith, large, small)
value-Rounded time (suc (suc (suc (suc zero)))) h large small = ground (arith, large, small)
value-Rounded time (suc (suc (suc (suc (suc zero))))) h large small = ground (arith, large, small)
value-Rounded time (suc (suc (suc (suc (suc (suc u)))))) h large small = ground (arith, h)
