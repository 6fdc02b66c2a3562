-- ===== src/Units/Time/Choice.antt =====
-- The unit in which a time is shown.
use cppkg.Base.{
  ℕ, zero, suc, ◌*◌, ◌≤◌, ◌<◌, ◌≡◌, ◌⊎◌, refl, arith, List, ◌++◌, some, get_elem?, drop,
}
use cppkg.Units.Time.{scale, value, time_incr, time_unit_fmt, one, human_readable_time}

-- How many nanoseconds a unit has.
abbrev pub nanos : ℕ → ℕ
nanos zero = 1
nanos (suc zero) = 1000
nanos (suc (suc zero)) = 1000000
nanos (suc (suc (suc zero))) = 10000000
nanos (suc (suc (suc (suc zero)))) = 100000000
nanos (suc (suc (suc (suc (suc u))))) = 1000000000

-- `r` is a unit and the number of given units in it: the largest unit of which there is at least
-- one, or the given unit.
abbrev pub Chosen : ℕ → ℕ → ℕ × ℕ → Type 0
Chosen time unit r =
    (unit ≤ r.0)
    × (r.0 ≤ one)
    × (nanos r.0 ≡ nanos unit * r.1)
    × ((r.0 ≡ unit) ⊎ (r.1 ≤ time))
    × ((r.0 ≡ one) ⊎ (time * nanos unit < nanos (suc r.0)))

-- The pair that the loop returns, for a given unit.
abbrev pub scaled : ℕ → ℕ → ℕ × ℕ
scaled time unit = scale time 1 unit (drop unit time_incr)

pub scaled-Chosen : (time unit : ℕ) → unit ≤ one → Chosen time unit (scaled time unit)
unfolding scale
scaled-Chosen time zero h = ground arith
scaled-Chosen time (suc zero) h = ground arith
scaled-Chosen time (suc (suc zero)) h = ground arith
scaled-Chosen time (suc (suc (suc zero))) h = ground arith
scaled-Chosen time (suc (suc (suc (suc zero)))) h = ground arith
scaled-Chosen time (suc (suc (suc (suc (suc zero))))) h = ground arith
scaled-Chosen time (suc (suc (suc (suc (suc (suc u)))))) h = ground (arith, h)

named : (u : ℕ) → u ≤ one → (name : List ℕ) × (get_elem? time_unit_fmt u ≡ some name)
named zero h = (_, refl)
named (suc zero) h = (_, refl)
named (suc (suc zero)) h = (_, refl)
named (suc (suc (suc zero))) h = (_, refl)
named (suc (suc (suc (suc zero)))) h = (_, refl)
named (suc (suc (suc (suc (suc zero))))) h = (_, refl)
named (suc (suc (suc (suc (suc (suc u)))))) h = ground (arith, h)

-- For each of the six units, the text of a time is a number and the name of a unit. This is the
-- largest unit of which the time has at least one, from the given unit on; if there is none, it is
-- the given unit. The number is computed from the time and the number of given units in that one.
pub human_readable_time-Chosen :
    (print : ℕ → ℕ → List ℕ) (time unit : ℕ)
    → unit ≤ one
    → (r : ℕ × ℕ) × (name : List ℕ) × Chosen time unit r
      × (get_elem? time_unit_fmt r.0 ≡ some name)
      × (human_readable_time print time unit
          ≡ some (print (value time r.1).0 (value time r.1).1 ++ name))
unfolding human_readable_time
human_readable_time-Chosen print time unit h =
    let chosen = scaled-Chosen time unit h in
    let (name, found) = named (scaled time unit).0 chosen.1 in
    (scaled time unit, name, chosen, found, rw found refl)
