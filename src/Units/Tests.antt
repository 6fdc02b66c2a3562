-- ===== src/Units/Tests.antt =====
-- Runs of the choice of a unit, and the theorems about it.
use cppkg.Base.{ℕ, ◌*◌, ◌^◌, ◌≡◌, refl, arith, List, [], ◌∷◌, ◌++◌, some, get_elem?}
use cppkg.Units.Memory.{
  human_readable_memory, Largest, bytes, unit_name, human_readable_memory-Largest,
}
use cppkg.Units.Time.{scale, value, time_unit_fmt, micro, nano, human_readable_time}
use cppkg.Units.Time.Choice.{Chosen, scaled, human_readable_time-Chosen}
use cppkg.Units.Time.Value.{Rounded, value-Rounded}

-- Numerator and denominator stand for the number.
abbrev as_pair : ℕ → ℕ → List ℕ
as_pair n d = n ∷ d ∷ []

converted : human_readable_time as_pair 311244 micro ≡ some (31124 ∷ 10000 ∷ 100 ∷ 115 ∷ [])
unfolding human_readable_time
converted = refl

-- Five days are too many for 32 bits.
five_days : human_readable_time as_pair (2 ^ 32 * 100000) nano ≡ some (0 ∷ 10000 ∷ 115 ∷ [])
unfolding human_readable_time
five_days = refl

human_readable_time-Chosen_example :
    (r : ℕ × ℕ) × (name : List ℕ) × Chosen 311244 micro r
    × (get_elem? time_unit_fmt r.0 ≡ some name)
    × (human_readable_time as_pair 311244 micro
        ≡ some (as_pair (value 311244 r.1).0 (value 311244 r.1).1 ++ name))
human_readable_time-Chosen_example = human_readable_time-Chosen as_pair 311244 micro (omega arith)

value-Rounded_example :
    Rounded 311244 (scaled 311244 micro).1 (value 311244 (scaled 311244 micro).1)
unfolding scale
value-Rounded_example = value-Rounded 311244 micro (omega arith) (omega arith) (omega arith)

human_readable_memory-Largest_example :
    (u : ℕ) × Largest 311244 u
    × (human_readable_memory as_pair 311244 ≡ as_pair 311244 (bytes u) ++ b' ' ∷ unit_name u)
human_readable_memory-Largest_example = human_readable_memory-Largest as_pair 311244

-- 1500 nanoseconds are shown as 1500 microseconds.
too_small : human_readable_time as_pair 1500 nano ≡ some (1500 ∷ 1 ∷ 206 ∷ 188 ∷ 115 ∷ [])
unfolding human_readable_time
too_small = refl
