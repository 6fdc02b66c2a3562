-- ===== src/Units/Time.antt =====
-- cppkg/units/time.cc and cppkg/units/time.h. A text is the list of its bytes. `print n d` is what
-- `cisab::fmts::sprintf`, which is not part of the repository, makes of the double `n / d` by
-- `%.5g`.
pub mod Choice
pub mod Value
use cppkg.Base.{
  ℕ, suc, ◌*◌, ◌/◌, ◌%◌, ◌^◌, List, [], ◌∷◌, ◌++◌, Option, none, some, Bool, if◌then◌else◌, leb,
  get_elem?, drop, ◌>>=◌,
}

-- A `TimeUnit` is its number.
abbrev pub nano : ℕ
nano = 0

abbrev pub micro : ℕ
micro = 1

abbrev pub milli : ℕ
milli = 2

abbrev pub one : ℕ
one = 5

abbrev pub time_unit_fmt : List (List ℕ)
time_unit_fmt =
    (110 ∷ 115 ∷ [])
    ∷ (206 ∷ 188 ∷ 115 ∷ [])
    ∷ (109 ∷ 115 ∷ [])
    ∷ (99 ∷ 115 ∷ [])
    ∷ (100 ∷ 115 ∷ [])
    ∷ (115 ∷ [])
    ∷ []

abbrev pub time_incr : List ℕ
time_incr = 1000 ∷ 1000 ∷ 10 ∷ 10 ∷ 10 ∷ []

-- The loop: `incrs` are the increments from `u` on. The result is `u` and `denom`.
unfoldable pub scale : ℕ → ℕ → ℕ → List ℕ → ℕ × ℕ
scale time denom u [] = (u, denom)
scale time denom u (incr ∷ incrs) =
    let rest = scale time (denom * incr % 2 ^ 64) (suc u) incrs in
    if leb incr (time / denom) then rest else (u, denom)

-- `d`, as a numerator and a denominator. The conversion to `unsigned` keeps 32 bits.
unfoldable pub value : ℕ → ℕ → ℕ × ℕ
value time denom = if leb 10000 denom then (time / (denom / 10000) % 2 ^ 32, 10000) else (time, 1)

-- `none` is a read outside `time_unit_fmt`.
unfoldable pub human_readable_time : (ℕ → ℕ → List ℕ) → ℕ → ℕ → Option (List ℕ)
unfolding scale value
human_readable_time print time unit =
    let scaled = scale time 1 unit (drop unit time_incr) in
    let d = value time scaled.1 in
    do name ← get_elem? time_unit_fmt scaled.0; some (print d.0 d.1 ++ name)
