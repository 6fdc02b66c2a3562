-- ===== src/Units/Memory.antt =====
-- cppkg/units/memory.h and cppkg/units/memory.cc. A text is the list of its bytes. `print n d` is what
-- `cisab::fmts::sprintf`, which is not part of the repository, makes of the double `n / d` by
-- `%.3g`.
use cppkg.Base.{
  ℕ, zero, suc, ◌*◌, ◌≤◌, ◌<◌, ◌≡◌, ◌⊎◌, refl, inl, inr, arith, List, [], ◌∷◌, ◌++◌, if◌then◌else◌,
  ltb, leb, Bool-cases,
}

abbrev pub mem_1kb : ℕ
mem_1kb = 1000

abbrev pub mem_1mb : ℕ
mem_1mb = 1000000

abbrev pub mem_1gb : ℕ
mem_1gb = 1000000000

-- The value, as a numerator and a denominator, and the unit.
unfoldable pub memory_unit : ℕ → (ℕ × ℕ) × List ℕ
memory_unit m =
    if ltb m mem_1kb
    then ((m, 1), b'B' ∷ b'y' ∷ b't' ∷ b'e' ∷ [])
    else if leb mem_1gb m
    then ((m, mem_1gb), b'G' ∷ b'B' ∷ [])
    else if leb mem_1mb m
    then ((m, mem_1mb), b'M' ∷ b'B' ∷ [])
    else ((m, mem_1kb), b'K' ∷ b'B' ∷ [])

unfoldable pub human_readable_memory : (ℕ → ℕ → List ℕ) → ℕ → List ℕ
unfolding memory_unit
human_readable_memory print m =
    let value = (memory_unit m).0 in print value.0 value.1 ++ b' ' ∷ (memory_unit m).1

-- The units from the smallest on: the name and the number of bytes of each.
abbrev pub unit_name : ℕ → List ℕ
unit_name zero = b'B' ∷ b'y' ∷ b't' ∷ b'e' ∷ []
unit_name (suc zero) = b'K' ∷ b'B' ∷ []
unit_name (suc (suc zero)) = b'M' ∷ b'B' ∷ []
unit_name (suc (suc (suc u))) = b'G' ∷ b'B' ∷ []

abbrev pub bytes : ℕ → ℕ
bytes zero = 1
bytes (suc u) = 1000 * bytes u

-- Is `u` the largest unit of which there is at least one, or the smallest unit?
abbrev pub Largest : ℕ → ℕ → Type 0
Largest m u = (u ≤ 3) × ((u ≡ 0) ⊎ (bytes u ≤ m)) × ((u ≡ 3) ⊎ (m < bytes (suc u)))

-- The unit that the code names is the largest of which the memory has at least one, or bytes, and
-- the number before it is the memory in that unit.
pub human_readable_memory-Largest :
    (print : ℕ → ℕ → List ℕ) (m : ℕ)
    → (u : ℕ) × Largest m u
      × (human_readable_memory print m ≡ print m (bytes u) ++ b' ' ∷ unit_name u)
unfolding human_readable_memory
human_readable_memory-Largest print m = elim (Bool-cases (ltb m mem_1kb)) [
  | inl small ↦ (0, ground (arith, small), rw small refl)
  | inr kb ↦ elim (Bool-cases (leb mem_1gb m)) [
    | inl large ↦ (3, ground (arith, large), rw (kb, large) refl)
    | inr below ↦ elim (Bool-cases (leb mem_1mb m)) [
      | inl mb ↦ (2, ground (arith, below, mb), rw (kb, below, mb) refl)
      | inr not_mb ↦ (1, ground (arith, kb, not_mb), rw (kb, below, not_mb) refl)
    ]
  ]
]
