-- ===== src/Jobs/ManagedJob.antt =====
-- cppkg/jobs/managed_job.h: a thread that repeats a job until it is told to stop. The promise, the
-- future and the thread are the standard library's; the model says what their documentation says.
pub mod Ends
use cppkg.Base.{ℕ, suc, Option, none, some, Bool, true, false, not, ◌&&◌, if◌then◌else◌}

-- What an operation can come to: it returns, throws an `std::future_error`, ends the program by
-- `std::terminate`, or waits for a thread that nothing tells to stop.
pub data Outcome {ℓ} (A : Type ℓ) : Type ℓ where
  returns : A → Outcome A
  throws terminates waits : Outcome A

infixl 5 ◌>>=◌
abbrev pub ◌>>=◌ {ℓ κ} : {A : Type ℓ} {B : Type κ} → Outcome A → (A → Outcome B) → Outcome B
returns a >>= f = f a
throws >>= f = throws
terminates >>= f = terminates
waits >>= f = waits

-- The state that a promise shares with its future: whether `get_future` and `set_value` have been
-- called.
pub record Shared : Type 0 where
  pub retrieved : Bool
  pub satisfied : Bool

-- `exit_signal_` is `none` when it has been moved from. `valid` is `exit_future_.valid()`; the
-- future is that of the promise. `joinable` is `job_.joinable()`.
pub record ManagedJob : Type 0 where
  pub exit_signal : Option Shared
  pub valid : Bool
  pub joinable : Bool

-- `std::promise::get_future`: what the promise is then.
unfoldable pub get_future : Option Shared → Outcome (Option Shared)
get_future none = throws
get_future (some s) = if s.retrieved then throws else returns (some (record s { retrieved = true }))

-- `std::promise::set_value`
unfoldable pub set_value : Option Shared → Outcome (Option Shared)
set_value none = throws
set_value (some s) = if s.satisfied then throws else returns (some (record s { satisfied = true }))

abbrev pub promise : Option Shared
promise = some (record { retrieved = false; satisfied = false })

-- `ManagedJob (void)`
unfoldable pub create : Outcome ManagedJob
unfolding get_future
create = do
  signal ← get_future promise
  returns (record { exit_signal = signal; valid = true; joinable = false })

-- `ManagedJob (FN&& job, ARGS&&... args)`
unfoldable pub start : Outcome ManagedJob
unfolding get_future
start = do
  signal ← get_future promise
  returns (record { exit_signal = signal; valid = true; joinable = true })

-- Is the thread told to stop? It runs the job once, and again until then.
abbrev pub is_stopped : ManagedJob → Bool
is_stopped j = elim j.exit_signal [ none ↦ false | some s ↦ s.satisfied ]

unfoldable pub join : ManagedJob → Outcome ManagedJob
join j =
    if j.joinable
    then if is_stopped j then returns (record j { joinable = false }) else waits
    else returns j

unfoldable pub stop : ManagedJob → Outcome ManagedJob
unfolding set_value
stop j =
    let signalled : Outcome ManagedJob = (do
      signal ← set_value j.exit_signal
      returns (record j { exit_signal = signal })) in
    if j.joinable then signalled else returns j

-- An exception that leaves a destructor ends the program.
abbrev pub in_destructor {ℓ} : {A : Type ℓ} → Outcome A → Outcome A
in_destructor (returns a) = returns a
in_destructor throws = terminates
in_destructor terminates = terminates
in_destructor waits = waits

-- `~ManagedJob`, with its members; the destructor of a joinable thread ends the program.
unfoldable pub destroy : ManagedJob → Outcome (Unit {0})
unfolding set_value join
destroy j = in_destructor (do
  signal ← (if j.joinable && j.valid then set_value j.exit_signal else returns j.exit_signal)
  joined ← join (record j { exit_signal = signal })
  if joined.joinable then terminates else returns tt)

-- `ManagedJob (ManagedJob&& other)`: the new job. If `get_future` throws, the members of the new
-- job are destroyed, its thread among them.
unfoldable pub move_construct : ManagedJob → Outcome ManagedJob
unfolding get_future
move_construct other = elim (get_future other.exit_signal) [
  | returns signal ↦
      returns (record { exit_signal = signal; valid = true; joinable = other.joinable })
  | throws ↦ if other.joinable then terminates else throws
  | terminates ↦ terminates
  | waits ↦ waits
]

abbrev pub moved_from : ManagedJob
moved_from = record { exit_signal = none; valid = false; joinable = false }

-- `operator = (ManagedJob&& other)`, for another object: this job and the other one. A thread that
-- is still joinable must not be assigned to.
unfoldable pub move_assign : ManagedJob → ManagedJob → Outcome (ManagedJob × ManagedJob)
unfolding set_value
move_assign this other = do
  joinable ←
      (if this.joinable && this.valid
        then set_value this.exit_signal >>= (λ _. returns false)
        else returns this.joinable)
  if joinable then terminates else returns (other, moved_from)
