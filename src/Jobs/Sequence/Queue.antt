-- ===== src/Jobs/Sequence/Queue.antt =====
-- A queue of jobs, one of which is called at a time, and what a sequence is as such a queue.
use cppkg.Base.{
  ℕ, ◌+◌, ◌≡◌, refl, arith, List, [], ◌∷◌, ◌++◌, Option, none, some, Bool, true, false, ◌||◌, ◌&&◌,
  ◌==◌, if◌then◌else◌, ◌>>=◌, inl, inr, Option-cases,
}
use cppkg.Jobs.Sequence.{
  Sequence, Effect, Master, attached, began, cleared, called, notified, master_place,
}

-- A queue, the job that is being called and the number of its next call, and whether it was told
-- to stop.
pub record Queue : Type 0 where
  pub waiting : List ℕ
  pub current : Option (ℕ × ℕ)
  pub told : Bool

-- Only the first job of the queue begins, and only while no other one is called. Its calls count
-- from 0, and go on until it is done, or, after the queue was told to stop, until the next one.
unfoldable pub spec_begin : ℕ → List ℕ → Option (ℕ × ℕ) → Bool → Option Queue
spec_begin t (t' ∷ ts) none told =
    if t == t' then some (record { waiting = ts; current = some (t, 0); told = told }) else none
spec_begin t [] none told = none
spec_begin t ts (some c) told = none

unfoldable pub spec_call : ℕ → ℕ → Bool → Option (ℕ × ℕ) → Queue → Option Queue
spec_call t i done none q = none
spec_call t i done (some c) q =
    if t == c.0 && i == c.1
    then some (record q { current = if done || q.told then none else some (t, i + 1) })
    else none

unfoldable pub spec_step : Effect → Queue → Option Queue
unfolding spec_begin spec_call
spec_step (attached t) q = some (record q { waiting = q.waiting ++ t ∷ [] })
spec_step (began t) q = spec_begin t q.waiting q.current q.told
spec_step cleared q = some (record q { waiting = []; told = true })
spec_step (called t i done) q = spec_call t i done q.current q

unfoldable pub spec_run : List Effect → Queue → Option Queue
unfolding spec_step
spec_run [] q = some q
spec_run (e ∷ log) q = spec_step e q >>= spec_run log

abbrev pub task : Master → Option (ℕ × ℕ)
task Master.checking = none
task Master.asleep = none
task Master.returned = none
task Master.gone = none
task (Master.running t i) = some (t, i)

-- What a sequence is to those who only see its effects.
abbrev pub view : Sequence → Queue
view s = record { waiting = s.tasks; current = task s.master; told = s.stop_signal }

pub spec_run-append :
    (a b : List Effect) (q : Queue) → spec_run (a ++ b) q ≡ (spec_run a q >>= spec_run b)
unfolding spec_run
spec_run-append [] b q = refl
spec_run-append (e ∷ a) b q = elim (Option-cases (spec_step e q)) [
  | inl failed ↦ rw failed refl
  | inr (q', worked) ↦ rw worked (spec_run-append a b q')
]

pub task-notified : (m : Master) → task (notified m) ≡ task m
task-notified Master.checking = refl
task-notified Master.asleep = refl
task-notified Master.returned = refl
task-notified Master.gone = refl
task-notified (Master.running t i) = refl

pub task-none :
    (m d : Master) → (master_place m == master_place d) ≡ true → task d ≡ none → task m ≡ none
task-none Master.checking d h e = refl
task-none Master.asleep d h e = refl
task-none Master.returned d h e = refl
task-none Master.gone d h e = refl
task-none (Master.running t i) Master.checking h e = ground (arith, h)
task-none (Master.running t i) Master.asleep h e = ground (arith, h)
task-none (Master.running t i) Master.returned h e = ground (arith, h)
task-none (Master.running t i) Master.gone h e = ground (arith, h)
task-none (Master.running t i) (Master.running t' i') h e = cc

pub repeat_idle : (exit : Bool) → task (if exit then Master.gone else Master.checking) ≡ none
repeat_idle true = refl
repeat_idle false = refl
