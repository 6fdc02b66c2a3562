-- ===== src/Jobs/Sequence/Ends.antt =====
-- How the destruction of a sequence ends.
use cppkg.Base.{
  ℕ, ◌≡◌, ◌⊎◌, refl, arith, List, [], ◌∷◌, none, some, Bool, true, false, ◌==◌, inl, inr,
}
use cppkg.Jobs.Sequence
use cppkg.Jobs.Sequence.{
  Last, joins, Sequence, Event, Effect, Master, Client, check_tasks, call_job, step, created,
  master_at, client_at, master_place, client_place,
}
use cppkg.Jobs.Sequence.Told.{Told, Told-at, run-IsTold, client_place_inj}

abbrev state : List ℕ → Bool → Bool → Bool → Last → Master → Client → Sequence
state ts stop exit stopped last m c = record {
  tasks = ts;
  stop_signal = stop;
  exit_signal = exit;
  stopped = stopped;
  last = last;
  master = m;
  client = c;
}

-- The client waits for a master that sleeps.
only_wake :
    (e : Event) (ts : List ℕ) (stop exit stopped : Bool) (last : Last)
    → (e ≡ Event.wake)
      ⊎ (step e (state ts stop exit stopped last Master.asleep Client.joining) ≡ none)
unfolding step
only_wake (Event.attach t) ts stop exit stopped last = inr refl
only_wake Event.notify ts stop exit stopped last = inr refl
only_wake Event.stop ts stop exit stopped last = inr refl
only_wake Event.join ts stop exit stopped last = inr refl
only_wake Event.close ts stop exit stopped last = inr refl
only_wake Event.close_stop ts stop exit stopped last = inr refl
only_wake Event.close_exit ts stop exit stopped last = inr refl
only_wake Event.close_join ts stop exit stopped last = inr refl
only_wake Event.check ts stop exit stopped last = inr refl
only_wake (Event.call done) ts stop exit stopped last = inr refl
only_wake Event.repeat ts stop exit stopped last = inr refl
only_wake Event.wake ts stop exit stopped last = inl refl

-- A master that checks is at the place of its own.
checking_place :
    (m : Master) → (master_place m == master_place Master.checking) ≡ true → m ≡ Master.checking
checking_place Master.checking h = refl
checking_place Master.asleep h = ground (arith, h)
checking_place Master.returned h = ground (arith, h)
checking_place Master.gone h = ground (arith, h)
checking_place (Master.running t i) h = ground (arith, h)

abbrev Stuck : Sequence → Type 0
Stuck s =
    (s' : Sequence) × (Sequence.run (Event.check ∷ Event.close_exit ∷ []) s ≡ some (s', []))
    × ((e : Event) → (e ≡ Event.wake) ⊎ (step e s' ≡ none))

Stuck-state :
    (stop stopped : Bool) (last : Last)
    → Stuck (state [] stop false stopped last Master.checking Client.stopping)
unfolding Sequence.run step check_tasks
Stuck-state stop stopped last = (
  state [] stop true stopped last Master.asleep Client.joining,
  refl,
  λ e. only_wake e [] stop true stopped last,
)

Stuck-parts :
    (ts : List ℕ) (stop exit stopped : Bool) (last : Last) (m : Master) (c : Client)
    → ts ≡ []
    → exit ≡ false
    → m ≡ Master.checking
    → c ≡ Client.stopping
    → Stuck (state ts stop exit stopped last m c)
Stuck-parts ts stop exit stopped last m c a b d e = rw (a, b, d, e) (Stuck-state stop stopped last)

-- From every state that can be reached in which the destructor has called `stop` and not yet
-- `master_.stop`, and the master is about to read its condition: if it reads it before the client
-- goes on, then the client waits for the master, and no thread can take a step but the master, if
-- it wakes for no reason.
pub run-asleep :
    (es : List Event) (s : Sequence) (log : List Effect)
    → Sequence.run es created ≡ some (s, log)
    → client_at Client.stopping s ≡ true
    → master_at Master.checking s ≡ true
    → (s' : Sequence) × (Sequence.run (Event.check ∷ Event.close_exit ∷ []) s ≡ some (s', []))
      × ((e : Event) → (e ≡ Event.wake) ⊎ (step e s' ≡ none))
unfolding Told
run-asleep es s log ran at_stopping at_check =
    let told = Told-at Client.stopping s (run-IsTold es s log ran) at_stopping in
    Stuck-parts s.tasks s.stop_signal s.exit_signal s.stopped s.last s.master s.client told.1 told.0
      (checking_place s.master at_check) (client_place_inj s.client Client.stopping at_stopping)

-- The master ends, and then the destructor.
abbrev Closes : Sequence → Type 0
Closes s =
    (es : List Event) × (s' : Sequence) × (log : List Effect) × (Sequence.run es s ≡ some (s', log))
    × (client_at Client.closed s' ≡ true)

Closes-state :
    (stop stopped : Bool) (last : Last) (m : Master)
    → (master_place m == master_place Master.asleep) ≡ false
    → Closes (state [] stop true stopped last m Client.joining)
unfolding Sequence.run step check_tasks call_job
Closes-state stop stopped last Master.checking h =
    (Event.check ∷ Event.repeat ∷ Event.close_join ∷ [], _, _, refl, refl)
Closes-state stop stopped last Master.asleep h = ground (arith, h)
Closes-state stop stopped last Master.returned h =
    (Event.repeat ∷ Event.close_join ∷ [], _, _, refl, refl)
Closes-state stop stopped last Master.gone h = (Event.close_join ∷ [], _, _, refl, refl)
Closes-state stop stopped last (Master.running t i) h =
    (Event.call true ∷ Event.repeat ∷ Event.close_join ∷ [], _, _, refl, refl)

Closes-parts :
    (ts : List ℕ) (stop exit stopped : Bool) (last : Last) (m : Master) (c : Client)
    → ts ≡ []
    → exit ≡ true
    → (master_place m == master_place Master.asleep) ≡ false
    → c ≡ Client.joining
    → Closes (state ts stop exit stopped last m c)
Closes-parts ts stop exit stopped last m c a b h d =
    rw (a, b, d) (Closes-state stop stopped last m h)

-- From every state that can be reached in which the destructor waits for the master, and the master
-- does not sleep, there are steps after which the destructor has returned.
pub run-closed :
    (es : List Event) (s : Sequence) (log : List Effect)
    → Sequence.run es created ≡ some (s, log)
    → client_at Client.joining s ≡ true
    → master_at Master.asleep s ≡ false
    → (es' : List Event) × (s' : Sequence) × (log' : List Effect) × (Sequence.run es' s
        ≡ some (s', log'))
      × (client_at Client.closed s' ≡ true)
unfolding Told
run-closed es s log ran at_joining awake =
    let told = Told-at Client.joining s (run-IsTold es s log ran) at_joining in
    Closes-parts s.tasks s.stop_signal s.exit_signal s.stopped s.last s.master s.client told.1
      told.0 awake (client_place_inj s.client Client.joining at_joining)
