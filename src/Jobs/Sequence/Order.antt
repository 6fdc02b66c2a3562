-- ===== src/Jobs/Sequence/Order.antt =====
-- What a sequence does, whatever the order of the steps: a queue of jobs, one of which is called
-- at a time.
use cppkg.Base.{
  ℕ, ◌≡◌, refl, List, [], ◌∷◌, Option, none, some, Bool, true, false, ◌&&◌, not, if◌then◌else◌, inl,
  inr, Option-cases, ==_iff,
}
use cppkg.Jobs.Sequence.Queue.{
  Queue, spec_begin, spec_call, spec_step, spec_run, task, view, spec_run-append, task-notified,
  task-none, repeat_idle,
}
use cppkg.Jobs.Sequence
use cppkg.Jobs.Sequence.{
  Last, joins, Sequence, Event, Effect, Master, attached, began, cleared, called, notified,
  clear_tasks, check_tasks, call_job, step, created, master_at, client_at, master_place,
}

-- What a result has to be for the queue.
abbrev Simulates : Queue → Option (Sequence × List Effect) → Type 0
Simulates q none = Unit {0}
Simulates q (some r) = spec_run r.1 q ≡ some (view r.0)

-- A step that is taken only where a test holds.
Simulates-guarded :
    (q : Queue) (test : Bool) (r : Sequence × List Effect)
    → (test ≡ true → spec_run r.1 q ≡ some (view r.0))
    → Simulates q (if test then some r else none)
Simulates-guarded q true r h = h refl
Simulates-guarded q false r h = tt

-- Nothing but the state of the master changes, and it has no task before or after.
view_idle :
    (s : Sequence) (m : Master)
    → task s.master ≡ none
    → task m ≡ none
    → spec_run [] (view s) ≡ some (view (record s { master = m }))
unfolding spec_run
view_idle s m before after = rw (before, after) refl

clear_tasks-Simulates :
    (c : Sequence.Client) (s : Sequence)
    → spec_run (clear_tasks c s).1 (view s) ≡ some (view (clear_tasks c s).0)
unfolding clear_tasks spec_run spec_step
clear_tasks-Simulates c s = rw (task-notified s.master) refl

check_parts :
    (ts : List ℕ) (stop exit stopped : Bool) (last : Last) (m : Master) (c : Sequence.Client)
    → task m ≡ none
    → Simulates
        (record { waiting = ts; current = task m; told = stop })
        (some (
          check_tasks (record {
            tasks = ts;
            stop_signal = stop;
            exit_signal = exit;
            stopped = stopped;
            last = last;
            master = m;
            client = c;
          })))
unfolding check_tasks spec_run spec_step spec_begin
check_parts [] stop true stopped last m c idle = rw idle refl
check_parts [] stop false stopped last m c idle = rw idle refl
check_parts (t ∷ ts) stop exit stopped last m c idle = rw idle (rw ((==_iff t t).1 refl) refl)

call_parts :
    (t i : ℕ) (done stop exit stopped : Bool) (last : Last) (ts : List ℕ) (c : Sequence.Client)
    → Simulates
        (record { waiting = ts; current = some (t, i); told = stop })
        (some (
          call_job t i done (record {
            tasks = ts;
            stop_signal = stop;
            exit_signal = exit;
            stopped = stopped;
            last = last;
            master = Master.running t i;
            client = c;
          })))
unfolding call_job spec_run spec_step spec_call
call_parts t i true stop exit stopped last ts c = rw ((==_iff t t).1 refl, (==_iff i i).1 refl) refl
call_parts t i false true exit stopped last ts c =
    rw ((==_iff t t).1 refl, (==_iff i i).1 refl) refl
call_parts t i false false exit stopped last ts c =
    rw ((==_iff t t).1 refl, (==_iff i i).1 refl) refl

call_master :
    (m : Master) (done stop exit stopped : Bool) (last : Last) (ts : List ℕ) (c : Sequence.Client)
    → Simulates
        (record { waiting = ts; current = task m; told = stop })
        (step (Event.call done) (record {
          tasks = ts;
          stop_signal = stop;
          exit_signal = exit;
          stopped = stopped;
          last = last;
          master = m;
          client = c;
        }))
unfolding step
call_master Master.checking done stop exit stopped last ts c = tt
call_master Master.asleep done stop exit stopped last ts c = tt
call_master Master.returned done stop exit stopped last ts c = tt
call_master Master.gone done stop exit stopped last ts c = tt
call_master (Master.running t i) done stop exit stopped last ts c =
    call_parts t i done stop exit stopped last ts c

step-Simulates : (e : Event) (s : Sequence) → Simulates (view s) (step e s)
unfolding step spec_run spec_step
step-Simulates (Event.attach t) s =
    Simulates-guarded (view s) (client_at Sequence.Client.idle s && not s.stopped) _ (λ h. refl)
step-Simulates Event.notify s =
    Simulates-guarded (view s) (client_at Sequence.Client.notifying s) _
      (λ h. rw (task-notified s.master) refl)
step-Simulates Event.stop s =
    Simulates-guarded (view s) (client_at Sequence.Client.idle s) _
      (λ h. clear_tasks-Simulates Sequence.Client.idle s)
step-Simulates Event.join s =
    Simulates-guarded (view s) (client_at Sequence.Client.idle s && joins s.last) _ (λ h. refl)
step-Simulates Event.close s =
    Simulates-guarded (view s) (client_at Sequence.Client.idle s) _ (λ h. refl)
step-Simulates Event.close_stop s =
    Simulates-guarded (view s) (client_at Sequence.Client.closing s) _
      (λ h. clear_tasks-Simulates Sequence.Client.stopping s)
step-Simulates Event.close_exit s =
    Simulates-guarded (view s) (client_at Sequence.Client.stopping s) _ (λ h. refl)
step-Simulates Event.close_join s =
    Simulates-guarded (view s) (client_at Sequence.Client.joining s && master_at Master.gone s) _
      (λ h. refl)
step-Simulates Event.check s = Simulates-guarded (view s) (master_at Master.checking s) _ (λ h.
    check_parts s.tasks s.stop_signal s.exit_signal s.stopped s.last s.master s.client
      (task-none s.master Master.checking h refl))
step-Simulates (Event.call done) s =
    call_master s.master done s.stop_signal s.exit_signal s.stopped s.last s.tasks s.client
step-Simulates Event.repeat s =
    Simulates-guarded (view s) (master_at Master.returned s) _
      (λ h. view_idle s _ (task-none s.master Master.returned h refl) (repeat_idle s.exit_signal))
step-Simulates Event.wake s =
    Simulates-guarded (view s) (master_at Master.asleep s) _
      (λ h. view_idle s Master.checking (task-none s.master Master.asleep h refl) refl)

run-Simulates : (es : List Event) (s : Sequence) → Simulates (view s) (Sequence.run es s)
unfolding Sequence.run spec_run
run-Simulates [] s = refl
run-Simulates (e ∷ es) s = elim (Option-cases (step e s)) [
  | inl stuck ↦ rw stuck tt
  | inr (now, taken) ↦
      let first : spec_run now.1 (view s) ≡ some (view now.0) = rw taken at (step-Simulates e s) in
      elim (Option-cases (Sequence.run es now.0)) [
        | inl stuck ↦ rw (taken, stuck) tt
        | inr (later, ran) ↦
            let rest : spec_run later.1 (view now.0) ≡ some (view later.0) =
              rw ran at (run-Simulates es now.0) in
            rw (taken, ran) (rw (spec_run-append now.1 later.1 (view s), first) rest)
      ]
]

-- Whatever steps the threads take, a queue of jobs can do what is seen of a sequence: jobs begin in
-- the order in which they were attached, none while another one is called; a job is called with 0,
-- 1, 2 and so on, until it is done, or, after the sequence was told to stop, until its next call;
-- to stop removes the jobs that have not begun; and the sequence holds what the queue does.
pub spec_run-view :
    (es : List Event) (s : Sequence) (log : List Effect)
    → Sequence.run es created ≡ some (s, log)
    → spec_run log (record { waiting = []; current = none; told = false }) ≡ some (view s)
spec_run-view es s log ran = rw ran at (run-Simulates es created)
