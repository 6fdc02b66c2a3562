-- ===== src/Jobs/Tests.antt =====
-- Runs of the jobs, and the theorems about them, on small inputs.
use cppkg.Base.{◌+◌, ◌≡◌, ◌⊎◌, refl, List, [], ◌∷◌, none, some, true, false}
use cppkg.Jobs.Sequence
use cppkg.Jobs.Sequence.{
  Sequence, Event, Effect, Master, Client, Last, created, step, client_at, joins,
}
use cppkg.Jobs.Sequence.Order.{spec_run-view}
use cppkg.Jobs.Sequence.Queue.{task, view, spec_run}
use cppkg.Jobs.Sequence.Join.{run-joins}
use cppkg.Jobs.Sequence.Ends.{run-asleep, run-closed}
use cppkg.Jobs.ScopeGuard.Once
use cppkg.Jobs.ScopeGuard.Once.{run-held, runs, held, all_given}
use cppkg.Jobs.ManagedJob
use cppkg.Jobs.ManagedJob.{ManagedJob, returns, terminates, is_stopped, ◌>>=◌}
use cppkg.Jobs.ManagedJob.Ends.{
  Reach, started, stopped, move_construct_fails, destroy_ends, stop-join-destroy,
}

-- A guard is moved, assigned to and destroyed.
abbrev moves : List Once.Op
moves =
    Once.Op.construct (some 7)
    ∷ Once.Op.construct (some 8)
    ∷ Once.Op.move_assign 1 0
    ∷ Once.Op.move_construct 1
    ∷ Once.Op.destroy 0
    ∷ Once.Op.destroy 2
    ∷ []

moves_run : Once.run moves [] ≡ some (none ∷ some none ∷ none ∷ [], 8 ∷ 7 ∷ [])
unfolding Once.run
moves_run = refl

run-held_example : runs 7 (8 ∷ 7 ∷ []) + held 7 (none ∷ some none ∷ none ∷ []) ≡ all_given 7 moves
run-held_example = run-held 7 moves (none ∷ some none ∷ none ∷ []) (8 ∷ 7 ∷ []) moves_run

abbrev running : ManagedJob
running = record {
  exit_signal = some (record { retrieved = true; satisfied = false });
  valid = true;
  joinable = true;
}

running-Reach : Reach running
unfolding ManagedJob.start
running-Reach = started running refl

abbrev told : ManagedJob
told = record {
  exit_signal = some (record { retrieved = true; satisfied = true });
  valid = true;
  joinable = true;
}

told-Reach : Reach told
unfolding ManagedJob.stop
told-Reach = stopped running told running-Reach refl

move_construct_fails_example : ManagedJob.move_construct running ≡ terminates
move_construct_fails_example = move_construct_fails running running-Reach

-- A job that was told to stop, and not joined.
destroy_ends_example : ManagedJob.destroy told ≡ terminates
destroy_ends_example = destroy_ends told told-Reach

stop-join-destroy_run :
    (ManagedJob.stop running >>= ManagedJob.join >>= ManagedJob.destroy) ≡ returns tt
stop-join-destroy_run = stop-join-destroy running running-Reach refl

-- A job is attached and called, then the sequence is told to stop, and the next call is the last.
abbrev sequence_events : List Event
sequence_events =
    Event.attach 5
    ∷ Event.notify
    ∷ Event.attach 6
    ∷ Event.notify
    ∷ Event.check
    ∷ Event.call false
    ∷ Event.stop
    ∷ Event.call false
    ∷ Event.repeat
    ∷ Event.close
    ∷ Event.close_stop
    ∷ []

abbrev sequence_log : List Effect
sequence_log =
    Effect.attached 5
    ∷ Effect.attached 6
    ∷ Effect.began 5
    ∷ Effect.called 5 0 false
    ∷ Effect.cleared
    ∷ Effect.called 5 1 false
    ∷ Effect.cleared
    ∷ []

abbrev at_stopping : Sequence
at_stopping = record {
  tasks = [];
  last = Last.ready;
  stop_signal = true;
  exit_signal = false;
  stopped = true;
  master = Master.checking;
  client = Client.stopping;
}

abbrev at_joining : Sequence
at_joining = record at_stopping { last = Last.unset; exit_signal = true; client = Client.joining }

sequence_run : Sequence.run sequence_events created ≡ some (at_stopping, sequence_log)
unfolding Sequence.run
sequence_run = refl

closing_run :
    Sequence.run (Event.close ∷ Event.close_stop ∷ Event.close_exit ∷ []) created
    ≡ some (at_joining, Effect.cleared ∷ [])
unfolding Sequence.run
closing_run = refl

spec_run-view_example :
    spec_run sequence_log (record { waiting = []; current = none; told = false })
    ≡ some (view at_stopping)
spec_run-view_example = spec_run-view sequence_events at_stopping sequence_log sequence_run

run-asleep_example :
    (s' : Sequence) × (Sequence.run (Event.check ∷ Event.close_exit ∷ []) at_stopping
      ≡ some (s', []))
    × ((e : Event) → (e ≡ Event.wake) ⊎ (step e s' ≡ none))
run-asleep_example = run-asleep sequence_events at_stopping sequence_log sequence_run refl refl

run-closed_example :
    (es' : List Event) × (s' : Sequence) × (log' : List Effect) × (Sequence.run es' at_joining
      ≡ some (s', log'))
    × (client_at Client.closed s' ≡ true)
run-closed_example =
    run-closed (Event.close ∷ Event.close_stop ∷ Event.close_exit ∷ []) at_joining
      (Effect.cleared ∷ []) closing_run refl refl

-- After `stop` the future of the second job is ready, while the first one is being called.
abbrev stopped_early : Sequence
stopped_early = record {
  tasks = [];
  last = Last.ready;
  stop_signal = true;
  exit_signal = false;
  stopped = false;
  master = Master.running 5 1;
  client = Client.idle;
}

stopped_early-run :
    Sequence.run
      (Event.attach 5
        ∷ Event.notify
        ∷ Event.attach 6
        ∷ Event.notify
        ∷ Event.check
        ∷ Event.call false
        ∷ Event.stop
        ∷ Event.join
        ∷ [])
      created
    ≡ some (
      stopped_early,
      Effect.attached 5
          ∷ Effect.attached 6
          ∷ Effect.began 5
          ∷ Effect.called 5 0 false
          ∷ Effect.cleared
          ∷ [],
    )
unfolding Sequence.run
stopped_early-run = refl

-- One job that is done.
abbrev one_done : List Event
one_done = Event.attach 5 ∷ Event.notify ∷ Event.check ∷ Event.call true ∷ Event.join ∷ []

abbrev after_one : Sequence
after_one = record created { last = Last.ready; master = Master.returned }

one_done-run :
    Sequence.run one_done created
    ≡ some (after_one, Effect.attached 5 ∷ Effect.began 5 ∷ Effect.called 5 0 true ∷ [])
unfolding Sequence.run
one_done-run = refl

run-joins_example :
    (after_one.tasks ≡ []) × ((after_one.stop_signal ≡ true) ⊎ (task after_one.master ≡ none))
run-joins_example =
    run-joins one_done after_one (Effect.attached 5 ∷ Effect.began 5 ∷ Effect.called 5 0 true ∷ [])
      one_done-run refl
