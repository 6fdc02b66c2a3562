-- ===== src/Jobs/Sequence/Told.antt =====
-- What the destructor of a sequence has told the master, in every state that can be reached.
use cppkg.Base.{
  ℕ, ◌≡◌, refl, ap, sym, subst, ◌∙◌, arith, List, [], ◌∷◌, some, Bool, true, false, ◌&&◌, not, ◌==◌,
  if◌then◌else◌, ==_iff,
}
use cppkg.Jobs.Sequence.Reach.{Keeps, Keeps-guarded, run_invariant}
use cppkg.Jobs.Sequence
use cppkg.Jobs.Sequence.{
  Last, joins, Sequence, Event, Effect, Master, Client, notified, clear_tasks, check_tasks,
  call_job, step, created, master_at, client_at, master_place, client_place,
}

client_of : ℕ → Client
client_of n =
    if n == 0
    then Client.idle
    else if n == 1
    then Client.notifying
    else if n == 2
    then Client.closing
    else if n == 3
    then Client.stopping
    else if n == 4
    then Client.joining
    else Client.closed

client_of-client_place : (c : Client) → client_of (client_place c) ≡ c
unfolding client_of
client_of-client_place Client.idle = refl
client_of-client_place Client.notifying = refl
client_of-client_place Client.closing = refl
client_of-client_place Client.stopping = refl
client_of-client_place Client.joining = refl
client_of-client_place Client.closed = refl

pub client_place_inj : (c d : Client) → (client_place c == client_place d) ≡ true → c ≡ d
client_place_inj c d h =
    sym (client_of-client_place c) ∙ ap client_of ((==_iff _ _).0 h) ∙ client_of-client_place d

-- The master is told to stop by the third line of the destructor, when the tasks are cleared.
unfoldable pub Told : Client → Bool → List ℕ → Type 0
Told Client.idle exit ts = exit ≡ false
Told Client.notifying exit ts = exit ≡ false
Told Client.closing exit ts = exit ≡ false
Told Client.stopping exit ts = (exit ≡ false) × (ts ≡ [])
Told Client.joining exit ts = (exit ≡ true) × (ts ≡ [])
Told Client.closed exit ts = Unit {0}

abbrev pub IsTold : Sequence → Type 0
IsTold s = Told s.client s.exit_signal s.tasks

-- Where the client is known, so is what it has told.
pub Told-at :
    (d : Client) (s : Sequence) → IsTold s → client_at d s ≡ true → Told d s.exit_signal s.tasks
Told-at d s h at_d = subst (λ c. Told c s.exit_signal s.tasks) (client_place_inj s.client d at_d) h

Told-rest : (c : Client) (exit : Bool) (t : ℕ) (ts : List ℕ) → Told c exit (t ∷ ts) → Told c exit ts
unfolding Told
Told-rest Client.idle exit t ts h = h
Told-rest Client.notifying exit t ts h = h
Told-rest Client.closing exit t ts h = h
Told-rest Client.stopping exit t ts h = ground (arith, h.1)
Told-rest Client.joining exit t ts h = ground (arith, h.1)
Told-rest Client.closed exit t ts h = tt

call-Keeps :
    (m : Master) (done stop exit stopped : Bool) (last : Last) (ts : List ℕ) (c : Client)
    → Told c exit ts
    → Keeps IsTold (
        step (Event.call done) (record {
          tasks = ts;
          stop_signal = stop;
          exit_signal = exit;
          stopped = stopped;
          last = last;
          master = m;
          client = c;
        }))
unfolding step call_job
call-Keeps Master.checking done stop exit stopped last ts c h = tt
call-Keeps Master.asleep done stop exit stopped last ts c h = tt
call-Keeps Master.returned done stop exit stopped last ts c h = tt
call-Keeps Master.gone done stop exit stopped last ts c h = tt
call-Keeps (Master.running t i) true stop exit stopped last ts c h = h
call-Keeps (Master.running t i) false true exit stopped last ts c h = h
call-Keeps (Master.running t i) false false exit stopped last ts c h = h

check_tasks-IsTold :
    (ts : List ℕ) (stop exit stopped : Bool) (last : Last) (m : Master) (c : Client)
    → Told c exit ts
    → IsTold
        (check_tasks (record {
          tasks = ts;
          stop_signal = stop;
          exit_signal = exit;
          stopped = stopped;
          last = last;
          master = m;
          client = c;
        })).0
unfolding check_tasks
check_tasks-IsTold [] stop exit stopped last m c h = h
check_tasks-IsTold (t ∷ ts) stop exit stopped last m c h = Told-rest c exit t ts h

and_left : (a b : Bool) → (a && b) ≡ true → a ≡ true
and_left true b h = refl
and_left false b h = h

step-IsTold : (e : Event) (s : Sequence) → IsTold s → Keeps IsTold (step e s)
unfolding step Told clear_tasks
step-IsTold (Event.attach t) s h =
    Keeps-guarded IsTold (client_at Client.idle s && not s.stopped) _
      (λ at_idle. Told-at Client.idle s h (and_left _ _ at_idle))
step-IsTold Event.notify s h =
    Keeps-guarded IsTold (client_at Client.notifying s) _
      (λ at_notifying. Told-at Client.notifying s h at_notifying)
step-IsTold Event.stop s h =
    Keeps-guarded IsTold (client_at Client.idle s) _ (λ at_idle. Told-at Client.idle s h at_idle)
step-IsTold Event.join s h =
    Keeps-guarded IsTold (client_at Client.idle s && joins s.last) _ (λ at_idle. h)
step-IsTold Event.close s h =
    Keeps-guarded IsTold (client_at Client.idle s) _ (λ at_idle. Told-at Client.idle s h at_idle)
step-IsTold Event.close_stop s h =
    Keeps-guarded IsTold (client_at Client.closing s) _
      (λ at_closing. (Told-at Client.closing s h at_closing, refl))
step-IsTold Event.close_exit s h =
    Keeps-guarded IsTold (client_at Client.stopping s) _
      (λ at_stopping. (refl, (Told-at Client.stopping s h at_stopping).1))
step-IsTold Event.close_join s h =
    Keeps-guarded IsTold (client_at Client.joining s && master_at Master.gone s) _ (λ at_end. tt)
step-IsTold Event.check s h = Keeps-guarded IsTold (master_at Master.checking s) _ (λ at_check.
    check_tasks-IsTold s.tasks s.stop_signal s.exit_signal s.stopped s.last s.master s.client h)
step-IsTold (Event.call done) s h =
    call-Keeps s.master done s.stop_signal s.exit_signal s.stopped s.last s.tasks s.client h
step-IsTold Event.repeat s h =
    Keeps-guarded IsTold (master_at Master.returned s) _ (λ at_returned. h)
step-IsTold Event.wake s h = Keeps-guarded IsTold (master_at Master.asleep s) _ (λ at_asleep. h)

pub run-IsTold :
    (es : List Event) (s : Sequence) (log : List Effect)
    → Sequence.run es created ≡ some (s, log)
    → IsTold s
unfolding Told
run-IsTold es s log ran = run_invariant IsTold step-IsTold es s log refl ran
