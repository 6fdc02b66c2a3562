-- ===== src/Jobs/Sequence/Join.antt =====
-- What holds when `join` returns.
use cppkg.Base.{
  ℕ, ◌≡◌, refl, ◌⊎◌, sym, ◌∙◌, ◌+◌, arith, List, [], ◌∷◌, Option, none, some, Bool, true, false,
  ◌&&◌, not, inl, inr,
}
use cppkg.Jobs.Sequence
use cppkg.Jobs.Sequence.{
  Sequence, Event, Effect, Master, Client, Last, joins, check_tasks, call_job, step, created,
  master_at, client_at, clear_tasks, last_cleared, last_begun, last_ended, notified,
}
use cppkg.Jobs.Sequence.Queue.{task, task-notified, task-none, repeat_idle}
use cppkg.Jobs.Sequence.Reach.{Keeps, Keeps-guarded, run_invariant}

-- What the future of the last task says of the tasks and of the running one.
unfoldable pub Settled : Last → List ℕ → Bool → Option (ℕ × ℕ) → Type 0
Settled Last.unset ts stop c = (ts ≡ []) × (c ≡ none)
Settled Last.waiting ts stop c = Unit {0}
Settled Last.running ts stop c = (ts ≡ []) × Unit {0}
Settled Last.ready ts stop c = (ts ≡ []) × (stop ≡ false → c ≡ none)

abbrev pub IsSettled : Sequence → Type 0
IsSettled s = Settled s.last s.tasks s.stop_signal (task s.master)

cleared-Settled :
    (l : Last) (ts : List ℕ) (stop : Bool) (m : Master)
    → Settled l ts stop (task m)
    → Settled (last_cleared l) [] true (task (notified m))
unfolding Settled
cleared-Settled Last.unset ts stop m h = (refl, task-notified m ∙ h.1)
cleared-Settled Last.waiting ts stop m h = (refl, λ told. ground (arith, told))
cleared-Settled Last.running ts stop m h = (refl, tt)
cleared-Settled Last.ready ts stop m h = (refl, λ told. ground (arith, told))

begun-Settled :
    (l : Last) (t : ℕ) (ts : List ℕ) (stop : Bool) (c c' : Option (ℕ × ℕ))
    → Settled l (t ∷ ts) stop c
    → Settled (last_begun ts l) ts stop c'
unfolding Settled
begun-Settled Last.unset t ts stop c c' h = ground (arith, h.0)
begun-Settled Last.waiting t [] stop c c' h = (refl, tt)
begun-Settled Last.waiting t (t' ∷ ts) stop c c' h = tt
begun-Settled Last.running t ts stop c c' h = ground (arith, h.0)
begun-Settled Last.ready t ts stop c c' h = ground (arith, h.0)

ended-Settled :
    (l : Last) (ts : List ℕ) (stop : Bool) (c : Option (ℕ × ℕ))
    → Settled l ts stop c
    → Settled (last_ended l) ts stop none
unfolding Settled
ended-Settled Last.unset ts stop c h = (h.0, refl)
ended-Settled Last.waiting ts stop c h = tt
ended-Settled Last.running ts stop c h = (h.0, λ told. refl)
ended-Settled Last.ready ts stop c h = (h.0, λ told. refl)

-- The job goes on only while the sequence was not told to stop.
called-Settled :
    (l : Last) (ts : List ℕ) (t i j : ℕ)
    → Settled l ts false (some (t, i))
    → Settled l ts false (some (t, j))
unfolding Settled
called-Settled Last.unset ts t i j h = ground (arith, h.1)
called-Settled Last.waiting ts t i j h = tt
called-Settled Last.running ts t i j h = h
called-Settled Last.ready ts t i j h = (h.0, λ told. ground (arith, h.1 told))

-- A master without a task goes to another place without one.
idle-Settled :
    (l : Last) (ts : List ℕ) (stop : Bool) (m m' : Master)
    → task m ≡ none
    → task m' ≡ none
    → Settled l ts stop (task m)
    → Settled l ts stop (task m')
idle-Settled l ts stop m m' before after h = rw (before ∙ sym after) at h

call-Settled :
    (m : Master) (done stop exit stopped : Bool) (l : Last) (ts : List ℕ) (c : Client)
    → Settled l ts stop (task m)
    → Keeps IsSettled (
        step (Event.call done) (record {
          tasks = ts;
          last = l;
          stop_signal = stop;
          exit_signal = exit;
          stopped = stopped;
          master = m;
          client = c;
        }))
unfolding step call_job
call-Settled Master.checking done stop exit stopped l ts c h = tt
call-Settled Master.asleep done stop exit stopped l ts c h = tt
call-Settled Master.returned done stop exit stopped l ts c h = tt
call-Settled Master.gone done stop exit stopped l ts c h = tt
call-Settled (Master.running t i) true stop exit stopped l ts c h = ended-Settled l ts stop _ h
call-Settled (Master.running t i) false true exit stopped l ts c h = ended-Settled l ts true _ h
call-Settled (Master.running t i) false false exit stopped l ts c h =
    called-Settled l ts t i (i + 1) h

check-Settled :
    (ts : List ℕ) (stop exit stopped : Bool) (l : Last) (m : Master) (c : Client)
    → task m ≡ none
    → Settled l ts stop (task m)
    → IsSettled
        (check_tasks (record {
          tasks = ts;
          last = l;
          stop_signal = stop;
          exit_signal = exit;
          stopped = stopped;
          master = m;
          client = c;
        })).0
unfolding check_tasks
check-Settled [] stop true stopped l m c idle h =
    idle-Settled l [] stop m Master.returned idle refl h
check-Settled [] stop false stopped l m c idle h =
    idle-Settled l [] stop m Master.asleep idle refl h
check-Settled (t ∷ ts) stop exit stopped l m c idle h = begun-Settled l t ts stop (task m) _ h

step-IsSettled : (e : Event) (s : Sequence) → IsSettled s → Keeps IsSettled (step e s)
unfolding step Settled clear_tasks
step-IsSettled (Event.attach t) s h =
    Keeps-guarded IsSettled (client_at Client.idle s && not s.stopped) _ (λ there. tt)
step-IsSettled Event.notify s h =
    Keeps-guarded IsSettled (client_at Client.notifying s) _
      (λ there. rw (sym (task-notified s.master)) at h)
step-IsSettled Event.stop s h =
    Keeps-guarded IsSettled (client_at Client.idle s) _
      (λ there. cleared-Settled s.last s.tasks s.stop_signal s.master h)
step-IsSettled Event.join s h =
    Keeps-guarded IsSettled (client_at Client.idle s && joins s.last) _ (λ there. h)
step-IsSettled Event.close s h = Keeps-guarded IsSettled (client_at Client.idle s) _ (λ there. h)
step-IsSettled Event.close_stop s h =
    Keeps-guarded IsSettled (client_at Client.closing s) _
      (λ there. cleared-Settled s.last s.tasks s.stop_signal s.master h)
step-IsSettled Event.close_exit s h =
    Keeps-guarded IsSettled (client_at Client.stopping s) _ (λ there. h)
step-IsSettled Event.close_join s h =
    Keeps-guarded IsSettled (client_at Client.joining s && master_at Master.gone s) _ (λ there. h)
step-IsSettled Event.check s h = Keeps-guarded IsSettled (master_at Master.checking s) _ (λ there.
    check-Settled s.tasks s.stop_signal s.exit_signal s.stopped s.last s.master s.client
      (task-none s.master Master.checking there refl) h)
step-IsSettled (Event.call done) s h =
    call-Settled s.master done s.stop_signal s.exit_signal s.stopped s.last s.tasks s.client h
step-IsSettled Event.repeat s h = Keeps-guarded IsSettled (master_at Master.returned s) _ (λ there.
    idle-Settled s.last s.tasks s.stop_signal s.master _
      (task-none s.master Master.returned there refl) (repeat_idle s.exit_signal) h)
step-IsSettled Event.wake s h = Keeps-guarded IsSettled (master_at Master.asleep s) _ (λ there.
    idle-Settled s.last s.tasks s.stop_signal s.master Master.checking
      (task-none s.master Master.asleep there refl) refl h)

joined_parts :
    (l : Last) (ts : List ℕ) (stop : Bool) (c : Option (ℕ × ℕ))
    → Settled l ts stop c
    → joins l ≡ true
    → (ts ≡ []) × ((stop ≡ true) ⊎ (c ≡ none))
unfolding Settled
joined_parts Last.unset ts stop c h returns = (h.0, inr h.1)
joined_parts Last.waiting ts stop c h returns = ground (arith, returns)
joined_parts Last.running ts stop c h returns = ground (arith, returns)
joined_parts Last.ready ts true c h returns = (h.0, inl refl)
joined_parts Last.ready ts false c h returns = (h.0, inr (h.1 refl))

-- In every state that can be reached and in which `join` returns, no job waits, and either the
-- sequence was told to stop or no job is being called.
pub run-joins :
    (es : List Event) (s : Sequence) (log : List Effect)
    → Sequence.run es created ≡ some (s, log)
    → joins s.last ≡ true
    → (s.tasks ≡ []) × ((s.stop_signal ≡ true) ⊎ (task s.master ≡ none))
unfolding Settled
run-joins es s log ran returns =
    joined_parts s.last s.tasks s.stop_signal (task s.master)
      (run_invariant IsSettled step-IsSettled es s log (refl, refl) ran) returns
