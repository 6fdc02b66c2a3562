-- ===== src/Jobs/Sequence.antt =====
-- cppkg/jobs/sequence.h: jobs that run one after the other. The threads are the client, which
-- attaches jobs, stops them and destroys the sequence; the master, a managed job; and the thread of
-- a task, for which the master waits. An event is the next step of one of them: what a thread does
-- while it holds `queue_mutex_` is one step. A job is a number.
pub mod Queue
pub mod Order
pub mod Reach
pub mod Told
pub mod Join
pub mod Ends
use cppkg.Base.{
  ℕ, zero, suc, ◌+◌, List, [], ◌∷◌, ◌++◌, Option, none, some, Bool, true, false, ◌||◌, ◌&&◌, not,
  ◌==◌, if◌then◌else◌, ◌>>=◌,
}

-- Where the master is: before it reads the condition with the mutex, asleep until it is notified,
-- with a task whose job is called next with `i`, back from the function that it repeats, or ended.
pub data Master : Type 0 where
  checking asleep returned gone : Master
  running : ℕ → ℕ → Master

-- Where the client is: between two calls, before the `notify_one` of `attach_job`, and in the
-- destructor before each of its last three lines, or after them.
pub data Client : Type 0 where
  idle notifying closing stopping joining closed : Client

-- The task whose future is `last_future_`, if there is one: it is among the tasks, running, or the
-- future is ready, as the task has ended or was removed.
pub data Last : Type 0 where
  unset waiting running ready : Last

pub record Sequence : Type 0 where
  pub tasks : List ℕ
  pub last : Last
  -- Whether `stop_signal_` has been set, and the signal of the master.
  pub stop_signal : Bool
  pub exit_signal : Bool
  pub stopped : Bool
  pub master : Master
  pub client : Client

pub data Event : Type 0 where
  attach : ℕ → Event
  notify stop join close close_stop close_exit close_join : Event
  -- The master reads its condition, its task calls the job, with what the job returns, and the
  -- master is asked whether to go on; or it wakes for no reason.
  check : Event
  call : Bool → Event
  repeat wake : Event

-- What others see: a job is attached or taken from the tasks, the tasks are cleared, and a job is
-- called with a number and returns.
pub data Effect : Type 0 where
  attached began : ℕ → Effect
  cleared : Effect
  called : ℕ → ℕ → Bool → Effect

abbrev pub created : Sequence
created = record {
  tasks = [];
  last = Last.unset;
  stop_signal = false;
  exit_signal = false;
  stopped = false;
  master = Master.checking;
  client = Client.idle;
}

-- `condition_.notify_one()`
abbrev pub notified : Master → Master
notified Master.checking = Master.checking
notified Master.asleep = Master.checking
notified Master.returned = Master.returned
notified Master.gone = Master.gone
notified (Master.running t i) = Master.running t i

-- What happens to the last task when the tasks are cleared, when one of them is taken and `rest`
-- stays, and when the running one ends.
abbrev pub last_cleared : Last → Last
last_cleared Last.unset = Last.unset
last_cleared Last.waiting = Last.ready
last_cleared Last.running = Last.running
last_cleared Last.ready = Last.ready

abbrev pub last_begun : List ℕ → Last → Last
last_begun [] Last.unset = Last.unset
last_begun [] Last.waiting = Last.running
last_begun [] Last.running = Last.running
last_begun [] Last.ready = Last.ready
last_begun (t ∷ rest) last = last

abbrev pub last_ended : Last → Last
last_ended Last.unset = Last.unset
last_ended Last.waiting = Last.waiting
last_ended Last.running = Last.ready
last_ended Last.ready = Last.ready

-- `last_future_.valid()`, and whether `join` returns.
abbrev pub is_running : Sequence → Bool
is_running s = elim s.last [
  | Last.unset ↦ false
  | Last.waiting ↦ true
  | Last.running ↦ true
  | Last.ready ↦ true
]

abbrev pub joins : Last → Bool
joins Last.unset = true
joins Last.waiting = false
joins Last.running = false
joins Last.ready = true

-- `Sequence::stop`, after which the client is at `next`. A second `set_value` is caught.
unfoldable pub clear_tasks : Client → Sequence → Sequence × List Effect
clear_tasks next s = (
  record s {
    tasks = [];
    last = last_cleared s.last;
    stop_signal = true;
    master = notified s.master;
    client = next;
  },
  cleared ∷ [],
)

-- The function that the master repeats, to where it waits or has a task.
unfoldable pub check_tasks : Sequence → Sequence × List Effect
check_tasks s = elim s.tasks [
  | [] ↦ (record s { master = if s.exit_signal then Master.returned else Master.asleep }, [])
  | t ∷ rest ↦ (
    record s { tasks = rest; last = last_begun rest s.last; master = Master.running t 0 },
    began t ∷ [],
  )
]

-- One round of the loop of a task.
unfoldable pub call_job : ℕ → ℕ → Bool → Sequence → Sequence × List Effect
call_job t i done s = (
  if done || s.stop_signal
      then record s { last = last_ended s.last; master = Master.returned }
      else record s { master = Master.running t (i + 1) },
  called t i done ∷ [],
)

-- Is the client, or the master, there?
abbrev pub client_place : Client → ℕ
client_place Client.idle = 0
client_place Client.notifying = 1
client_place Client.closing = 2
client_place Client.stopping = 3
client_place Client.joining = 4
client_place Client.closed = 5

abbrev pub master_place : Master → ℕ
master_place Master.checking = 0
master_place Master.asleep = 1
master_place Master.returned = 2
master_place Master.gone = 3
master_place (Master.running t i) = 4

abbrev pub client_at : Client → Sequence → Bool
client_at c s = client_place s.client == client_place c

abbrev pub master_at : Master → Sequence → Bool
master_at m s = master_place s.master == master_place m

-- `none` is a step that its thread cannot take there. `attach_job` has two steps, and the
-- destructor four.
unfoldable pub step : Event → Sequence → Option (Sequence × List Effect)
unfolding clear_tasks check_tasks call_job
step (Event.attach t) s =
    if client_at Client.idle s && not s.stopped
    then some (
      record s { tasks = s.tasks ++ t ∷ []; last = Last.waiting; client = Client.notifying },
      attached t ∷ [],
    )
    else none
step Event.notify s =
    if client_at Client.notifying s
    then some (record s { master = notified s.master; client = Client.idle }, [])
    else none
step Event.stop s = if client_at Client.idle s then some (clear_tasks Client.idle s) else none
step Event.join s = if client_at Client.idle s && joins s.last then some (s, []) else none
step Event.close s =
    if client_at Client.idle s
    then some (record s { stopped = true; client = Client.closing }, [])
    else none
step Event.close_stop s =
    if client_at Client.closing s then some (clear_tasks Client.stopping s) else none
step Event.close_exit s =
    if client_at Client.stopping s
    then some (record s { exit_signal = true; client = Client.joining }, [])
    else none
step Event.close_join s =
    if client_at Client.joining s && master_at Master.gone s
    then some (record s { client = Client.closed }, [])
    else none
step Event.check s = if master_at Master.checking s then some (check_tasks s) else none
step (Event.call done) s = elim s.master [
  | Master.checking ↦ none
  | Master.asleep ↦ none
  | Master.returned ↦ none
  | Master.gone ↦ none
  | Master.running t i ↦ some (call_job t i done s)
]
step Event.repeat s =
    if master_at Master.returned s
    then some (record s { master = if s.exit_signal then Master.gone else Master.checking }, [])
    else none
step Event.wake s =
    if master_at Master.asleep s then some (record s { master = Master.checking }, []) else none

unfoldable pub run : List Event → Sequence → Option (Sequence × List Effect)
unfolding step
run [] s = some (s, [])
run (e ∷ es) s = do now ← step e s; later ← run es now.0; some (later.0, now.1 ++ later.1)
