-- ===== src/Egrpc/Tests.antt =====
-- Runs of the handlers, and the theorems about them, on small inputs.
use cppkg.Base.{
  ◌⊎◌, ◌++◌, count, ℕ, suc, length, ◌+◌, ◌≤◌, ◌≡◌, refl, arith, List, [], ◌∷◌, Option, none, some,
  Bool, true, false, ltb, replicate,
}
use cppkg.Egrpc.{startup}
use cppkg.Egrpc.Server
use cppkg.Egrpc.Server.{run-answers, run-replaced}
use cppkg.Egrpc.Server.Pool.{server_run}
use cppkg.Egrpc.Server.Pool.Pending.{no_stop, is_pending, is_alive, server_run-pending}
use cppkg.Egrpc.ServerStream
use cppkg.Egrpc.ServerStream.{created, served, stopped}
use cppkg.Egrpc.ServerStream.Serves.{replies, serve-replies, serve-failed}
use cppkg.Egrpc.ServerStream.Answers.{
  queue_run-tags, broken, finishes, deletions, left_to_finish, gone,
}
use cppkg.Egrpc.Client
use cppkg.Egrpc.Wait
use cppkg.Egrpc.Wait.{Promise, Waited}
use cppkg.Egrpc.Wait.Ready.{wait_for-errors, ready, errors}
use cppkg.Egrpc.Calls.{indices, promises_of, call_errors, call_error, answered, wait_for-run}
use cppkg.Egrpc.Client.{run-success, run-failure}
use cppkg.Egrpc.ClientStream
use cppkg.Egrpc.ClientStream.{run-replies}

abbrev good : Bool → Bool
good status = status

-- A call that writes the elements of the range 1, 5, 2, 6, 3 that are more than the request.
abbrev range_of : ℕ → Bool × List ℕ
range_of request = (true, 1 ∷ 5 ∷ 2 ∷ 6 ∷ 3 ∷ [])

abbrev no_range : ℕ → Bool × List ℕ
no_range request = (false, [])

abbrev write_above : ℕ → ℕ → ℕ → Bool × ℕ
write_above request element reply = (ltb request element, element)

serve-replies_example :
    ServerStream.run good true false 0 range_of write_above 4 (replicate 4 served) (some created)
    ≡ some (
      none,
      ServerStream.requested
          ∷ ServerStream.wrote 5
          ∷ ServerStream.wrote 6
          ∷ ServerStream.finished true
          ∷ ServerStream.deleted
          ∷ [],
    )
unfolding replies
serve-replies_example = serve-replies good true false 0 range_of write_above 4 refl

serve-failed_run :
    ServerStream.run good true false 0 no_range write_above 4 (replicate 2 served) (some created)
    ≡ some (none, ServerStream.requested ∷ ServerStream.finished false ∷ ServerStream.deleted ∷ [])
serve-failed_run = serve-failed good true false 0 no_range write_above 4 refl

-- The range is empty when the call is served twice, so that it is deleted in order.
queue_run_runs :
    ServerStream.queue_run good true false 0 no_range write_above 4
      (replicate 5 served)
      (some created)
      1
    ≡ some
        (none, 0, ServerStream.requested ∷ ServerStream.finished false ∷ ServerStream.deleted ∷ [])
unfolding ServerStream.queue_run ServerStream.step ServerStream.serve ServerStream.serve_startup
    ServerStream.shutdown ServerStream.tags_put
queue_run_runs = refl

abbrev stop_early : List ServerStream.Event
stop_early = served ∷ stopped ∷ []

-- It is told to stop after its first reply.
queue_run-tags_example :
    ((broken good true false 0 range_of write_above 4 stop_early (some created) ≡ false)
      × (after : Option (ServerStream.Call ℕ)) × (tags : ℕ) × (log : List
          (ServerStream.Effect ℕ Bool))
      × (ServerStream.queue_run good true false 0 range_of write_above 4 stop_early (some created) 1
          ≡ some (after, tags, log))
      × (finishes log + left_to_finish after ≤ 1)
      × (deletions log ≡ gone after)
      × (tags + gone after ≡ 1))
    ⊎ ((broken good true false 0 range_of write_above 4 stop_early (some created) ≡ true)
        × ((e : ServerStream.Event)
            → ServerStream.queue_run good true false 0 range_of write_above 4
                (stop_early ++ e ∷ [])
                (some created)
                1
              ≡ none))
queue_run-tags_example = queue_run-tags good true false 0 range_of write_above 4 stop_early

abbrev message_of : Bool → ℕ
message_of status = 13

-- Two failures, then a reply.
run-success_example :
    Client.run {Res = ℕ} good message_of true true
      ((false, 0) ∷ (false, 0) ∷ (true, 8) ∷ [])
      (some 3)
    ≡ (none, Client.requested ∷ Client.requested ∷ Client.handled 8 ∷ Client.completed none ∷ [])
unfolding Client.all_fail
run-success_example =
    run-success good message_of true true 3 ((false, 0) ∷ (false, 0) ∷ []) (true, 8) []
      (omega arith) refl refl

run-failure_run :
    Client.run {Res = ℕ} good message_of true true ((false, 0) ∷ (false, 0) ∷ []) (some 1)
    ≡ (none, Client.requested ∷ Client.completed (some 13) ∷ [])
unfolding Client.all_fail
run-failure_run =
    run-failure good message_of true true 1 ((false, 0) ∷ []) (false, 0) [] refl refl refl

abbrev event : Bool → ℕ → Bool → ClientStream.Event ℕ Bool
event event_status reply status = record {
  event_status = event_status;
  reply = reply;
  status = status;
}

run-replies_example :
    ClientStream.run good message_of true
      (event true 0 true
        ∷ event true 4 true
        ∷ event true 6 true
        ∷ event false 0 true
        ∷ event true 0 false
        ∷ [])
      (some startup)
    ≡ (
      none,
      ClientStream.reading
          ∷ ClientStream.handled 4
          ∷ ClientStream.reading
          ∷ ClientStream.handled 6
          ∷ ClientStream.reading
          ∷ ClientStream.finishing
          ∷ ClientStream.completed (some 13)
          ∷ [],
    )
unfolding ClientStream.all_replies ClientStream.handed_on
run-replies_example =
    run-replies good message_of true (event true 0 true)
      (event true 4 true ∷ event true 6 true ∷ []) (event false 0 true) (event true 0 false) refl
      refl refl

abbrev double : ℕ → Bool × ℕ
double request = (true, request + request)

run-answers_run :
    Server.run good double 4 (Server.served ∷ Server.served ∷ Server.stopped ∷ []) (some false)
    ≡ (none, Server.requested ∷ Server.finished 8 true ∷ Server.deleted ∷ [])
run-answers_run = run-answers good double 4 (Server.stopped ∷ [])

abbrev stopped_after_answer : List (Server.Effect ℕ Bool)
stopped_after_answer =
    (Server.run good double 4 (Server.served ∷ Server.stopped ∷ Server.served ∷ []) (some false)).1

run-replaced_run :
    (Server.answers stopped_after_answer ≤ 1)
    × (Server.requests stopped_after_answer ≡ Server.answers stopped_after_answer)
    × (Server.deletions stopped_after_answer ≤ 1)
run-replaced_run = run-replaced good double 4 (Server.served ∷ Server.stopped ∷ Server.served ∷ [])

-- Three promises, one of which is set to null.
abbrev three_promises : List (Promise ℕ)
three_promises =
    record { retrieved = false; value = some (some 7) }
    ∷ record { retrieved = false; value = some none }
    ∷ record { retrieved = false; value = some (some 9) }
    ∷ []

wait_for-errors_run :
    (store' : List (Promise ℕ)) × (Wait.wait_for true (2 ∷ 1 ∷ 0 ∷ []) three_promises ≡ record {
      ending = Wait.Ending.returns;
      promises = [];
      store = store';
      handled = errors (2 ∷ 1 ∷ 0 ∷ []) three_promises;
    })
unfolding ready
wait_for-errors_run = wait_for-errors true (2 ∷ 1 ∷ 0 ∷ []) three_promises refl

-- A promise that stands twice in a list.
same_promise : (Wait.wait_for true (0 ∷ 0 ∷ 2 ∷ []) three_promises).promises ≡ 0 ∷ 2 ∷ []
unfolding Wait.wait_for
same_promise = refl

-- A call that fails twice and may be tried twice, and one that succeeds at its third try.
abbrev two_calls : List (ℕ × List (Bool × ℕ))
two_calls =
    (1, (false, 0) ∷ (false, 0) ∷ [])
    ∷ (3, (false, 0) ∷ (false, 0) ∷ (true, 8) ∷ (true, 9) ∷ [])
    ∷ []

two_calls_run : call_errors good message_of true two_calls ≡ 13 ∷ []
unfolding call_errors call_error Client.all_fail
two_calls_run = refl

wait_for-run_example :
    (store : List (Promise ℕ)) × (Wait.wait_for true
        (indices 0 2)
        (promises_of good message_of true two_calls)
      ≡ record {
        ending = Wait.Ending.returns;
        promises = [];
        store = store;
        handled = call_errors good message_of true two_calls;
      })
unfolding answered
wait_for-run_example = wait_for-run good message_of true true two_calls refl

-- Three requests, of which the second is answered before the first call is deleted.
abbrev three_requests : List (ℕ × ℕ × Server.Event)
three_requests =
    (0, 7, Server.served)
    ∷ (1, 8, Server.served)
    ∷ (0, 7, Server.served)
    ∷ (2, 0, Server.served)
    ∷ []

-- A callback that does not answer 0.
abbrev answer_request : ℕ → Bool × ℕ
answer_request req = (ltb 0 req, req)

server_run-pending_example :
    (count is_pending (server_run good answer_request three_requests).0 ≡ 1)
    × (Server.answers (server_run good answer_request three_requests).1
        ≡ Server.requests (server_run good answer_request three_requests).1)
    × (length (server_run good answer_request three_requests).0
        ≡ suc (Server.requests (server_run good answer_request three_requests).1))
    × (Server.deletions (server_run good answer_request three_requests).1
          + count is_alive (server_run good answer_request three_requests).0
        ≡ suc (Server.requests (server_run good answer_request three_requests).1))
unfolding no_stop
server_run-pending_example = server_run-pending good answer_request three_requests refl

three_requests_run :
    (server_run good answer_request three_requests).0
    ≡ none ∷ some true ∷ some true ∷ some false ∷ []
unfolding server_run Server.step Server.answer
three_requests_run = refl
