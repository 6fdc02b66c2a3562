-- ===== src/Egrpc/ServerStream.antt =====
-- cppkg/egrpc/server_async_stream.h: `AsyncServerStreamCall`, which answers a request with a stream
-- of replies. What a call does to the outside is a list of effects. The three callbacks are
-- parameters; the one that writes a reply gets the element that the iterator stands at, and the
-- reply that an earlier attempt may have touched. It does not move the iterator.
pub mod Serves
pub mod Answers
use cppkg.Base.{
  ℕ, zero, suc, ◌+◌, ◌>>=◌, List, [], ◌∷◌, ◌++◌, Option, none, some, Bool, true, false,
  if◌then◌else◌,
}
use cppkg.Egrpc.{CallStatus, startup, process, finish}

-- `requested` is the construction of the next call, which asks for the next request; `wrote` and
-- `finished` are calls of the writer; `deleted` is `delete this`.
pub data Effect {ℓ κ} (Res : Type ℓ) (Status : Type κ) : Type (ℓ ⊔ κ) where
  requested deleted : Effect Res Status
  wrote : Res → Effect Res Status
  finished : Status → Effect Res Status

-- `rest` are the elements from `it_` to the end of `ranges_`.
pub record Call {ℓ} (A : Type ℓ) : Type ℓ where
  pub status : CallStatus
  pub rest : List A

abbrev pub created {ℓ} : {A : Type ℓ} → Call A
created = record { status = startup; rest = [] }

-- What the queue, or the server that stops, tells the call.
pub data Event : Type 0 where
  served stopped : Event

-- How often a call puts its own tag into the queue: with each write, and when it finishes.
unfoldable pub tags_put {ℓ κ} : {Res : Type ℓ} {Status : Type κ} → List (Effect Res Status) → ℕ
tags_put [] = 0
tags_put (requested ∷ es) = tags_put es
tags_put (deleted ∷ es) = tags_put es
tags_put (wrote r ∷ es) = suc (tags_put es)
tags_put (finished s ∷ es) = suc (tags_put es)

module _ {ℓ κ μ ν} {Req : Type ℓ} {A : Type κ} {Res : Type μ} {Status : Type ν} (ok : Status → Bool)
    (success cancelled : Status) (empty_reply : Res) (init_call : Req → Status × List A)
    (write_call : Req → A → Res → Bool × Res) (req : Req) where
  -- The inner loop: whether a reply was made, the reply, and what is left of the range.
  unfoldable pub next_reply : List A → Res → Bool × Res × List A
  next_reply [] reply = (false, reply, [])
  next_reply (a ∷ rest) reply =
      let attempt = write_call req a reply in
      let again = next_reply rest attempt.1 in if attempt.0 then (true, attempt.1, rest) else again

  -- The case `PROCESS`.
  unfoldable pub serve_process : List A → Option (Call A) × List (Effect Res Status)
  unfolding next_reply
  serve_process rest =
      let (done, reply, left) = next_reply rest empty_reply in
      if done
      then (some (record { status = process; rest = left }), wrote reply ∷ [])
      else (some (record { status = finish; rest = left }), finished success ∷ [])

  -- The case `STARTUP`, which falls through to the one above.
  unfoldable pub serve_startup : List A → Option (Call A) × List (Effect Res Status)
  unfolding serve_process
  serve_startup rest =
      let (out_status, ranges) = init_call req in
      let first = serve_process ranges in
      if ok out_status
      then (first.0, requested ∷ first.1)
      else (some (record { status = finish; rest = rest }), requested ∷ finished out_status ∷ [])

  -- `shutdown`
  unfoldable pub shutdown : CallStatus → Option (Call A) × List (Effect Res Status)
  shutdown startup = (none, deleted ∷ [])
  shutdown process = (none, finished cancelled ∷ deleted ∷ [])
  shutdown finish = (none, deleted ∷ [])

  unfoldable pub serve : CallStatus → List A → Option (Call A) × List (Effect Res Status)
  unfolding serve_startup serve_process shutdown
  serve startup rest = serve_startup rest
  serve process rest = serve_process rest
  serve finish rest = shutdown finish

  unfoldable pub step : Event → Call A → Option (Call A) × List (Effect Res Status)
  unfolding serve shutdown
  step served call = serve call.status call.rest
  step stopped call = shutdown call.status

  -- A run over the events of a call, with all that it does. `none` is an event for a call that has
  -- been deleted, which is the use of freed memory.
  unfoldable pub run :
      List Event → Option (Call A) → Option (Option (Call A) × List (Effect Res Status))
  unfolding step
  run [] call = some (call, [])
  run (e ∷ es) none = none
  run (e ∷ es) (some call) = do
    let after = step e call
    later ← run es after.0
    some (later.0, after.1 ++ later.1)

  -- The same with the completion queue, which hands back the tag of a call once for each time that
  -- the call has put it there. Each event takes it out; without a tag there are no more events.
  unfoldable pub queue_run :
      List Event → Option (Call A) → ℕ → Option (Option (Call A) × ℕ × List (Effect Res Status))
  unfolding step
  queue_run [] call tags = some (call, tags, [])
  queue_run (e ∷ es) call zero = some (call, zero, [])
  queue_run (e ∷ es) none (suc tags) = none
  queue_run (e ∷ es) (some call) (suc tags) = do
    let after = step e call
    later ← queue_run es after.0 (tags + tags_put after.1)
    some (later.0, later.1, after.1 ++ later.2)
