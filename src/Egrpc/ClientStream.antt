-- ===== src/Egrpc/ClientStream.antt =====
-- cppkg/egrpc/client_async_stream.h: `AsyncClientStreamHandler`, which reads a stream of replies and
-- hands each on. Its destructor, in cppkg/egrpc/iclient_async.h, fulfils the promise. What gRPC has
-- put into `reply_` and `status_` when it reports an event is part of the event.
use mathlib.Core.List.{append-nil}
use cppkg.Base.{
  ◌≡◌, ap, arith, List, [], ◌∷◌, ◌++◌, Option, none, some, Bool, true, false, if◌then◌else◌,
}
use cppkg.Egrpc.{CallStatus, startup, process, finish}

-- `reading` and `finishing` are calls of the reader, `handled` is the call of `handler_`, and
-- `completed` is `set_value`.
pub data Effect {ℓ κ} (Data : Type ℓ) (Text : Type κ) : Type (ℓ ⊔ κ) where
  reading finishing : Effect Data Text
  handled : Data → Effect Data Text
  completed : Option Text → Effect Data Text

pub record Event {ℓ κ} (Data : Type ℓ) (Status : Type κ) : Type (ℓ ⊔ κ) where
  pub event_status : Bool
  pub reply : Data
  pub status : Status

module _ {ℓ κ μ} {Data : Type ℓ} {Status : Type κ} {Text : Type μ} (ok : Status → Bool)
    (error_message : Status → Text) (has_promise : Bool) where
  -- `none` is the handler that has been deleted.
  unfoldable pub handle :
      CallStatus → Event Data Status → Option CallStatus × List (Effect Data Text)
  handle startup e =
      if e.event_status then (some process, reading ∷ []) else (some finish, finishing ∷ [])
  handle process e =
      if e.event_status
      then (some process, handled e.reply ∷ reading ∷ [])
      else (some finish, finishing ∷ [])
  handle finish e =
      let error = if ok e.status then none else some (error_message e.status) in
      (none, if has_promise then completed error ∷ [] else [])

  unfoldable pub run :
      List (Event Data Status) → Option CallStatus → Option CallStatus × List (Effect Data Text)
  unfolding handle
  run es none = (none, [])
  run [] (some status) = (some status, [])
  run (e ∷ es) (some status) =
      let after = handle status e in let later = run es after.0 in (later.0, after.1 ++ later.1)

  -- Does each of these events bring a reply?
  unfoldable pub all_replies : List (Event Data Status) → Bool
  all_replies [] = true
  all_replies (e ∷ es) = if e.event_status then all_replies es else false

  -- What is done with the replies: each is handed on before the next is read.
  unfoldable pub handed_on : List (Event Data Status) → List (Effect Data Text)
  handed_on [] = []
  handed_on (e ∷ es) = handled e.reply ∷ reading ∷ handed_on es

  all_replies_head :
      (e : Event Data Status) (es : List (Event Data Status))
      → all_replies (e ∷ es) ≡ true
      → (e.event_status ≡ true) × (all_replies es ≡ true)
  unfolding all_replies
  all_replies_head e es h = ground arith

  -- From the replies on.
  run-process :
      (es : List (Event Data Status)) (end closed : Event Data Status)
      → all_replies es ≡ true
      → end.event_status ≡ false
      → run (es ++ end ∷ closed ∷ []) (some process)
        ≡ (none, handed_on es ++ finishing ∷ (handle finish closed).1)
  unfolding run handed_on
  run-process [] end closed good last = rw last (ap (λ e. (none, finishing ∷ e)) (append-nil _))
  run-process (e ∷ es) end closed good last =
      let (one, rest) = all_replies_head e es good in
      rw one
        (ap (λ p. (p.0, handled e.reply ∷ reading ∷ p.1)) (run-process es end closed rest last))

  -- If the call is opened, brings replies, ends and is closed, the handler reads the first reply,
  -- hands each on in its order before it reads the next, asks for the status at the end, and fulfils
  -- the promise, with an error exactly if that status is not good.
  pub run-replies :
      (opened : Event Data Status) (es : List (Event Data Status)) (end closed : Event Data Status)
      → opened.event_status ≡ true
      → all_replies es ≡ true
      → end.event_status ≡ false
      → run (opened ∷ (es ++ end ∷ closed ∷ [])) (some startup) ≡ (
        none,
        reading
            ∷ (handed_on es
                ++ finishing
                  ∷ (if has_promise
                      then completed
                          (if ok closed.status then none else some (error_message closed.status))
                        ∷ []
                      else [])),
      )
  unfolding run
  run-replies opened es end closed start good last =
      rw start (ap (λ p. (p.0, reading ∷ p.1)) (run-process es end closed good last))
