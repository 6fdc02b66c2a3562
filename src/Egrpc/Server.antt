-- ===== src/Egrpc/Server.antt =====
-- cppkg/egrpc/server_async.h: `AsyncServerCall`, which answers a request once. What a call does to
-- the outside is a list of effects, and the callback is a parameter. A call is its flag `done_`.
pub mod Pool
use cppkg.Base.{
  ℕ, suc, ◌≤◌, ◌≡◌, refl, ◌⊎◌, arith, List, [], ◌∷◌, ◌++◌, Option, none, some, Bool, true, false,
  if◌then◌else◌, inl, inr, Bool-cases,
}

-- `requested` is the construction of the next call, which asks for the next request; `finished` and
-- `finished_with_error` are calls of the responder; `deleted` is `delete this`.
pub data Effect {ℓ κ} (Res : Type ℓ) (Status : Type κ) : Type (ℓ ⊔ κ) where
  requested deleted : Effect Res Status
  finished : Res → Status → Effect Res Status
  finished_with_error : Status → Effect Res Status

-- What the queue, or the server that stops, tells the call.
pub data Event : Type 0 where
  served stopped : Event

module _ {ℓ κ} {Res : Type ℓ} {Status : Type κ} where
  -- The constructor: `done_`, and the effects.
  abbrev pub created : Bool × List (Effect Res Status)
  created = (false, requested ∷ [])

  -- How often a call asks for the next request, answers its own, and is deleted.
  unfoldable pub requests : List (Effect Res Status) → ℕ
  requests [] = 0
  requests (requested ∷ es) = suc (requests es)
  requests (deleted ∷ es) = requests es
  requests (finished r s ∷ es) = requests es
  requests (finished_with_error s ∷ es) = requests es

  unfoldable pub answers : List (Effect Res Status) → ℕ
  answers [] = 0
  answers (requested ∷ es) = answers es
  answers (deleted ∷ es) = answers es
  answers (finished r s ∷ es) = suc (answers es)
  answers (finished_with_error s ∷ es) = suc (answers es)

  unfoldable pub deletions : List (Effect Res Status) → ℕ
  deletions [] = 0
  deletions (requested ∷ es) = deletions es
  deletions (deleted ∷ es) = suc (deletions es)
  deletions (finished r s ∷ es) = deletions es
  deletions (finished_with_error s ∷ es) = deletions es

module _ {ℓ κ μ} {Req : Type ℓ} {Res : Type κ} {Status : Type μ} (ok : Status → Bool)
    (write_call : Req → Status × Res) (req : Req) where
  unfoldable pub answer : Effect Res Status
  answer =
      let (status, reply) = write_call req in
      if ok status then finished reply status else finished_with_error status

  abbrev pub shutdown : Option Bool × List (Effect Res Status)
  shutdown = (none, deleted ∷ [])

  unfoldable pub serve : Bool → Option Bool × List (Effect Res Status)
  serve done = if done then shutdown else (some true, created.1 ++ answer ∷ [])

  -- Each event hands back the tag of the call, which puts none into the queue when it is deleted, so
  -- that none comes after that.
  unfoldable pub step : Event → Option Bool → Option Bool × List (Effect Res Status)
  unfolding serve
  step e none = (none, [])
  step served (some done) = serve done
  step stopped (some done) = shutdown

  unfoldable pub run : List Event → Option Bool → Option Bool × List (Effect Res Status)
  unfolding step
  run [] call = (call, [])
  run (e ∷ es) call =
      let after = step e call in let later = run es after.0 in (later.0, after.1 ++ later.1)

  run-gone : (es : List Event) → run es none ≡ (none, [])
  unfolding run
  run-gone [] = refl
  run-gone (e ∷ es) = rw (run-gone es) refl

  -- A new call that is served twice asks for the next request, answers its own and is deleted: the
  -- answer holds the reply if the status of the callback is good, and only the status otherwise.
  -- Later events change nothing.
  pub run-answers :
      (es : List Event)
      → run (served ∷ served ∷ es) (some false) ≡ (
        none,
        requested
            ∷ (if ok (write_call req).0
                then finished (write_call req).1 (write_call req).0
                else finished_with_error (write_call req).0)
            ∷ deleted
            ∷ [],
      )
  unfolding run answer
  run-answers es = rw (run-gone es) refl

  run-done :
      (es : List Event) → ((run es (some true)).1 ≡ []) ⊎ ((run es (some true)).1 ≡ deleted ∷ [])
  unfolding run
  run-done [] = inl refl
  run-done (served ∷ es) = inr (rw (run-gone es) refl)
  run-done (stopped ∷ es) = inr (rw (run-gone es) refl)

  -- Whatever order a new call is served and stopped in, it answers at most once, it has asked for
  -- the next request exactly if it has answered, and it is deleted at most once.
  pub run-replaced :
      (es : List Event)
      → (answers (run es (some false)).1 ≤ 1)
        × (requests (run es (some false)).1 ≡ answers (run es (some false)).1)
        × (deletions (run es (some false)).1 ≤ 1)
  unfolding run requests answers deletions answer
  run-replaced [] = (omega arith, refl, omega arith)
  run-replaced (stopped ∷ es) = rw (run-gone es) (omega arith, refl, omega arith)
  run-replaced (served ∷ es) = elim (Bool-cases (ok (write_call req).0)) [
    | inl good ↦ elim (run-done es) [
      | inl nothing ↦ rw (good, nothing) (omega arith, refl, omega arith)
      | inr gone ↦ rw (good, gone) (omega arith, refl, omega arith)
    ]
    | inr bad ↦ elim (run-done es) [
      | inl nothing ↦ rw (bad, nothing) (omega arith, refl, omega arith)
      | inr gone ↦ rw (bad, gone) (omega arith, refl, omega arith)
    ]
  ]
