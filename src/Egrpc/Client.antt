-- ===== src/Egrpc/Client.antt =====
-- cppkg/egrpc/client_async.h: `AsyncClientHandler`, a call with one answer that is tried again when it
-- fails. A handler is the number of tries that it has left. Its destructor, in
-- cppkg/egrpc/iclient_async.h, fulfils the promise that the handler still holds. The status of an
-- answer, the reply and the message of a status are parameters.
use mathlib.Core.List.{append-nil}
use cppkg.Base.{
  ℕ, zero, suc, ◌≤◌, ◌≡◌, refl, ap, arith, List, [], ◌∷◌, ◌++◌, Option, none, some, Bool, true,
  false, if◌then◌else◌, length, replicate,
}

-- `requested` is the construction of a handler, which sends the request by `init_`; `handled` is the
-- call of `cb_`; `completed` is `set_value`.
pub data Effect {ℓ κ} (Res : Type ℓ) (Text : Type κ) : Type (ℓ ⊔ κ) where
  requested : Effect Res Text
  handled : Res → Effect Res Text
  completed : Option Text → Effect Res Text

module _ {ℓ κ μ} {Status : Type ℓ} {Res : Type κ} {Text : Type μ} (ok : Status → Bool)
    (error_message : Status → Text) (has_cb has_promise : Bool) where
  abbrev pub destroy : Option Text → List (Effect Res Text)
  destroy error = if has_promise then completed error ∷ [] else []

  -- `handle`, at a status and a reply that have come in: the handler that takes over, and the effects.
  unfoldable pub handle : ℕ → Status × Res → Option ℕ × List (Effect Res Text)
  handle zero (status, reply) =
      if ok status
      then (none, (if has_cb then handled reply ∷ [] else []) ++ destroy none)
      else (none, destroy (some (error_message status)))
  handle (suc nretries) (status, reply) =
      if ok status
      then (none, (if has_cb then handled reply ∷ [] else []) ++ destroy none)
      else (some nretries, requested ∷ [])

  -- One answer after the other.
  unfoldable pub run : List (Status × Res) → Option ℕ → Option ℕ × List (Effect Res Text)
  unfolding handle
  run answers none = (none, [])
  run [] (some nretries) = (some nretries, [])
  run (answer ∷ answers) (some nretries) =
      let after = handle nretries answer in
      let later = run answers after.0 in (later.0, after.1 ++ later.1)

  -- Has every one of these tries failed?
  unfoldable pub all_fail : List (Status × Res) → Bool
  all_fail [] = true
  all_fail (answer ∷ answers) = if ok answer.0 then false else all_fail answers

  all_fail_head :
      (a : Status × Res) (rest : List (Status × Res))
      → all_fail (a ∷ rest) ≡ true
      → (ok a.0 ≡ false) × (all_fail rest ≡ true)
  unfolding all_fail
  all_fail_head a rest h = ground arith

  pub handle-success :
      (nretries : ℕ) (answer : Status × Res)
      → ok answer.0 ≡ true
      → handle nretries answer
        ≡ (none, (if has_cb then handled answer.1 ∷ [] else []) ++ destroy none)
  unfolding handle
  handle-success zero answer good = rw good refl
  handle-success (suc nretries) answer good = rw good refl

  -- If no more tries fail than there are retries, and the next one succeeds, each failure sends the
  -- request again, the callback gets the reply, the promise is fulfilled without an error, and what
  -- would still come in is ignored.
  pub run-success :
      (nretries : ℕ) (failures : List (Status × Res)) (answer : Status × Res)
      (more : List (Status × Res))
      → length failures ≤ nretries
      → all_fail failures ≡ true
      → ok answer.0 ≡ true
      → run (failures ++ answer ∷ more) (some nretries) ≡ (
        none,
        replicate (length failures) requested
            ++ ((if has_cb then handled answer.1 ∷ [] else []) ++ destroy none),
      )
  unfolding run
  run-success nretries [] answer more few failed good =
      rw (handle-success nretries answer good) (ap (λ e. (none, e)) (append-nil _))
  run-success zero (f ∷ fs) answer more few failed good = absurd (omega arith)
  run-success (suc nretries) (f ∷ fs) answer more few failed good =
      let (bad, rest) = all_fail_head f fs failed in
      rw bad (
        ap (λ p. (p.0, requested ∷ p.1))
          (run-success nretries fs answer more (omega arith) rest good))

  -- If every try fails, the retries and one more, each but the last sends the request again, and the
  -- promise is fulfilled with the message of the last.
  pub run-failure :
      (nretries : ℕ) (failures : List (Status × Res)) (answer : Status × Res)
      (more : List (Status × Res))
      → length failures ≡ nretries
      → all_fail failures ≡ true
      → ok answer.0 ≡ false
      → run (failures ++ answer ∷ more) (some nretries)
        ≡ (none, replicate nretries requested ++ destroy (some (error_message answer.0)))
  unfolding run
  run-failure zero [] answer more few failed bad = rw bad (ap (λ e. (none, e)) (append-nil _))
  run-failure (suc nretries) [] answer more few failed bad = absurd (omega arith)
  run-failure zero (f ∷ fs) answer more few failed bad = absurd (omega arith)
  run-failure (suc nretries) (f ∷ fs) answer more few failed bad =
      let (failed', rest) = all_fail_head f fs failed in
      rw failed' (
        ap (λ p. (p.0, requested ∷ p.1))
          (run-failure nretries fs answer more (omega arith) rest bad))
