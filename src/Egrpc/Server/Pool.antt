-- ===== src/Egrpc/Server/Pool.antt =====
-- All calls of one kind that a server of cppkg/egrpc/server_async.h has: each call constructs the
-- next one when it answers.
pub mod Pending
use cppkg.Base.{
  ℕ, zero, suc, ◌+◌, ◌≤◌, ◌≡◌, refl, ap, sym, ◌∙◌, some_inj, arith, List, [], ◌∷◌, ◌++◌, Option,
  none, some, Bool, true, false, ◌&&◌, if◌then◌else◌, length, length-append, length-set, get_elem?,
  set, inl, inr, Bool-cases, Option-cases,
}
use cppkg.Egrpc.Server.{
  Effect, requested, deleted, finished, finished_with_error, Event, served, stopped, requests,
  answers, deletions, created, step, serve, answer,
}

module _ {ℓ κ} {Res : Type ℓ} {Status : Type κ} where
  -- The calls that are constructed among some effects.
  unfoldable pub new_calls : List (Effect Res Status) → List (Option Bool)
  new_calls [] = []
  new_calls (requested ∷ es) = some false ∷ new_calls es
  new_calls (deleted ∷ es) = new_calls es
  new_calls (finished r s ∷ es) = new_calls es
  new_calls (finished_with_error s ∷ es) = new_calls es

module _ {ℓ κ μ} {Req : Type ℓ} {Res : Type κ} {Status : Type μ} (ok : Status → Bool)
    (write_call : Req → Status × Res) where
  -- What happens to the call of a number, whose request gRPC has filled in.
  unfoldable pub pool_step :
      ℕ × Req × Event → List (Option Bool) → List (Option Bool) × List (Effect Res Status)
  unfolding new_calls
  pool_step (i, req, e) calls = elim (get_elem? calls i) [
    | none ↦ (calls, [])
    | some call ↦
        let after = step ok write_call req e call in
        (set calls i after.0 ++ new_calls after.1, after.1)
  ]

  unfoldable pub pool_run :
      List (ℕ × Req × Event) → List (Option Bool) → List (Option Bool) × List (Effect Res Status)
  unfolding pool_step
  pool_run [] calls = (calls, [])
  pool_run (e ∷ es) calls =
      let after = pool_step e calls in
      let later = pool_run es after.0 in (later.0, after.1 ++ later.1)

  -- A server that starts with one call.
  unfoldable pub server_run : List (ℕ × Req × Event) → List (Option Bool) × List (Effect Res Status)
  unfolding pool_run
  server_run es = pool_run es (some (created {Res = Res} {Status = Status}).0 ∷ [])
