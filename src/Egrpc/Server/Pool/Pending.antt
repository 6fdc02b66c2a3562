-- ===== src/Egrpc/Server/Pool/Pending.antt =====
-- One call at a time waits for a request.
use cppkg.Base.{
  count, count-append, count-set, ℕ, suc, ◌+◌, ◌≤◌, ◌≡◌, refl, ◌∙◌, arith, List, [], ◌∷◌, ◌++◌,
  Option, none, some, Bool, true, false, if◌then◌else◌, length, length-append, length-set,
  get_elem?, set, inl, inr, Bool-cases, Option-cases,
}
use cppkg.Egrpc.Server.{
  Effect, requested, deleted, finished, finished_with_error, Event, served, stopped, requests,
  answers, deletions, step, serve, answer,
}
use cppkg.Egrpc.Server.Pool.{new_calls, pool_step, pool_run, server_run}

-- Is a call there, and does it wait for a request?
abbrev pub is_alive : Option Bool → ℕ
is_alive none = 0
is_alive (some done) = 1

abbrev pub is_pending : Option Bool → ℕ
is_pending none = 0
is_pending (some done) = if done then 0 else 1

-- Is no call told to stop?
unfoldable pub no_stop {ℓ} : {Req : Type ℓ} → List (ℕ × Req × Event) → Bool
no_stop [] = true
no_stop ((i, req, served) ∷ es) = no_stop es
no_stop ((i, req, stopped) ∷ es) = false

module _ {ℓ κ} {Res : Type ℓ} {Status : Type κ} where
  -- A request belongs to each of the new calls, which are there and wait for it.
  new_calls-requests :
      (es : List (Effect Res Status))
      → (length (new_calls es) ≡ requests es)
        × (count is_alive (new_calls es) ≡ requests es)
        × (count is_pending (new_calls es) ≡ requests es)
  unfolding new_calls requests count
  new_calls-requests [] = (refl, refl, refl)
  new_calls-requests (requested ∷ es) =
      let (all, alive, pending) = new_calls-requests es in
      (omega (arith, all), omega (arith, alive), omega (arith, pending))
  new_calls-requests (deleted ∷ es) = new_calls-requests es
  new_calls-requests (finished r s ∷ es) = new_calls-requests es
  new_calls-requests (finished_with_error s ∷ es) = new_calls-requests es

  requests-append :
      (xs ys : List (Effect Res Status)) → requests (xs ++ ys) ≡ requests xs + requests ys
  unfolding requests
  requests-append [] ys = ground arith
  requests-append (requested ∷ xs) ys = omega (arith, requests-append xs ys)
  requests-append (deleted ∷ xs) ys = requests-append xs ys
  requests-append (finished r s ∷ xs) ys = requests-append xs ys
  requests-append (finished_with_error s ∷ xs) ys = requests-append xs ys

  answers-append : (xs ys : List (Effect Res Status)) → answers (xs ++ ys) ≡ answers xs + answers ys
  unfolding answers
  answers-append [] ys = ground arith
  answers-append (requested ∷ xs) ys = answers-append xs ys
  answers-append (deleted ∷ xs) ys = answers-append xs ys
  answers-append (finished r s ∷ xs) ys = omega (arith, answers-append xs ys)
  answers-append (finished_with_error s ∷ xs) ys = omega (arith, answers-append xs ys)

  deletions-append :
      (xs ys : List (Effect Res Status)) → deletions (xs ++ ys) ≡ deletions xs + deletions ys
  unfolding deletions
  deletions-append [] ys = ground arith
  deletions-append (requested ∷ xs) ys = deletions-append xs ys
  deletions-append (deleted ∷ xs) ys = omega (arith, deletions-append xs ys)
  deletions-append (finished r s ∷ xs) ys = deletions-append xs ys
  deletions-append (finished_with_error s ∷ xs) ys = deletions-append xs ys

module _ {ℓ κ μ} {Req : Type ℓ} {Res : Type κ} {Status : Type μ} (ok : Status → Bool)
    (write_call : Req → Status × Res) where
  -- What an event does to the numbers.
  Counts : Option Bool → Option Bool × List (Effect Res Status) → Type 0
  Counts call after =
      (answers after.1 ≡ requests after.1)
      × (deletions after.1 + is_alive after.0 ≡ is_alive call)
      × (is_pending after.0 + requests after.1 ≤ is_pending call)

  step-Counts :
      (req : Req) (e : Event) (call : Option Bool) → Counts call (step ok write_call req e call)
  unfolding Counts step serve answer answers requests deletions
  step-Counts req served none = (refl, refl, omega arith)
  step-Counts req stopped none = (refl, refl, omega arith)
  step-Counts req stopped (some done) = (refl, omega arith, omega arith)
  step-Counts req served (some true) = (refl, refl, omega arith)
  step-Counts req served (some false) = elim (Bool-cases (ok (write_call req).0)) [
    | inl good ↦ rw good (refl, refl, omega arith)
    | inr bad ↦ rw bad (refl, refl, omega arith)
  ]

  step-served :
      (req : Req) (call : Option Bool)
      → is_pending (step ok write_call req served call).0
          + requests (step ok write_call req served call).1
        ≡ is_pending call
  unfolding step serve answer requests
  step-served req none = refl
  step-served req (some true) = refl
  step-served req (some false) = elim (Bool-cases (ok (write_call req).0)) [
    | inl good ↦ rw good refl
    | inr bad ↦ rw bad refl
  ]

  -- The same of all calls.
  PoolCounts : List (Option Bool) → List (Option Bool) × List (Effect Res Status) → Type 0
  PoolCounts calls after =
      (answers after.1 ≡ requests after.1)
      × (length after.0 ≡ length calls + requests after.1)
      × (deletions after.1 + count is_alive after.0 ≡ count is_alive calls + requests after.1)
      × (count is_pending after.0 ≤ count is_pending calls)

  pool_step-PoolCounts :
      (req : Req) (i : ℕ) (e : Event) (calls : List (Option Bool))
      → PoolCounts calls (pool_step ok write_call (i, req, e) calls)
  unfolding PoolCounts Counts pool_step answers requests deletions
  pool_step-PoolCounts req i e calls = elim (Option-cases (get_elem? calls i)) [
    | inl missing ↦ rw (missing, pool_step) (refl, ground arith, ground arith, omega arith)
    | inr (call, here) ↦
        let after = step ok write_call req e call in
        let (answered, alive, pending) = step-Counts req e call in
        let (new_all, new_alive, new_pending) = new_calls-requests after.1 in
        rw (here, pool_step)
          (
            answered,
            omega (
              arith,
              length-append (set calls i after.0) (new_calls after.1),
              length-set calls i after.0,
              new_all,
            ),
            omega (
              arith,
              alive,
              new_alive,
              count-append is_alive (set calls i after.0) (new_calls after.1),
              count-set is_alive calls i call after.0 here,
            ),
            omega (
              arith,
              pending,
              new_pending,
              count-append is_pending (set calls i after.0) (new_calls after.1),
              count-set is_pending calls i call after.0 here,
            ),
          )
  ]

  pool_step-served :
      (req : Req) (i : ℕ) (calls : List (Option Bool))
      → count is_pending (pool_step ok write_call (i, req, served) calls).0 ≡ count is_pending calls
  unfolding pool_step
  pool_step-served req i calls = elim (Option-cases (get_elem? calls i)) [
    | inl missing ↦ rw (missing, pool_step) refl
    | inr (call, here) ↦
        let after = step ok write_call req served call in
        let (new_all, new_alive, new_pending) = new_calls-requests after.1 in
        rw (here, pool_step)
          (omega (
            arith,
            step-served req call,
            new_pending,
            count-append is_pending (set calls i after.0) (new_calls after.1),
            count-set is_pending calls i call after.0 here,
          ))
  ]

  pool_run-PoolCounts :
      (es : List (ℕ × Req × Event)) (calls : List (Option Bool))
      → PoolCounts calls (pool_run ok write_call es calls)
  unfolding PoolCounts pool_run answers requests deletions
  pool_run-PoolCounts [] calls = (refl, ground arith, ground arith, omega arith)
  pool_run-PoolCounts ((i, req, e) ∷ es) calls =
      let after = pool_step ok write_call (i, req, e) calls in
      let later = pool_run ok write_call es after.0 in
      let (answered, all, alive, pending) = pool_step-PoolCounts req i e calls in
      let (answered', all', alive', pending') = pool_run-PoolCounts es after.0 in
      (
        omega (
          arith,
          answered,
          answered',
          requests-append after.1 later.1,
          answers-append after.1 later.1,
        ),
        omega (arith, all, all', requests-append after.1 later.1),
        omega (
          arith,
          alive,
          alive',
          requests-append after.1 later.1,
          deletions-append after.1 later.1,
        ),
        omega (arith, pending, pending'),
      )

  pool_run-served :
      (es : List (ℕ × Req × Event)) (calls : List (Option Bool))
      → no_stop es ≡ true
      → count is_pending (pool_run ok write_call es calls).0 ≡ count is_pending calls
  unfolding pool_run no_stop
  pool_run-served [] calls h = refl
  pool_run-served ((i, req, served) ∷ es) calls h =
      pool_run-served es (pool_step ok write_call (i, req, served) calls).0 h
      ∙ pool_step-served req i calls
  pool_run-served ((i, req, stopped) ∷ es) calls h = absurd (ground (arith, h))

  -- If no call is told to stop, then, whatever calls are served, in whatever order, one call waits
  -- for a request; there have been as many answers as further requests, and one call more than
  -- these; and the calls that are there and those that were deleted are all.
  pub server_run-pending :
      (es : List (ℕ × Req × Event))
      → no_stop es ≡ true
      → (count is_pending (server_run ok write_call es).0 ≡ 1)
        × (answers (server_run ok write_call es).1 ≡ requests (server_run ok write_call es).1)
        × (length (server_run ok write_call es).0 ≡ suc (requests (server_run ok write_call es).1))
        × (deletions (server_run ok write_call es).1
              + count is_alive (server_run ok write_call es).0
            ≡ suc (requests (server_run ok write_call es).1))
  unfolding PoolCounts count server_run
  server_run-pending es h =
      let (answered, all, alive, pending) = pool_run-PoolCounts es (some false ∷ []) in
      (pool_run-served es (some false ∷ []) h, answered, omega (arith, all), omega (arith, alive))
