-- ===== src/Egrpc/ServerStream/Answers.antt =====
-- What a call does once, whatever the queue tells it, and when its tag outlives it.
use cppkg.Base.{
  ℕ, suc, ◌+◌, ◌≤◌, ◌≡◌, refl, arith, List, [], ◌∷◌, ◌++◌, Option, none, some, Bool, true, false,
  if◌then◌else◌, ◌>>=◌, ap, ◌∙◌, inl, inr, ◌⊎◌, Bool-cases,
}
use cppkg.Egrpc.{CallStatus, startup, process, finish}
use cppkg.Egrpc.ServerStream.{
  Effect, requested, deleted, wrote, finished, Call, created, tags_put, queue_run, Event, served,
  stopped, next_reply, serve_process, serve_startup, shutdown, serve, step,
}

module _ {ℓ κ} {Res : Type ℓ} {Status : Type κ} where
  -- How often a call asks the writer to finish, and how often it is deleted.
  unfoldable pub finishes : List (Effect Res Status) → ℕ
  finishes [] = 0
  finishes (requested ∷ es) = finishes es
  finishes (deleted ∷ es) = finishes es
  finishes (wrote r ∷ es) = finishes es
  finishes (finished s ∷ es) = suc (finishes es)

  unfoldable pub deletions : List (Effect Res Status) → ℕ
  deletions [] = 0
  deletions (requested ∷ es) = deletions es
  deletions (deleted ∷ es) = suc (deletions es)
  deletions (wrote r ∷ es) = deletions es
  deletions (finished s ∷ es) = deletions es

  finishes-append :
      (es fs : List (Effect Res Status)) → finishes (es ++ fs) ≡ finishes es + finishes fs
  unfolding finishes
  finishes-append [] fs = omega arith
  finishes-append (requested ∷ es) fs = finishes-append es fs
  finishes-append (deleted ∷ es) fs = finishes-append es fs
  finishes-append (wrote r ∷ es) fs = finishes-append es fs
  finishes-append (finished s ∷ es) fs = omega (arith, finishes-append es fs)

  deletions-append :
      (es fs : List (Effect Res Status)) → deletions (es ++ fs) ≡ deletions es + deletions fs
  unfolding deletions
  deletions-append [] fs = omega arith
  deletions-append (requested ∷ es) fs = deletions-append es fs
  deletions-append (deleted ∷ es) fs = omega (arith, deletions-append es fs)
  deletions-append (wrote r ∷ es) fs = deletions-append es fs
  deletions-append (finished s ∷ es) fs = deletions-append es fs

-- How often a call in this state can still finish, and whether it is there no more.
abbrev to_finish : CallStatus → ℕ
to_finish startup = 1
to_finish process = 1
to_finish finish = 0

unfoldable pub left_to_finish {ℓ} : {A : Type ℓ} → Option (Call A) → ℕ
left_to_finish none = 0
left_to_finish (some call) = to_finish call.status

unfoldable pub gone {ℓ} : {A : Type ℓ} → Option (Call A) → ℕ
gone none = 1
gone (some call) = 0

-- Is a call told to stop between two replies?
abbrev pub breaks : Event → CallStatus → Bool
breaks served _ = false
breaks stopped startup = false
breaks stopped process = true
breaks stopped finish = false

module _ {ℓ κ μ ν} {Req : Type ℓ} {A : Type κ} {Res : Type μ} {Status : Type ν} (ok : Status → Bool)
    (success cancelled : Status) (empty_reply : Res) (init_call : Req → Status × List A)
    (write_call : Req → A → Res → Bool × Res) (req : Req) where
  -- At most so many requests to finish, and one tag in the queue as long as the call is there.
  Fair : ℕ → Option (Call A) × List (Effect Res Status) → Type 0
  Fair budget after =
      (finishes after.1 + left_to_finish after.0 ≤ budget)
      × (deletions after.1 ≡ gone after.0)
      × (tags_put after.1 + gone after.0 ≡ 1)

  serve_process-Fair :
      (rest : List A)
      → Fair 1 (serve_process ok success cancelled empty_reply init_call write_call req rest)
  unfolding serve_process Fair finishes deletions left_to_finish gone tags_put
  serve_process-Fair rest =
      elim (Bool-cases
        (next_reply ok success cancelled empty_reply init_call write_call req rest empty_reply).0) [
          | inl made ↦ rw made (omega arith, refl, refl)
          | inr failed ↦ rw failed (omega arith, refl, refl)
        ]

  serve_startup-Fair :
      (rest : List A)
      → Fair 1 (serve_startup ok success cancelled empty_reply init_call write_call req rest)
  unfolding serve_startup Fair finishes deletions left_to_finish gone tags_put
  serve_startup-Fair rest = elim (Bool-cases (ok (init_call req).0)) [
    | inl good ↦ rw good (serve_process-Fair (init_call req).1)
    | inr bad ↦ rw bad (omega arith, refl, refl)
  ]

  step-Fair :
      (e : Event) (status : CallStatus) (rest : List A)
      → breaks e status ≡ false
      → Fair (to_finish status) (
          step ok success cancelled empty_reply init_call write_call req e
            (record { status = status; rest = rest }))
  unfolding step serve shutdown left_to_finish gone Fair finishes deletions tags_put
  step-Fair served startup rest h = serve_startup-Fair rest
  step-Fair served process rest h = serve_process-Fair rest
  step-Fair served finish rest h = (omega arith, refl, refl)
  step-Fair stopped startup rest h = (omega arith, refl, refl)
  step-Fair stopped process rest h = absurd (ground (arith, h))
  step-Fair stopped finish rest h = (omega arith, refl, refl)

  step-breaks :
      (e : Event) (status : CallStatus) (rest : List A)
      → breaks e status ≡ true
      → step ok success cancelled empty_reply init_call write_call req e
          (record { status = status; rest = rest })
        ≡ (none, finished cancelled ∷ deleted ∷ [])
  unfolding step shutdown
  step-breaks served _ rest h = absurd (ground (arith, h))
  step-breaks stopped startup rest h = absurd (ground (arith, h))
  step-breaks stopped process rest h = refl
  step-breaks stopped finish rest h = absurd (ground (arith, h))

  -- Is the call told to stop between two replies, by one of these events?
  unfoldable pub broken : List Event → Option (Call A) → Bool
  broken [] call = false
  broken (e ∷ es) none = false
  broken (e ∷ es) (some call) =
      let later =
        broken es (step ok success cancelled empty_reply init_call write_call req e call).0 in
      if breaks e call.status then true else later

  run_from :
      List Event → Option (Call A) → ℕ → Option (Option (Call A) × ℕ × List (Effect Res Status))
  run_from es call tags =
      queue_run ok success cancelled empty_reply init_call write_call req es call tags

  -- How a run can end: in order, or with a tag of the deleted call in the queue.
  InOrder : ℕ → List Event → Option (Call A) → ℕ → Type (κ ⊔ μ ⊔ ν)
  InOrder budget es call tags =
      (broken es call ≡ false)
      × (after : Option (Call A)) × (left : ℕ) × (log : List (Effect Res Status)) × (run_from es
            call tags
          ≡ some (after, left, log))
      × (finishes log + left_to_finish after ≤ budget)
      × (deletions log ≡ gone after)
      × (left + gone after ≡ 1)

  Dangles : List Event → Option (Call A) → ℕ → Type (κ ⊔ μ ⊔ ν)
  Dangles es call tags =
      (broken es call ≡ true) × ((e : Event) → run_from (es ++ e ∷ []) call tags ≡ none)

  dangling : (es : List Event) (e : Event) → run_from (es ++ e ∷ []) none 1 ≡ none
  unfolding run_from queue_run
  dangling [] e = refl
  dangling (e' ∷ es) e = refl

  no_tags : (es : List Event) (call : Option (Call A)) → run_from es call 0 ≡ some (call, 0, [])
  unfolding run_from queue_run
  no_tags [] call = refl
  no_tags (e ∷ es) call = refl

  -- What has happened before.
  abbrev onto :
      Option (Option (Call A) × ℕ × List (Effect Res Status))
      → List (Effect Res Status)
      → Option (Option (Call A) × ℕ × List (Effect Res Status))
  onto ran fx = do later ← ran; some (later.0, later.1, fx ++ later.2)

  broken_gone : (es : List Event) → broken es none ≡ false
  unfolding broken
  broken_gone [] = refl
  broken_gone (e ∷ es) = refl

  -- One event, which takes out the tag.
  run_event :
      (e : Event) (es : List Event) (call : Call A) (st : Option (Call A))
      (fx : List (Effect Res Status)) (tags : ℕ)
      → step ok success cancelled empty_reply init_call write_call req e call ≡ (st, fx)
      → tags_put fx ≡ tags
      → run_from (e ∷ es) (some call) 1 ≡ onto (run_from es st tags) fx
  unfolding run_from queue_run
  run_event e es call st fx tags stepped put =
      let count : 0 + tags_put fx ≡ tags = omega (arith, put) in
      rw stepped (ap (λ k. onto (run_from es st k) fx) count)

  run-Fair :
      (budget : ℕ) (e : Event) (es : List Event) (call : Call A) (st : Option (Call A))
      (fx : List (Effect Res Status))
      → step ok success cancelled empty_reply init_call write_call req e call ≡ (st, fx)
      → breaks e call.status ≡ false
      → Fair budget (st, fx)
      → ((c : Call A)
          → st ≡ some c
          → InOrder (to_finish c.status) es (some c) 1 ⊎ Dangles es (some c) 1)
      → InOrder budget (e ∷ es) (some call) 1 ⊎ Dangles (e ∷ es) (some call) 1
  unfolding Fair InOrder Dangles gone left_to_finish broken finishes deletions
  run-Fair budget e es call none fx stepped smooth (few, deleted_once, tag) rest =
      let put : tags_put fx ≡ 0 = omega (arith, tag) in
      inl (
        rw (smooth, stepped) (broken_gone es),
        none,
        0,
        fx ++ [],
        run_event e es call none fx 0 stepped put ∙ ap (λ r. onto r fx) (no_tags es none),
        omega (arith, few, finishes-append fx []),
        omega (arith, deleted_once, deletions-append fx []),
        refl,
      )
  run-Fair budget e es call (some c) fx stepped smooth (few, deleted_once, tag) rest =
      let put : tags_put fx ≡ 1 = omega (arith, tag) in
      elim (rest c refl) [
        | inl (unbroken, after, left, log, ran, few', deleted', tag') ↦ inl (
          rw (smooth, stepped) unbroken,
          after,
          left,
          fx ++ log,
          run_event e es call (some c) fx 1 stepped put ∙ ap (λ r. onto r fx) ran,
          omega (arith, few, few', finishes-append fx log),
          omega (arith, deleted_once, deleted', deletions-append fx log),
          tag',
        )
        | inr (broke, next) ↦ inr (
          rw (smooth, stepped) broke,
          λ e'.
              run_event e (es ++ e' ∷ []) call (some c) fx 1 stepped put
              ∙ ap (λ r. onto r fx) (next e'),
        )
      ]

  run_ends :
      (es : List Event) (call : Call A)
      → InOrder (to_finish call.status) es (some call) 1 ⊎ Dangles es (some call) 1
  unfolding InOrder Dangles broken run_from queue_run finishes deletions gone left_to_finish
      tags_put
  run_ends [] call = inl (refl, some call, 1, [], refl, omega arith, refl, refl)
  run_ends (e ∷ es) call = elim (Bool-cases (breaks e call.status)) [
    | inl hit ↦ inr (
      rw hit refl,
      λ next.
          run_event e (es ++ next ∷ []) call none (finished cancelled ∷ deleted ∷ []) 1
            (step-breaks e call.status call.rest hit) refl
          ∙ ap (λ r. onto r (finished cancelled ∷ deleted ∷ [])) (dangling es next),
    )
    | inr smooth ↦
        let after = step ok success cancelled empty_reply init_call write_call req e call in
        run-Fair (to_finish call.status) e es call after.0 after.1 refl smooth
          (step-Fair e call.status call.rest smooth) (λ c same. run_ends es c)
  ]

  -- Each event hands back a tag that a new call has put into the queue. Unless the call is told to
  -- stop between two replies, no event reaches a call that has been deleted: the call asks to finish
  -- at most once, and not again if it is in its last status, it is deleted once if it is not there
  -- any more, and never while it is, and one tag of it is in the queue as long as it is there, and
  -- none when it is deleted. If it is told to stop between two replies, then whatever event comes
  -- after all these reaches a deleted call.
  pub queue_run-tags :
      (es : List Event)
      → ((broken es (some created) ≡ false)
          × (after : Option (Call A)) × (tags : ℕ) × (log : List (Effect Res Status)) × (queue_run
                ok success cancelled empty_reply init_call write_call req es
                (some created)
                1
              ≡ some (after, tags, log))
          × (finishes log + left_to_finish after ≤ 1)
          × (deletions log ≡ gone after)
          × (tags + gone after ≡ 1))
        ⊎ ((broken es (some created) ≡ true)
            × ((e : Event)
                → queue_run ok success cancelled empty_reply init_call write_call req
                    (es ++ e ∷ [])
                    (some created)
                    1
                  ≡ none))
  unfolding InOrder Dangles run_from
  queue_run-tags es = run_ends es created
