-- ===== src/Egrpc/ServerStream/Serves.antt =====
-- What a call writes when the queue serves it until it is deleted.
use cppkg.Base.{
  ℕ, zero, suc, ◌>>=◌, ◌≡◌, refl, ap, arith, List, [], ◌∷◌, ◌++◌, Option, none, some, Bool, true,
  false, if◌then◌else◌, length, map, replicate, ◌⊎◌, inl, inr, Bool-cases,
}
use cppkg.Egrpc.{process}
use cppkg.Egrpc.ServerStream.{
  Effect, requested, deleted, wrote, finished, Call, created, served, next_reply, serve_process,
  serve_startup, shutdown, serve, step, run,
}

-- One effect more in front.
run_before {ℓ κ} :
    {C : Type ℓ} {E : Type κ} (ran : Option (C × List E)) (e : E) (es : List E) (call : C)
    (all : List E)
    → ◌>>=◌ {B = C × List E} ran (λ later. some (later.0, es ++ later.1)) ≡ some (call, all)
    → ◌>>=◌ {B = C × List E} ran (λ later. some (later.0, (e ∷ es) ++ later.1))
      ≡ some (call, e ∷ all)
run_before none e es call all h = absurd (ground (arith, h))
run_before {C = C} {E = E} (some later) e es call all h =
    ap (λ o. ◌>>=◌ {B = C × List E} o (λ p. some (p.0, e ∷ p.1))) h

module _ {ℓ κ μ ν} {Req : Type ℓ} {A : Type κ} {Res : Type μ} {Status : Type ν} (ok : Status → Bool)
    (success cancelled : Status) (empty_reply : Res) (init_call : Req → Status × List A)
    (write_call : Req → A → Res → Bool × Res) (req : Req) where
  -- The replies that the callback makes of a range: each starts from an empty reply, and keeps what
  -- the attempts that failed since the last one left in it.
  unfoldable pub replies : List A → Res → List Res
  replies [] reply = []
  replies (a ∷ rest) reply =
      let attempt = write_call req a reply in
      if attempt.0 then attempt.1 ∷ replies rest empty_reply else replies rest attempt.1

  -- One run of the inner loop finds the first of these replies, or none.
  First : List A → Res → Type (κ ⊔ μ)
  First rest reply =
      ((r : Res) × (left : List A) × (next_reply ok success cancelled empty_reply init_call
            write_call req rest reply
          ≡ (true, r, left))
        × (replies rest reply ≡ r ∷ replies left empty_reply))
      ⊎ ((r : Res) × (left : List A) × (next_reply ok success cancelled empty_reply init_call
              write_call req rest reply
            ≡ (false, r, left))
          × (replies rest reply ≡ []))

  next_reply-First : (rest : List A) (reply : Res) → First rest reply
  unfolding next_reply replies First
  next_reply-First [] reply = inr (reply, [], refl, refl)
  next_reply-First (a ∷ rest) reply =
      let again = next_reply-First rest (write_call req a reply).1 in
      elim (Bool-cases (write_call req a reply).0) [
        | inl made ↦ inl ((write_call req a reply).1, rest, rw made refl, rw made refl)
        | inr failed ↦ rw failed again
      ]

  abbrev served_times : ℕ → Option (Call A) → Option (Option (Call A) × List (Effect Res Status))
  served_times count call =
      run ok success cancelled empty_reply init_call write_call req (replicate count served) call

  -- One serving for each reply, one to finish and one to be deleted.
  pub process-served :
      (count : ℕ) (rest : List A)
      → length (replies rest empty_reply) ≡ count
      → served_times (suc (suc count)) (some (record { status = process; rest = rest }))
        ≡ some (none, map wrote (replies rest empty_reply) ++ finished success ∷ deleted ∷ [])
  unfolding run step serve serve_process First
  process-served zero rest size = elim (next_reply-First rest empty_reply) [
    | inl (r, left, runs, all) ↦ absurd (omega (arith, rw all at size))
    | inr (r, left, runs, all) ↦ rw runs (rw all refl)
  ]
  process-served (suc count) rest size = elim (next_reply-First rest empty_reply) [
    | inl (r, left, runs, all) ↦
        let after = process-served count left (omega (arith, rw all at size)) in
        rw runs (rw all (ap (λ o. o >>= (λ p. some (p.0, wrote r ∷ p.1))) after))
    | inr (r, left, runs, all) ↦ absurd (omega (arith, rw all at size))
  ]

  -- If the initialisation of the request succeeds, a new call that is served once for each reply,
  -- and twice more, asks for the next request, writes the replies in their order, finishes with
  -- success and is deleted.
  pub serve-replies :
      ok (init_call req).0 ≡ true
      → served_times (suc (suc (length (replies (init_call req).1 empty_reply)))) (some created)
        ≡ some (
          none,
          requested
              ∷ (map wrote (replies (init_call req).1 empty_reply)
                  ++ finished success ∷ deleted ∷ []),
        )
  unfolding run step serve serve_startup
  serve-replies good =
      let made =
        serve_process ok success cancelled empty_reply init_call write_call req (init_call req).1 in
      rw good (
        run_before (served_times (suc (length (replies (init_call req).1 empty_reply))) made.0)
          requested made.1 none
          (map wrote (replies (init_call req).1 empty_reply) ++ finished success ∷ deleted ∷ [])
          (process-served (length (replies (init_call req).1 empty_reply)) (init_call req).1 refl))

  -- If the initialisation of the request fails, a new call that is served twice asks for the next
  -- request, finishes with the status of the failure and is deleted.
  pub serve-failed :
      ok (init_call req).0 ≡ false
      → served_times 2 (some created)
        ≡ some (none, requested ∷ finished (init_call req).0 ∷ deleted ∷ [])
  unfolding run step serve serve_startup shutdown
  serve-failed bad = rw bad refl
