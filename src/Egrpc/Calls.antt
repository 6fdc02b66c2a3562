-- ===== src/Egrpc/Calls.antt =====
-- The calls of cppkg/egrpc/client_async.h, for whose promises `wait_for` of
-- cppkg/egrpc/iclient_async.cc waits.
use cppkg.Base.{
  ℕ, zero, suc, ◌<◌, ◌≡◌, refl, ap, ap₂, sym, ◌∙◌, arith, List, [], ◌∷◌, ◌++◌, Option, none, some,
  Bool, true, false, ◌&&◌, if◌then◌else◌, ◌==◌, ltb, length, take, get_elem?, Bool-cases, inl, inr,
}
use cppkg.Egrpc.Client.{
  Effect, requested, handled, completed, handle, handle-success, run, all_fail,
}
use cppkg.Egrpc.Wait.{Promise, Ending, wait_for}
use cppkg.Egrpc.Wait.Ready.{is_in, ready, errors, wait_for-errors, error_at}

-- The promises of so many calls, from a number on.
unfoldable pub indices : ℕ → ℕ → List ℕ
indices i zero = []
indices i (suc n) = i ∷ indices (suc i) n

is_in-indices : (i j n : ℕ) → i < j → is_in i (indices j n) ≡ false
unfolding indices
is_in-indices i j zero h = refl
is_in-indices i j (suc n) h =
    let apart : (i == j) ≡ false = ground (arith, h) in
    rw apart (is_in-indices i (suc j) n (omega arith))

get_elem?-middle {ℓ} :
    {A : Type ℓ} (xs : List A) (a : A) (ys : List A) → get_elem? (xs ++ a ∷ ys) (length xs) ≡ some a
get_elem?-middle [] a ys = refl
get_elem?-middle (x ∷ xs) a ys = get_elem?-middle xs a ys

length-snoc {ℓ} : {A : Type ℓ} (xs : List A) (a : A) → length (xs ++ a ∷ []) ≡ suc (length xs)
length-snoc [] a = refl
length-snoc (x ∷ xs) a = ap suc (length-snoc xs a)

append-snoc {ℓ} :
    {A : Type ℓ} (xs : List A) (a : A) (ys : List A) → (xs ++ a ∷ []) ++ ys ≡ xs ++ a ∷ ys
append-snoc [] a ys = refl
append-snoc (x ∷ xs) a ys = ap (λ l. x ∷ l) (append-snoc xs a ys)

-- What the promise of a call is set to, if it is.
unfoldable pub promised {ℓ κ} :
    {Res : Type ℓ} {Text : Type κ} → List (Effect Res Text) → Option (Option Text)
promised [] = none
promised (requested ∷ es) = promised es
promised (handled reply ∷ es) = promised es
promised (completed error ∷ es) = some error

error_at-set {ℓ} :
    {Text : Type ℓ} (error : Option Text)
    → error_at (some (record { retrieved = false; value = some error }))
      ≡ elim error [ none ↦ [] | some err ↦ err ∷ [] ]
error_at-set none = refl
error_at-set (some err) = refl

module _ {ℓ κ μ} {Status : Type ℓ} {Res : Type κ} {Text : Type μ} (ok : Status → Bool)
    (error_message : Status → Text) (has_cb : Bool) where
  -- A call has its number of retries and its answers.
  abbrev pub promise_of : ℕ × List (Status × Res) → Promise Text
  promise_of call = record {
    retrieved = false;
    value = promised (run ok error_message has_cb true call.1 (some call.0)).1;
  }

  unfoldable pub promises_of : List (ℕ × List (Status × Res)) → List (Promise Text)
  promises_of [] = []
  promises_of (call ∷ calls) = promise_of call ∷ promises_of calls

  -- Is there an answer for each try of each call?
  unfoldable pub answered : List (ℕ × List (Status × Res)) → Bool
  answered [] = true
  answered (call ∷ calls) = ltb call.0 (length call.1) && answered calls

  -- The message of the last answer, if all tries fail.
  unfoldable pub call_error : ℕ × List (Status × Res) → Option Text
  call_error call =
      if all_fail ok error_message has_cb true (take (suc call.0) call.1)
      then elim (get_elem? call.1 call.0) [
        | none ↦ none
        | some answer ↦ some (error_message answer.0)
      ]
      else none

  promised-success :
      (n : ℕ) (a : Status × Res) (rest : List (Status × Res))
      → ok a.0 ≡ true
      → promised (run ok error_message has_cb true (a ∷ rest) (some n)).1 ≡ some none
  unfolding promised run
  promised-success n a rest good =
      rw (handle-success ok error_message has_cb true n a good)
        (elim (Bool-cases has_cb) [ inl with_cb ↦ rw with_cb refl | inr without ↦ rw without refl ])

  call_error-success :
      (n : ℕ) (a : Status × Res) (rest : List (Status × Res))
      → ok a.0 ≡ true
      → call_error (n, a ∷ rest) ≡ none
  unfolding call_error all_fail
  call_error-success n a rest good = rw good refl

  promised-failure :
      (n : ℕ) (a : Status × Res) (rest : List (Status × Res))
      → ok a.0 ≡ false
      → promised (run ok error_message has_cb true (a ∷ rest) (some (suc n))).1
        ≡ promised (run ok error_message has_cb true rest (some n)).1
  unfolding promised run handle
  promised-failure n a rest bad = rw bad refl

  call_error-failure :
      (n : ℕ) (a : Status × Res) (rest : List (Status × Res))
      → ok a.0 ≡ false
      → call_error (suc n, a ∷ rest) ≡ call_error (n, rest)
  unfolding call_error all_fail
  call_error-failure n a rest bad = rw bad refl

  last_failure :
      (a : Status × Res) (rest : List (Status × Res))
      → ok a.0 ≡ false
      → promised (run ok error_message has_cb true (a ∷ rest) (some 0)).1
        ≡ some (call_error (0, a ∷ rest))
  unfolding promised run handle call_error all_fail
  last_failure a rest bad = rw bad refl

  -- With an answer for each try, the promise is set, to the error of the call.
  promised-run :
      (n : ℕ) (answers : List (Status × Res))
      → n < length answers
      → promised (run ok error_message has_cb true answers (some n)).1
        ≡ some (call_error (n, answers))
  promised-run n [] h = absurd (omega arith)
  promised-run zero (a ∷ rest) h = elim (Bool-cases (ok a.0)) [
    | inl good ↦ promised-success 0 a rest good ∙ ap some (sym (call_error-success 0 a rest good))
    | inr bad ↦ last_failure a rest bad
  ]
  promised-run (suc n) (a ∷ rest) h = elim (Bool-cases (ok a.0)) [
    | inl good ↦
        promised-success (suc n) a rest good
        ∙ ap some (sym (call_error-success (suc n) a rest good))
    | inr bad ↦
        promised-failure n a rest bad
        ∙ promised-run n rest (omega arith)
        ∙ ap some (sym (call_error-failure n a rest bad))
  ]

  -- What the calls report, in their order.
  unfoldable pub call_errors : List (ℕ × List (Status × Res)) → List Text
  call_errors [] = []
  call_errors (call ∷ calls) =
      elim (call_error call) [ none ↦ [] | some err ↦ err ∷ [] ] ++ call_errors calls

  promise_of-set :
      (call : ℕ × List (Status × Res))
      → call.0 < length call.1
      → promise_of call ≡ record { retrieved = false; value = some (call_error call) }
  promise_of-set (n, answers) h =
      ap (λ v. record { retrieved = false; value = v }) (promised-run n answers h)

  -- The promises behind others that are there.
  promises-ready :
      (before : List (Promise Text)) (calls : List (ℕ × List (Status × Res)))
      → answered calls ≡ true
      → (ready (indices (length before) (length calls)) (before ++ promises_of calls) ≡ true)
        × (errors (indices (length before) (length calls)) (before ++ promises_of calls)
            ≡ call_errors calls)
  unfolding indices promises_of answered call_errors ready errors
  promises-ready before [] h = (refl, refl)
  promises-ready before (call ∷ calls) h =
      let first : ltb call.0 (length call.1) ≡ true = ground (arith, h) in
      let there =
        get_elem?-middle before (promise_of call) (promises_of calls)
        ∙ ap some (promise_of-set call (ground (arith, first))) in
      let shift = append-snoc before (promise_of call) (promises_of calls) in
      let count = length-snoc before (promise_of call) in
      let (rest_ready, rest_errors) =
        promises-ready (before ++ promise_of call ∷ []) calls (ground (arith, h)) in
      let n = length calls in
      (
        rw (there, is_in-indices (length before) (suc (length before)) n (omega arith))
            (sym (ap₂ (λ i ps. ready (indices i n) ps) count shift) ∙ rest_ready),
        rw there (
            ap₂ (λ xs ys. xs ++ ys) (error_at-set (call_error call))
              (sym (ap₂ (λ i ps. errors (indices i n) ps) count shift) ∙ rest_errors)),
      )

  -- If each call has an answer for each of its tries, then to wait for their promises returns, with
  -- no promise left in the list, and handles, in the order of the calls and if it has a function for
  -- errors, the message of the last answer of each call of which all tries fail.
  pub wait_for-run :
      (has_handle : Bool) (calls : List (ℕ × List (Status × Res)))
      → answered calls ≡ true
      → (store : List (Promise Text)) × (wait_for has_handle
            (indices 0 (length calls))
            (promises_of calls)
          ≡ record {
            ending = Ending.returns;
            promises = [];
            store = store;
            handled = if has_handle then call_errors calls else [];
          })
  wait_for-run has_handle calls h =
      let (is_ready, handles) = promises-ready [] calls h in
      let (store, ran) =
        wait_for-errors has_handle (indices 0 (length calls)) (promises_of calls) is_ready in
      (
        store,
        ran
            ∙ ap
                (λ errs. record {
                  ending = Ending.returns;
                  promises = [];
                  store = store;
                  handled = if has_handle then errs else [];
                })
                handles,
      )
