-- ===== src/Egrpc/Wait/Ready.antt =====
-- To wait for promises that are set.
use cppkg.Base.{
  ℕ, ◌≡◌, ◌≢◌, refl, ap, ap₂, ◌∙◌, arith, List, [], ◌∷◌, ◌++◌, Option, none, some, Bool, true,
  false, not, ◌&&◌, if◌then◌else◌, ◌==◌, get_elem?, set, get_elem?-set_ne, Option-cases, Bool-cases,
  inl, inr,
}
use cppkg.Egrpc.Wait.{
  Promise, Ending, Waited, wait_one, wait_for, handle_error, after_wait, retrieve,
}

abbrev pub is_in : ℕ → List ℕ → Bool
is_in i [] = false
is_in i (j ∷ js) = if i == j then true else is_in i js

is_in_ne : (i j : ℕ) (js : List ℕ) → is_in i (j ∷ js) ≡ false → (i ≢ j) × (is_in i js ≡ false)
is_in_ne i j js h = elim (Bool-cases (i == j)) [
  | inl same ↦ absurd (ground (arith, h, same))
  | inr apart ↦ (λ e. ground (arith, apart, e), ground (arith, h, apart))
]

module _ {ℓ} {E : Type ℓ} where
  -- Will the promise be set, and has nobody its future?
  abbrev pub promise_ready : Option (Promise E) → Bool
  promise_ready none = false
  promise_ready (some promise) =
      if promise.retrieved then false else elim promise.value [ none ↦ false | some err ↦ true ]

  -- The same of every promise of a list, in which none stands twice.
  unfoldable pub ready : List ℕ → List (Promise E) → Bool
  ready [] store = true
  ready (i ∷ is) store = promise_ready (get_elem? store i) && not (is_in i is) && ready is store

  -- The errors to which promises are set, in the order of a list.
  abbrev pub error_at : Option (Promise E) → List E
  error_at none = []
  error_at (some promise) = elim promise.value [ none ↦ [] | some err ↦ handle_error true err ]

  unfoldable pub errors : List ℕ → List (Promise E) → List E
  errors [] store = []
  errors (i ∷ is) store = error_at (get_elem? store i) ++ errors is store

  -- What happens to another promise does not matter.
  ready-set :
      (is : List ℕ) (i : ℕ) (store : List (Promise E)) (promise : Promise E)
      → is_in i is ≡ false
      → (ready is (set store i promise) ≡ ready is store)
        × (errors is (set store i promise) ≡ errors is store)
  unfolding ready errors
  ready-set [] i store promise h = (refl, refl)
  ready-set (j ∷ js) i store promise h =
      let (apart, rest) = is_in_ne i j js h in
      let there = get_elem?-set_ne store i j promise apart in
      let (same_ready, same_errors) = ready-set js i store promise rest in
      (rw (there, same_ready) refl, rw (there, same_errors) refl)

  wait_one-ready :
      (has_handle retrieved : Bool) (value : Option (Option E))
      → promise_ready (some (record { retrieved = retrieved; value = value })) ≡ true
      → wait_one has_handle (record { retrieved = retrieved; value = value }) ≡ (
        Ending.returns,
        if has_handle
            then error_at (some (record { retrieved = retrieved; value = value }))
            else [],
      )
  unfolding wait_one
  wait_one-ready has_handle true value h = ground (arith, h)
  wait_one-ready has_handle false none h = ground (arith, h)
  wait_one-ready true false (some none) h = refl
  wait_one-ready false false (some none) h = refl
  wait_one-ready true false (some (some err)) h = refl
  wait_one-ready false false (some (some err)) h = refl

  if_append :
      (test : Bool) (a b : List E)
      → (if test then a else []) ++ (if test then b else []) ≡ (if test then a ++ b else [])
  if_append true a b = refl
  if_append false a b = refl

  -- The first promise is ready, and so are the others once it has been retrieved.
  ready_first :
      (i : ℕ) (is : List ℕ) (store : List (Promise E))
      → ready (i ∷ is) store ≡ true
      → (promise_ready (get_elem? store i) ≡ true) × (is_in i is ≡ false) × (ready is store ≡ true)
  unfolding ready
  ready_first i is store h = ground arith

  wait_for_step :
      (has_handle : Bool) (i : ℕ) (is : List ℕ) (store : List (Promise E)) (promise : Promise E)
      → get_elem? store i ≡ some promise
      → wait_for has_handle (i ∷ is) store
        ≡ after_wait i is
            (wait_one has_handle promise)
            (set store i (retrieve promise))
            (wait_for has_handle is (set store i (retrieve promise)))
  unfolding wait_for
  wait_for_step has_handle i is store promise here = rw (here, wait_for) refl

  abbrev done : List (Promise E) → List E → Waited E
  done store errs = record { ending = Ending.returns; promises = []; store = store; handled = errs }

  -- The list behind a promise that is ready.
  wait_for_rest :
      (has_handle : Bool) (i : ℕ) (is : List ℕ) (promise : Promise E)
      (store rest : List (Promise E)) (errs : List E) (waited : Waited E)
      → promise_ready (some promise) ≡ true
      → waited ≡ done rest (if has_handle then errs else [])
      → after_wait i is (wait_one has_handle promise) store waited
        ≡ done rest (if has_handle then error_at (some promise) ++ errs else [])
  unfolding after_wait
  wait_for_rest has_handle i is promise store rest errs waited first ran =
      ap₂ (λ w r. after_wait i is w store r)
        (wait_one-ready has_handle promise.retrieved promise.value first) ran
      ∙ ap (done rest) (if_append has_handle (error_at (some promise)) errs)

  -- If each promise of the list is set, to an error or to null, nobody has its future, and none
  -- stands twice in the list, then `wait_for` returns, with no promise left in the list, and
  -- handles the errors in their order, if it has a function for them.
  pub wait_for-errors :
      (has_handle : Bool) (is : List ℕ) (store : List (Promise E))
      → ready is store ≡ true
      → (store' : List (Promise E)) × (wait_for has_handle is store ≡ record {
        ending = Ending.returns;
        promises = [];
        store = store';
        handled = if has_handle then errors is store else [];
      })
  unfolding wait_for errors
  wait_for-errors true [] store h = (store, refl)
  wait_for-errors false [] store h = (store, refl)
  wait_for-errors has_handle (i ∷ is) store h =
      let (first, apart, rest) = ready_first i is store h in
      elim (Option-cases (get_elem? store i)) [
        | inl missing ↦ absurd (ground (arith, rw missing at first))
        | inr (promise, here) ↦
            let (same_ready, same_errors) = ready-set is i store (retrieve promise) apart in
            let (store', ran) =
              wait_for-errors has_handle is (set store i (retrieve promise)) (same_ready ∙ rest) in
            (
              store',
              wait_for_step has_handle i is store promise here
                  ∙ rw here (
                      wait_for_rest has_handle i is promise _ store' (errors is store) _
                        (rw here at first)
                        (ran
                          ∙ ap (λ errs. done store' (if has_handle then errs else []))
                              same_errors)),
            )
      ]
