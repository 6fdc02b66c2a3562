-- ===== src/Egrpc/Wait.antt =====
-- cppkg/egrpc/iclient_async.cc: `wait_for`, for one promise and for a list of them. A promise is an
-- index into the store of all promises, as the list holds shared pointers to them. The destructor of
-- a client handler sets a promise, to the error or to null.
pub mod Ready
use cppkg.Base.{
  ℕ, ◌≡◌, refl, ap, sym, ◌∙◌, arith, List, [], ◌∷◌, ◌++◌, Option, none, some, Bool, true, false,
  not, ◌&&◌, if◌then◌else◌, ◌==◌, get_elem?, set, Option-cases, Bool-cases, inl, inr,
}

-- `value` is `none` if the promise is never set. The pointers keep it alive, so that it is not
-- broken either.
pub record Promise {ℓ} (E : Type ℓ) : Type ℓ where
  pub retrieved : Bool
  pub value : Option (Option E)

-- `throws` is what a second `get_future` throws, `waits` that the wait does not end, and
-- `undefined` the use of a null pointer.
pub data Ending : Type 0 where
  returns throws waits undefined : Ending

-- The promises that are left in the list, the store, and the errors that `err_handle` got.
pub record Waited {ℓ} (E : Type ℓ) : Type ℓ where
  pub ending : Ending
  pub promises : List ℕ
  pub store : List (Promise E)
  pub handled : List E

module _ {ℓ} {E : Type ℓ} where
  -- What `err_handle` gets. `has_handle` tells whether it holds a function.
  abbrev pub handle_error : Bool → Option E → List E
  handle_error has_handle none = []
  handle_error has_handle (some err) = if has_handle then err ∷ [] else []

  -- `wait_for` of one promise: how it ends, and what is handled.
  unfoldable pub wait_one : Bool → Promise E → Ending × List E
  wait_one has_handle promise =
      if promise.retrieved then (Ending.throws, []) else elim promise.value [
        | none ↦ (Ending.waits, [])
        | some err ↦ (Ending.returns, handle_error has_handle err)
      ]

  -- `pop_front` comes after the wait, which leaves the list alone if it does not return.
  unfoldable pub after_wait : ℕ → List ℕ → Ending × List E → List (Promise E) → Waited E → Waited E
  after_wait i is (Ending.returns, errs) store rest = record rest { handled = errs ++ rest.handled }
  after_wait i is (Ending.throws, errs) store rest = record {
    ending = Ending.throws;
    promises = i ∷ is;
    store = store;
    handled = errs;
  }
  after_wait i is (Ending.waits, errs) store rest = record {
    ending = Ending.waits;
    promises = i ∷ is;
    store = store;
    handled = errs;
  }
  after_wait i is (Ending.undefined, errs) store rest = record {
    ending = Ending.undefined;
    promises = i ∷ is;
    store = store;
    handled = errs;
  }

  abbrev pub retrieve : Promise E → Promise E
  retrieve promise = record promise { retrieved = true }

  -- `wait_for` of a list.
  unfoldable pub wait_for : Bool → List ℕ → List (Promise E) → Waited E
  unfolding wait_one after_wait
  wait_for has_handle [] store = record {
    ending = Ending.returns;
    promises = [];
    store = store;
    handled = [];
  }
  wait_for has_handle (i ∷ is) store = elim (get_elem? store i) [
    | none ↦ record { ending = Ending.undefined; promises = i ∷ is; store = store; handled = [] }
    | some promise ↦
        let store' = set store i (retrieve promise) in
        let rest = wait_for has_handle is store' in
        after_wait i is (wait_one has_handle promise) store' rest
  ]
