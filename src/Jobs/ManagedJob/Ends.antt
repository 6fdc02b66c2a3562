-- ===== src/Jobs/ManagedJob/Ends.antt =====
-- How a managed job can end, from every state that it can be in.
use cppkg.Base.{
  ◌≡◌, refl, Option, none, some, Bool, true, false, ◌&&◌, if◌then◌else◌, inl, inr, Bool-cases,
}
use cppkg.Jobs.ManagedJob.{
  ManagedJob, Outcome, returns, throws, terminates, waits, Shared, create, start, join, stop,
  destroy, move_construct, move_assign, is_stopped, get_future, set_value, moved_from, ◌>>=◌,
}

-- The jobs that a program can have: made, then stopped, joined and assigned to.
pub data Reach : ManagedJob → Type 0 where
  created : (j : ManagedJob) → create ≡ returns j → Reach j
  started : (j : ManagedJob) → start ≡ returns j → Reach j
  stopped : (i j : ManagedJob) → Reach i → stop i ≡ returns j → Reach j
  joined : (i j : ManagedJob) → Reach i → join i ≡ returns j → Reach j
  assigned :
      (i j this other : ManagedJob)
      → Reach i
      → Reach j
      → move_assign i j ≡ returns (this, other)
      → Reach this
  assigned_from :
      (i j this other : ManagedJob)
      → Reach i
      → Reach j
      → move_assign i j ≡ returns (this, other)
      → Reach other

abbrev job : Option Shared → Bool → Bool → ManagedJob
job s v r = record { exit_signal = s; valid = v; joinable = r }

-- A promise that was not moved from has given its future away; the others have no thread.
Sound : ManagedJob → Type 0
Sound j = elim j.exit_signal [
  | none ↦ (j.joinable ≡ false) × (j.valid ≡ false)
  | some s ↦ (s.retrieved ≡ true) × (j.valid ≡ true)
]

-- What holds of a result, if there is one.
abbrev Ensures {ℓ κ} : {A : Type ℓ} → Outcome A → (A → Type κ) → Type κ
Ensures (returns a) P = P a
Ensures throws P = Unit
Ensures terminates P = Unit
Ensures waits P = Unit

ensured {ℓ κ} :
    {A : Type ℓ} (o : Outcome A) (P : A → Type κ) (a : A) → Ensures o P → o ≡ returns a → P a
ensured o P a h e = rw e at h

Ensures-bind {ℓ κ μ} :
    {A : Type ℓ} {B : Type κ} (m : Outcome A) (f : A → Outcome B) (P : B → Type μ)
    → ((a : A) → Ensures (f a) P)
    → Ensures (m >>= f) P
Ensures-bind (returns a) f P h = h a
Ensures-bind throws f P h = tt
Ensures-bind terminates f P h = tt
Ensures-bind waits f P h = tt

create-Sound : Ensures create Sound
unfolding create get_future Sound
create-Sound = (refl, refl)

start-Sound : Ensures start Sound
unfolding start get_future Sound
start-Sound = (refl, refl)

stop-Sound : (s : Option Shared) (v r : Bool) → Sound (job s v r) → Ensures (stop (job s v r)) Sound
unfolding stop set_value Sound
stop-Sound none v true h = tt
stop-Sound none v false h = h
stop-Sound (some s) v false h = h
stop-Sound (some s) v true h = elim (Bool-cases s.satisfied) [
  | inl again ↦ rw again tt
  | inr first ↦ rw first h
]

join-Sound : (s : Option Shared) (v r : Bool) → Sound (job s v r) → Ensures (join (job s v r)) Sound
unfolding join Sound
join-Sound none v true h = tt
join-Sound none v false h = h
join-Sound (some s) v false h = h
join-Sound (some s) v true h = elim (Bool-cases s.satisfied) [
  | inl signalled ↦ rw signalled h
  | inr forever ↦ rw forever tt
]

move_assign-Sound :
    (i j : ManagedJob) → Sound j → Ensures (move_assign i j) (λ r. Sound r.0 × Sound r.1)
unfolding move_assign Sound
move_assign-Sound i j h =
    Ensures-bind
      (if i.joinable && i.valid
        then set_value i.exit_signal >>= (λ _. returns false)
        else returns i.joinable)
      (λ joinable. if joinable then terminates else returns (j, moved_from))
      (λ r. Sound r.0 × Sound r.1)
      (λ joinable. elim (Bool-cases joinable) [
        | inl still ↦ rw still tt
        | inr free ↦ rw free (h, (refl, refl))
      ])

Reach-Sound : {j : ManagedJob} → Reach j → Sound j
Reach-Sound (created j e) = ensured create Sound j create-Sound e
Reach-Sound (started j e) = ensured start Sound j start-Sound e
Reach-Sound (stopped i j r e) =
    ensured (stop i) Sound j (stop-Sound i.exit_signal i.valid i.joinable (Reach-Sound r)) e
Reach-Sound (joined i j r e) =
    ensured (join i) Sound j (join-Sound i.exit_signal i.valid i.joinable (Reach-Sound r)) e
Reach-Sound (assigned i j this other r r' e) =
    (ensured (move_assign i j) (λ r. Sound r.0 × Sound r.1) (this, other)
      (move_assign-Sound i j (Reach-Sound r')) e).0
Reach-Sound (assigned_from i j this other r r' e) =
    (ensured (move_assign i j) (λ r. Sound r.0 × Sound r.1) (this, other)
      (move_assign-Sound i j (Reach-Sound r')) e).1

move_construct_parts :
    (s : Option Shared) (v r : Bool)
    → Sound (job s v r)
    → move_construct (job s v r) ≡ (if r then terminates else throws)
unfolding move_construct get_future Sound
move_construct_parts none v r h = refl
move_construct_parts (some s) v r h = rw (h.0, move_construct, get_future) refl

destroy_running :
    (retrieved satisfied : Bool)
    → destroy (job (some (record { retrieved = retrieved; satisfied = satisfied })) true true)
      ≡ (if satisfied then terminates else returns tt)
unfolding destroy set_value join
destroy_running retrieved true = refl
destroy_running retrieved false = refl

destroy_parts :
    (s : Option Shared) (v r : Bool)
    → Sound (job s v r)
    → destroy (job s v r) ≡ (if r && is_stopped (job s v r) then terminates else returns tt)
unfolding destroy set_value join Sound
destroy_parts none v true h = cc
destroy_parts none v false h = refl
destroy_parts (some s) v false h = refl
destroy_parts (some s) v true h = rw h.1 (destroy_running s.retrieved s.satisfied)

stop-join_parts :
    (s : Option Shared) (v r : Bool)
    → Sound (job s v r)
    → is_stopped (job s v r) ≡ false
    → (stop (job s v r) >>= join >>= destroy) ≡ returns tt
unfolding stop join destroy set_value Sound
stop-join_parts none v true h fresh = cc
stop-join_parts none v false h fresh = refl
stop-join_parts (some s) v false h fresh = refl
stop-join_parts (some s) v true h fresh = rw (fresh, stop, set_value) refl

-- From every state that a managed job can be in, to construct another by moving it never returns:
-- it ends the program if the job has a thread, and throws otherwise.
pub move_construct_fails :
    (j : ManagedJob) → Reach j → move_construct j ≡ (if j.joinable then terminates else throws)
move_construct_fails j r = move_construct_parts j.exit_signal j.valid j.joinable (Reach-Sound r)

-- From every state that a managed job can be in, its destruction returns, but for a thread that has
-- been told to stop and was not joined: then it ends the program.
pub destroy_ends :
    (j : ManagedJob)
    → Reach j
    → destroy j ≡ (if j.joinable && is_stopped j then terminates else returns tt)
destroy_ends j r = destroy_parts j.exit_signal j.valid j.joinable (Reach-Sound r)

-- A managed job that has not been told to stop can be stopped, joined and destroyed.
pub stop-join-destroy :
    (j : ManagedJob) → Reach j → is_stopped j ≡ false → (stop j >>= join >>= destroy) ≡ returns tt
stop-join-destroy j r fresh = stop-join_parts j.exit_signal j.valid j.joinable (Reach-Sound r) fresh
