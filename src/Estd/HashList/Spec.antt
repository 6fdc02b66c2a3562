-- ===== src/Estd/HashList/Spec.antt =====
-- What a hash list stands for: a list without duplicates, and the operations on such a list.
use cppkg.Base.{
  ℕ, List, [], ◌∷◌, ◌++◌, Option, some, Bool, true, false, if◌then◌else◌, Eq, take, drop, ◌>>=◌,
}
use cppkg.Estd.HashList
use cppkg.Estd.HashList.{HashList, iterator}

-- The operations; `insert` at the position that is so many steps from the start.
pub data Op {ℓ} (T : Type ℓ) : Type ℓ where
  push_back erase : T → Op T
  insert : ℕ → T → Op T
  pop_back clear : Op T

module _ {ℓ} {T : Type ℓ} where
  unfoldable pub drop_last : T → List T → List T
  drop_last v [] = []
  drop_last v (w ∷ vs) = v ∷ drop_last w vs

module _ {ℓ} {T : Type ℓ} ⦃e : Eq T⦄ where
  unfoldable pub contains : T → List T → Bool
  contains v [] = false
  contains v (w ∷ vs) = if e.beq w v then true else contains v vs

  unfoldable pub leave_out : T → List T → List T
  leave_out v [] = []
  leave_out v (w ∷ vs) = if e.beq w v then leave_out v vs else w ∷ leave_out v vs

  -- The specification.
  unfoldable pub spec : Op T → List T → List T
  unfolding contains leave_out drop_last
  spec (Op.push_back v) vs = if contains v vs then vs else vs ++ v ∷ []
  spec (Op.insert i v) vs = if contains v vs then vs else take i vs ++ v ∷ drop i vs
  spec (Op.erase v) vs = leave_out v vs
  spec Op.pop_back [] = []
  spec Op.pop_back (v ∷ vs) = drop_last v vs
  spec Op.clear vs = []

  -- The code.
  unfoldable pub apply : Op T → HashList T → Option (HashList T)
  unfolding HashList.push_back HashList.pop_back HashList.insert HashList.erase HashList.clear
  apply (Op.push_back v) s = some (HashList.push_back v s).1
  apply (Op.insert i v) s = HashList.insert (iterator i s.lst) v s >>= λ r. some r.1
  apply (Op.erase v) s = HashList.erase v s
  apply Op.pop_back s = some (HashList.pop_back s)
  apply Op.clear s = some (HashList.clear s)

  unfoldable pub run : List (Op T) → HashList T → Option (HashList T)
  unfolding apply
  run [] s = some s
  run (op ∷ ops) s = apply op s >>= run ops

  unfoldable pub spec_run : List (Op T) → List T → List T
  unfolding spec
  spec_run [] vs = vs
  spec_run (op ∷ ops) vs = spec_run ops (spec op vs)
