-- ===== src/TcQueue/Batch.antt =====
-- tcq.h: the leader's map from UIDs to places, and `process_batch`, which gives each promise its
-- result. The promises are those of one batch, none yet given; the hook is a parameter.
use usable_lib.Prelude.{
  ℕ, ◌+◌, Bool, true, false, Option, none, some, List, [], ◌∷◌, length, if◌then◌else◌, ◌==◌,
}
use usable_lib.Prelude.Maps.{find}
use usable_lib.Threads.{update}

-- `unordered_map::insert` leaves an entry that is there.
abbrev pub insert_found : Option ℕ → List (ℕ × ℕ) → ℕ → ℕ → List (ℕ × ℕ)
insert_found none m u i = (u, i) ∷ m
insert_found (some _) m u i = m

unfoldable pub insert : List (ℕ × ℕ) → ℕ → ℕ → List (ℕ × ℕ)
insert m u i = insert_found (find m u) m u i

-- the loop that fills `uid_map`, from place `i` on
unfoldable pub map_uids : List ℕ → ℕ → List (ℕ × ℕ) → List (ℕ × ℕ)
map_uids [] i m = m
map_uids (u ∷ us) i m = map_uids us (i + 1) (insert m u i)

-- `promise_already_satisfied` is thrown by `std::promise`.
pub data Fault : Type 0 where
  size_error : Fault
  uid_error : Fault
  promise_already_satisfied : Fault

-- the loop over the results: the promises, and what was thrown
unfoldable pub set_values :
    {R : Type 0} → List (ℕ × ℕ) → List (ℕ × R) → (ℕ → Option R) → (ℕ → Option R) × Option Fault
set_values uid_map [] pro = (pro, none)
set_values uid_map ((u, r) ∷ b) pro = elim (find uid_map u) [
  | none ↦ (pro, some uid_error)
  | some idx ↦ elim (pro idx) [
    | some _ ↦ (pro, some promise_already_satisfied)
    | none ↦ set_values uid_map b (update pro idx (some r))
  ]
]

pub record Leader (R : Type 0) : Type 0 where
  pub uid_map : List (ℕ × ℕ)
  pub pro_queue : ℕ → Option R
  pub processed : Bool

abbrev pub finish :
    {R : Type 0} → Leader R → (ℕ → Option R) × Option Fault → Leader R × Option Fault
finish s (pro, none) = (record s { pro_queue = pro; processed = true }, none)
finish s (pro, some f) = (record s { pro_queue = pro }, some f)

module _ {R : Type 0} (hook_batch_ret_collection : ℕ → List (ℕ × R)) where
  unfoldable pub process_batch : Leader R → Leader R × Option Fault
  process_batch s =
      if s.processed
      then (s, none)
      else (let b = hook_batch_ret_collection (length s.uid_map) in
          if length b == length s.uid_map
          then (finish s (set_values s.uid_map b s.pro_queue))
          else (s, some size_error))

-- The leader as `task_enqueue` makes it, of a batch with the UIDs `us`.
unfoldable pub new_leader : {R : Type 0} → List ℕ → Leader R
new_leader us = record { uid_map = map_uids us 0 []; pro_queue = λ k. none; processed = false }
