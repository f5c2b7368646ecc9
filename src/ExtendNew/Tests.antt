-- ===== src/ExtendNew/Tests.antt =====
-- A flexible array of three objects of 4 bytes behind 16 others, at address 1000.
use usable_lib.Prelude.{ℕ, ◌≡◌, refl, false, none, some, arith}
use usable_lib.ExtendNew.{Memory, new_array, delete_array}
use usable_lib.ExtendNew.Objects.{NoneAlive}
use usable_lib.ExtendNew.Flexible.{IsFresh, delete_array-new_array}

abbrev at_1000 : Memory → ℕ → ℕ
at_1000 m len = 1000

abbrev blank : Memory
blank = record { blocks = λ a. none; words = λ a. none; alive = λ a. false }

blank-IsFresh : IsFresh at_1000 blank 36
unfolding IsFresh NoneAlive
blank-IsFresh = (refl, λ c lo hi. refl)

delete_array-new_array_example :
    (array : Memory) × (new_array at_1000 16 4 3 blank ≡ some (1008, array))
    × (over : Memory) × (delete_array 16 4 1008 array ≡ some over)
    × (over.blocks ≡ blank.blocks)
    × (over.alive ≡ blank.alive)
delete_array-new_array_example =
    delete_array-new_array at_1000 16 4 3 blank (omega arith) (omega arith) blank-IsFresh
