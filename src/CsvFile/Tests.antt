-- ===== src/CsvFile/Tests.antt =====
-- A header with two fields.
use usable_lib.Prelude.{ℕ, ◌≡◌, some, List, [], ◌∷◌, ◌++◌, arith}
use usable_lib.CsvFile.{open_file, create_file}
use usable_lib.CsvFile.Lines.{All, Plain, Fields, open_file-create_file, open_file_returns}

-- "a" and "bc"
abbrev two_fields : List (List ℕ)
two_fields = (97 ∷ []) ∷ (98 ∷ 99 ∷ []) ∷ []

two_fields-Fields : Fields two_fields
unfolding Fields All Plain
two_fields-Fields = (
  ((omega arith, omega arith, omega arith), tt),
  (
    ((omega arith, omega arith, omega arith), ((omega arith, omega arith, omega arith), tt)),
    omega arith,
  ),
)

open_file-create_file_example :
    (file : List ℕ) × (create_file two_fields ≡ some file)
    × (open_file (file ++ (49 ∷ [])) ≡ some two_fields)
open_file-create_file_example = open_file-create_file two_fields (49 ∷ []) two_fields-Fields

open_file_returns_example : (fs : List (List ℕ)) × (open_file (32 ∷ 97 ∷ []) ≡ some fs)
open_file_returns_example = open_file_returns (32 ∷ 97 ∷ [])
