-- ===== src/CsvFile.antt =====
-- csv.h, class `CSVFileStream`. A text is a list of character codes, what is printed of a value is a
-- parameter. `s` from `e + 1` on stands for the position `e`, as the loop reads nothing before it.
pub mod Lines
pub mod Tests
use usable_lib.Prelude.{
  ℕ, zero, suc, ◌+◌, Option, none, some, Bool, List, [], ◌∷◌, ◌++◌, length, if◌then◌else◌, ◌==◌,
  ◌>>=◌,
}

abbrev pub space : ℕ
space = 32

abbrev pub comma : ℕ
comma = 44

abbrev pub newline : ℕ
newline = 10

-- `find_first_not_of(' ', …)`
pub skip_spaces : List ℕ → List ℕ
skip_spaces [] = []
skip_spaces (c ∷ s) = let rest = skip_spaces s in if c == space then rest else c ∷ s

-- what stands before the first `c`, and what after it when there is one
pub split_at : ℕ → List ℕ → List ℕ × Option (List ℕ)
split_at d [] = ([], none)
split_at d (c ∷ s) =
    let rest = split_at d s in if c == d then ([], some s) else (c ∷ rest.0, rest.1)

abbrev pub keep_or_drop : ℕ → List ℕ → List ℕ
keep_or_drop c [] = if c == space then [] else c ∷ []
keep_or_drop c (d ∷ s) = c ∷ d ∷ s

-- `s.erase(s.find_last_not_of(' ') + 1)`
pub trim_end : List ℕ → List ℕ
trim_end [] = []
trim_end (c ∷ s) = keep_or_drop c (trim_end s)

-- one field, with what goes on after its comma
abbrev pub read_field :
    (List ℕ → Option (List (List ℕ))) → List ℕ × Option (List ℕ) → Option (List (List ℕ))
read_field go (f, none) = some (f ∷ [])
read_field go (f, some s) = go (trim_end s) >>= λ fs. some (f ∷ fs)

abbrev pub read_from : (List ℕ → Option (List (List ℕ))) → List ℕ → Option (List (List ℕ))
read_from go [] = some []
read_from go (c ∷ s) = read_field go (split_at comma (c ∷ s))

-- the loop of the constructor; the first argument bounds its rounds
pub read_fields : ℕ → List ℕ → Option (List (List ℕ))
read_fields zero s = none
read_fields (suc n) s = read_from (read_fields n) (skip_spaces s)

-- `getline`
pub get_line : List ℕ → List ℕ
get_line file = (split_at newline file).0

-- the fields that the constructor finds in a file
pub open_file : List ℕ → Option (List (List ℕ))
open_file file = read_fields (suc (length (get_line file))) (get_line file)

-- `__appendEntry`, and the loop of the second constructor
pub print_rest : List (List ℕ) → List ℕ
print_rest [] = newline ∷ []
print_rest (f ∷ fs) = comma ∷ (f ++ print_rest fs)

-- the second constructor: the new contents, or none when it opens no file
unfoldable pub create_file : List (List ℕ) → Option (List ℕ)
create_file [] = none
create_file (f ∷ fs) = some (f ++ print_rest fs)

unfoldable pub append_entry : List ℕ → List ℕ → List (List ℕ) → List ℕ
append_entry file t rest = file ++ (t ++ print_rest rest)
