-- ===== src/CsvFile/Lines.antt =====
-- What is read of the lines that the class writes.
use usable_lib.Prelude.{
  ℕ, zero, suc, ◌≤◌, ◌<◌, ◌≡◌, ◌≢◌, ◌∙◌, refl, ap, sym, subst, Option, none, some, List, [], ◌∷◌,
  ◌++◌, length, arith, ◌>>=◌, length-append, append_assoc,
}
use usable_lib.CsvFile.{
  space, comma, newline, skip_spaces, split_at, trim_end, read_fields, read_from, read_field,
  get_line, open_file, print_rest, create_file,
}

-- `P` holds of each character
unfoldable pub All : (ℕ → Type 0) → List ℕ → Type 0
All P [] = Unit {0}
All P (c ∷ s) = P c × All P s

skip_spaces-le : (s : List ℕ) → length (skip_spaces s) ≤ length s
unfolding skip_spaces
skip_spaces-le [] = omega arith
skip_spaces-le (c ∷ s) = ground (arith, skip_spaces-le s)

trim_end-le : (s : List ℕ) → length (trim_end s) ≤ length s
unfolding trim_end
trim_end-le [] = omega arith
trim_end-le (c ∷ s) = ground (arith, trim_end-le s)

split_at-lt : (d : ℕ) (s t : List ℕ) → (split_at d s).1 ≡ some t → length t < length s
unfolding split_at
split_at-lt d [] t e = ground (arith, e)
split_at-lt d (c ∷ s) t e = ground (arith, e, split_at-lt d s t)

abbrev Returns : Option (List (List ℕ)) → Type 0
Returns o = (fs : List (List ℕ)) × (o ≡ some fs)

read_field-Returns :
    (go : List ℕ → Option (List (List ℕ))) (f : List ℕ) (o : Option (List ℕ))
    → ((t : List ℕ) → o ≡ some t → Returns (go (trim_end t)))
    → Returns (read_field go (f, o))
read_field-Returns go f none h = (f ∷ [], refl)
read_field-Returns go f (some t) h = let rest = h t refl in (f ∷ rest.0, rw rest.1 refl)

read_from-Returns :
    (go : List ℕ → Option (List (List ℕ))) (s : List ℕ)
    → ((t : List ℕ) → length t < length s → Returns (go t))
    → Returns (read_from go s)
read_from-Returns go [] h = ([], refl)
read_from-Returns go (c ∷ s) h =
    read_field-Returns go _ _ (λ t (e : (split_at comma (c ∷ s)).1 ≡ some t).
      h (trim_end t) (omega (arith, trim_end-le t, split_at-lt comma (c ∷ s) t e)))

read_fields-Returns : (n : ℕ) (s : List ℕ) → length s < n → Returns (read_fields n s)
unfolding read_fields
read_fields-Returns zero s h = absurd (omega arith)
read_fields-Returns (suc n) s h =
    read_from-Returns (read_fields n) (skip_spaces s)
      (λ t lt. read_fields-Returns n t (omega (arith, lt, skip_spaces-le s)))

-- The loop of the constructor ends on every file: as many rounds as its first line has characters, and
-- one, are enough.
pub open_file_returns : (file : List ℕ) → (fs : List (List ℕ)) × (open_file file ≡ some fs)
unfolding open_file
open_file_returns file =
    read_fields-Returns (suc (length (get_line file))) (get_line file) (omega arith)

-- no space, comma or end of line
unfoldable pub Plain : ℕ → Type 0
Plain c = (c ≢ space) × (c ≢ comma) × (c ≢ newline)

-- Fields of such characters, the last one not empty.
unfoldable pub Fields : List (List ℕ) → Type 0
Fields [] = ⊥
Fields (f ∷ []) = All Plain f × (1 ≤ length f)
Fields (f ∷ g ∷ fs) = All Plain f × Fields (g ∷ fs)

-- the header line without its end
join : List (List ℕ) → List ℕ
join [] = []
join (f ∷ []) = f
join (f ∷ g ∷ fs) = f ++ comma ∷ join (g ∷ fs)

weaken-All : {P Q : ℕ → Type 0} → ((c : ℕ) → P c → Q c) → (s : List ℕ) → All P s → All Q s
unfolding All
weaken-All f [] h = tt
weaken-All f (c ∷ s) h = (f c h.0, weaken-All f s h.1)

All-append : (P : ℕ → Type 0) (s t : List ℕ) → All P s → All P t → All P (s ++ t)
unfolding All
All-append P [] t h k = k
All-append P (c ∷ s) t h k = (h.0, All-append P s t h.1 k)

split_at-some : (d : ℕ) (f s : List ℕ) → All (λ c. c ≢ d) f → split_at d (f ++ d ∷ s) ≡ (f, some s)
unfolding split_at All
split_at-some d [] s h = ground arith
split_at-some d (c ∷ f) s h = ground (arith, h.0, split_at-some d f s h.1)

split_at-none : (d : ℕ) (f : List ℕ) → All (λ c. c ≢ d) f → split_at d f ≡ (f, none)
unfolding split_at All
split_at-none d [] h = refl
split_at-none d (c ∷ f) h = ground (arith, h.0, split_at-none d f h.1)

skip_spaces-All : (s : List ℕ) → All (λ c. c ≢ space) s → skip_spaces s ≡ s
unfolding skip_spaces All
skip_spaces-All [] h = refl
skip_spaces-All (c ∷ s) h = ground (arith, h.0)

trim_end-All : (s : List ℕ) → All (λ c. c ≢ space) s → trim_end s ≡ s
unfolding trim_end All
trim_end-All [] h = refl
trim_end-All (c ∷ []) h = ground (arith, h.0)
trim_end-All (c ∷ d ∷ s) h = rw (trim_end-All (d ∷ s) h.1) refl

read_from-cons :
    (go : List ℕ → Option (List (List ℕ))) (f t : List ℕ)
    → All (λ c. c ≢ comma) f
    → read_from go (f ++ comma ∷ t) ≡ (go (trim_end t) >>= λ fs. some (f ∷ fs))
read_from-cons go [] t h = rw (split_at-some comma [] t h) refl
read_from-cons go (c ∷ f) t h = rw (split_at-some comma (c ∷ f) t h) refl

read_from-last :
    (go : List ℕ → Option (List (List ℕ))) (f : List ℕ)
    → All (λ c. c ≢ comma) f
    → 1 ≤ length f
    → read_from go f ≡ some (f ∷ [])
read_from-last go [] h k = absurd (omega arith)
read_from-last go (c ∷ f) h k = rw (split_at-none comma (c ∷ f) h) refl

Inside : ℕ → Type 0
Inside c = (c ≢ space) × (c ≢ newline)

join-Inside : (fs : List (List ℕ)) → Fields fs → All Inside (join fs)
unfolding join Fields All Plain Inside
join-Inside [] h = absurd h
join-Inside (f ∷ []) h = weaken-All (λ c p. (p.0, p.2)) f h.0
join-Inside (f ∷ g ∷ fs) h =
    All-append Inside f (comma ∷ join (g ∷ fs)) (weaken-All (λ c p. (p.0, p.2)) f h.0)
      ((omega arith, omega arith), join-Inside (g ∷ fs) h.1)

join-no_space : (fs : List (List ℕ)) → Fields fs → All (λ c. c ≢ space) (join fs)
unfolding Inside
join-no_space fs h = weaken-All (λ c p. p.0) (join fs) (join-Inside fs h)

read_fields-join :
    (n : ℕ) (fs : List (List ℕ))
    → Fields fs
    → length (join fs) < n
    → read_fields n (join fs) ≡ some fs
unfolding read_fields join Fields Plain
read_fields-join zero fs h k = absurd (omega arith)
read_fields-join (suc n) [] h k = absurd h
read_fields-join (suc n) (f ∷ []) h k =
    rw (skip_spaces-All f (join-no_space (f ∷ []) h))
      (read_from-last (read_fields n) f (weaken-All (λ c p. p.1) f h.0) h.1)
read_fields-join (suc n) (f ∷ g ∷ fs) h k =
    let rest = join (g ∷ fs) in
    rw
      (
        skip_spaces-All (f ++ comma ∷ rest) (join-no_space (f ∷ g ∷ fs) h),
        read_from-cons (read_fields n) f rest (weaken-All (λ c p. p.1) f h.0),
        trim_end-All rest (join-no_space (g ∷ fs) h.1),
        read_fields-join n (g ∷ fs) h.1 (omega (arith, length-append f (comma ∷ rest))),
      )
      refl

print_rest-join :
    (f : List ℕ) (fs : List (List ℕ)) → f ++ print_rest fs ≡ join (f ∷ fs) ++ newline ∷ []
unfolding print_rest join
print_rest-join f [] = refl
print_rest-join f (g ∷ fs) =
    rw (print_rest-join g fs) (sym (append_assoc f (comma ∷ join (g ∷ fs)) (newline ∷ [])))

open_file-join :
    (fs : List (List ℕ)) (more : List ℕ)
    → Fields fs
    → open_file (join fs ++ newline ∷ more) ≡ some fs
unfolding open_file get_line Inside
open_file-join fs more h =
    let ends =
      split_at-some newline (join fs) more (weaken-All (λ c p. p.1) (join fs) (join-Inside fs h)) in
    let line : get_line (join fs ++ newline ∷ more) ≡ join fs = ap (λ r. r.0) ends in
    subst (λ l. read_fields (suc (length l)) l ≡ some fs) (sym line)
      (read_fields-join (suc (length (join fs))) fs h (omega arith))

-- A file that is created for fields without spaces, commas and ends of lines, of which the last is not
-- empty, and that is opened again, whatever has been appended to it, gives these fields.
pub open_file-create_file :
    (fs : List (List ℕ)) (more : List ℕ)
    → Fields fs
    → (file : List ℕ) × (create_file fs ≡ some file) × (open_file (file ++ more) ≡ some fs)
unfolding create_file Fields
open_file-create_file [] more h = absurd h
open_file-create_file (f ∷ fs) more h = (
  f ++ print_rest fs,
  refl,
  subst (λ file. open_file file ≡ some (f ∷ fs))
      (sym (
        ap (λ l. l ++ more) (print_rest-join f fs)
        ∙ append_assoc (join (f ∷ fs)) (newline ∷ []) more))
      (open_file-join (f ∷ fs) more h),
)

-- Behind the end of a line of such fields stands what has been appended.
pub print_rest-end :
    (f : List ℕ) (fs : List (List ℕ)) (more : List ℕ)
    → Fields (f ∷ fs)
    → (split_at newline ((f ++ print_rest fs) ++ more)).1 ≡ some more
unfolding Inside
print_rest-end f fs more h =
    let ends =
      split_at-some newline (join (f ∷ fs)) more
        (weaken-All (λ c p. p.1) (join (f ∷ fs)) (join-Inside (f ∷ fs) h)) in
    rw (print_rest-join f fs, append_assoc (join (f ∷ fs)) (newline ∷ []) more, ends) refl
