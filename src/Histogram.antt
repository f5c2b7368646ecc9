-- ===== src/Histogram.antt =====
-- statistic.h, class `Histogram`. The arithmetic of `double` is a parameter. An index out of bounds and
-- an `int` that overflows give `none`.
pub mod Arithmetic
pub mod Counting
pub mod Percentile
pub mod Merging
pub mod Tests
use usable_lib.Prelude.{
  ℕ, zero, suc, ◌+◌, ◌^◌, ◌≡◌, Bool, ◌||◌, not, Option, none, some, List, [], ◌∷◌, length, sum,
  replicate, get_or, max, ltb, if◌then◌else◌, ◌>>=◌,
}
use usable_lib.Histogram.Arithmetic.{Double}

pub record Histogram (D : Type 0) : Type 0 where
  pub nr_buckets : ℕ
  pub min_value : D
  pub max_value : D
  pub bucket_width : D
  pub buckets : List ℕ

-- `buckets[i] += n`
pub increase : List ℕ → ℕ → ℕ → Option (List ℕ)
increase [] i n = none
increase (c ∷ cs) zero n = if ltb (c + n) (2 ^ 31) then some ((c + n) ∷ cs) else none
increase (c ∷ cs) (suc i) n = increase cs i n >>= λ ds. some (c ∷ ds)

-- the loop of `size`
pub size_from : ℕ → List ℕ → Option ℕ
size_from total [] = some total
size_from total (c ∷ cs) =
    let rest = size_from (total + c) cs in if ltb (total + c) (2 ^ 31) then rest else none

module _ {D : Type 0} ⦃d : Double D⦄ where
  abbrev pub new_histogram : ℕ → D → D → Histogram D
  new_histogram nr_buckets min_value max_value = record {
    nr_buckets = nr_buckets;
    min_value = min_value;
    max_value = max_value;
    bucket_width = d.div (d.sub max_value min_value) (d.of_int nr_buckets);
    buckets = replicate nr_buckets 0;
  }

  unfoldable pub get_bucket : Histogram D → D → Option ℕ
  get_bucket h value = d.to_int (d.div (d.sub value h.min_value) h.bucket_width)

  unfoldable pub get_value : Histogram D → ℕ → D
  get_value h bucket =
      if ltb bucket h.nr_buckets
      then d.add h.min_value (d.mul h.bucket_width (d.of_int bucket))
      else d.minus_one

  -- `none` is -1
  unfoldable pub get_count : Histogram D → ℕ → Option ℕ
  get_count h bucket = if ltb bucket h.nr_buckets then some (get_or h.buckets bucket 0) else none

  unfoldable pub add : Histogram D → D → Option (Histogram D)
  add h value =
      let counted = get_bucket h value >>= λ i.
      increase h.buckets i 1 >>= λ cs. some (record h { buckets = cs }) in
      if d.lt value h.min_value || d.gt value h.max_value then some h else counted

  abbrev pub clear : Histogram D → Histogram D
  clear h = record h { buckets = replicate (length h.buckets) 0 }

  abbrev pub size : Histogram D → Option ℕ
  size h = size_from 0 h.buckets

  -- the test of `percentile`
  abbrev pub reaches : D → ℕ → ℕ → Bool
  reaches p total so_far = d.ge (d.mul (d.div (d.of_int so_far) (d.of_int total)) d.hundred) p

  -- the loop of `percentile`, from bucket `i` on; what it adds up is at most `total`
  pub percentile_from : D → ℕ → ℕ → ℕ → List ℕ → Option ℕ
  percentile_from p total so_far i [] = none
  percentile_from p total so_far i (c ∷ cs) =
      let rest = percentile_from p total (so_far + c) (i + 1) cs in
      if reaches p total (so_far + c) then some i else rest

  -- the inner `none` is -1
  unfoldable pub percentile : Histogram D → D → Option (Option ℕ)
  percentile h p =
      let found = size h >>= λ total. some (percentile_from p total 0 0 h.buckets) in
      if d.lt p d.nought || d.gt p d.hundred then some none else found

  -- the loop of `average`, from bucket `i` on
  pub weighted_from : Histogram D → ℕ → D → List ℕ → D
  weighted_from h i total [] = total
  weighted_from h i total (c ∷ cs) =
      weighted_from h (i + 1) (d.add total (d.mul (get_value h i) (d.of_int c))) cs

  pub average : Histogram D → Option D
  average h =
      size h >>= λ total. some (d.div (weighted_from h 0 d.nought h.buckets) (d.of_int total))

  -- a loop of `merge`, from bucket `i` of `a` on
  pub merge_from : Histogram D → ℕ → List ℕ → Histogram D → Option (Histogram D)
  merge_from a i [] h = some h
  merge_from a i (c ∷ cs) h = get_bucket h (get_value a i) >>= λ j.
      increase h.buckets j c >>= λ ds. merge_from a (i + 1) cs (record h { buckets = ds })

  unfoldable pub merge : Histogram D → Histogram D → Option (Histogram D)
  merge a b =
      let h =
        new_histogram (max a.nr_buckets b.nr_buckets) (d.smaller a.min_value b.max_value)
          (d.larger a.max_value b.max_value) in
      merge_from a 0 a.buckets h >>= λ h'. merge_from b 0 b.buckets h'
