-- ===== src/Histogram/Tests.antt =====
-- Histograms of thousandths.
use usable_lib.Prelude.{
  ℕ, zero, suc, ◌+◌, ◌^◌, get_or, ◌≤◌, ◌<◌, ◌≡◌, ◌⊎◌, refl, none, some, List, [], ◌∷◌, arith,
}
use usable_lib.Histogram.{Histogram, get_bucket, get_value, add}
use usable_lib.Histogram.Arithmetic.{thousandths}
use usable_lib.Histogram.Counting.{IsWhole, Increased, add-Increased}
use usable_lib.Histogram.Merging.{HaveBuckets, empty_for}

-- 4 buckets from 0 to 8
abbrev four : Histogram ℕ
four = record {
  nr_buckets = 4;
  min_value = 0;
  max_value = 8000;
  bucket_width = 2000;
  buckets = 3 ∷ 1 ∷ 0 ∷ 6 ∷ [];
}

four-IsWhole : IsWhole four
unfolding IsWhole
four-IsWhole = refl

in_the_third : get_bucket four 5000 ≡ some 2
unfolding get_bucket
in_the_third = refl

in_the_fifth : get_bucket four 8000 ≡ some 4
unfolding get_bucket
in_the_fifth = refl

add-Increased_example :
    ((2 < 4)
      × (get_or four.buckets 2 0 + 1 < 2 ^ 31)
      × (cs : List ℕ) × (add four 5000 ≡ some (record four { buckets = cs }))
      × Increased four.buckets cs 2 1)
    ⊎ (((4 ≤ 2) ⊎ (2 ^ 31 ≤ get_or four.buckets 2 0 + 1)) × (add four 5000 ≡ none))
add-Increased_example = add-Increased four 5000 2 four-IsWhole refl refl

abbrev two_counts : Histogram ℕ
two_counts = record {
  nr_buckets = 2;
  min_value = 0;
  max_value = 4000;
  bucket_width = 2000;
  buckets = 3 ∷ 1 ∷ [];
}

two_counts-HaveBuckets : HaveBuckets two_counts 0 2 (empty_for two_counts two_counts)
unfolding HaveBuckets get_bucket get_value
two_counts-HaveBuckets zero h = (0, refl, omega arith)
two_counts-HaveBuckets (suc zero) h = (1, refl, omega arith)
two_counts-HaveBuckets (suc (suc k)) h = absurd (omega arith)
