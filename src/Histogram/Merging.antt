-- ===== src/Histogram/Merging.antt =====
-- What `merge` counts.
use usable_lib.Prelude.{
  ℕ, zero, suc, ◌+◌, ◌^◌, ◌≤◌, ap, get_or, ◌<◌, ◌≡◌, ◌∙◌, refl, subst, max, some, List, [], ◌∷◌,
  length, sum, replicate, arith,
}
use usable_lib.Histogram.{Histogram, size, new_histogram, get_bucket, get_value, merge, merge_from}
use usable_lib.Histogram.Arithmetic.{Double}
use usable_lib.Histogram.Counting.{increase-Increased, size_from-sum}

get_or-sum : (cs : List ℕ) (i : ℕ) → get_or cs i 0 ≤ sum cs
get_or-sum [] i = omega arith
get_or-sum (c ∷ cs) zero = omega arith
get_or-sum (c ∷ cs) (suc i) = omega (arith, get_or-sum cs i)

sum-replicate : (n : ℕ) → sum (replicate n 0) ≡ 0
sum-replicate zero = refl
sum-replicate (suc n) = omega (arith, sum-replicate n)

module _ {D : Type 0} ⦃d : Double D⦄ where
  -- From bucket `i` on, the values of the buckets of `a` have a bucket in `h`.
  unfoldable pub HaveBuckets : Histogram D → ℕ → ℕ → Histogram D → Type 0
  HaveBuckets a i count h =
      (k : ℕ)
      → k < count
      → (j : ℕ) × (get_bucket h (get_value a (i + k)) ≡ some j) × (j < length h.buckets)

  HaveBuckets-with :
      (a : Histogram D) (i count : ℕ) (h : Histogram D) (ds : List ℕ)
      → length ds ≡ length h.buckets
      → HaveBuckets a i count h
      → HaveBuckets a i count (record h { buckets = ds })
  unfolding HaveBuckets get_bucket
  HaveBuckets-with a i count h ds same have k lt =
      let (j, at, inside) = have k lt in (j, at, omega (arith, inside, same))

  HaveBuckets-next :
      (a : Histogram D) (i count : ℕ) (h : Histogram D) (ds : List ℕ)
      → length ds ≡ length h.buckets
      → HaveBuckets a i (suc count) h
      → HaveBuckets a (i + 1) count (record h { buckets = ds })
  unfolding HaveBuckets get_bucket
  HaveBuckets-next a i count h ds same have k lt =
      let (j, at, inside) = have (suc k) (omega arith) in
      (
        j,
        subst (λ m. get_bucket h (get_value a m) ≡ some j) (omega arith) at,
        omega (arith, inside, same),
      )

  merge_from-sum :
      (a : Histogram D) (i : ℕ) (cs : List ℕ) (h : Histogram D)
      → HaveBuckets a i (length cs) h
      → sum h.buckets + sum cs < 2 ^ 31
      → (ds : List ℕ) × (merge_from a i cs h ≡ some (record h { buckets = ds }))
        × (sum ds ≡ sum h.buckets + sum cs)
        × (length ds ≡ length h.buckets)
  unfolding merge_from HaveBuckets get_bucket
  merge_from-sum a i [] h have fits = (h.buckets, refl, omega arith, refl)
  merge_from-sum a i (c ∷ cs) h have fits =
      let first = have 0 (omega arith) in
      let at : get_bucket h (get_value a i) ≡ some first.0 =
        subst (λ k. get_bucket h (get_value a k) ≡ some first.0) (omega arith) first.1 in
      let new =
        increase-Increased h.buckets first.0 c first.2
          (omega (arith, get_or-sum h.buckets first.0, fits)) in
      let h' : Histogram D = record h { buckets = new.0 } in
      let rest =
        merge_from-sum a (i + 1) cs h'
          (HaveBuckets-next a i (length cs) h new.0 new.2.same_length have)
          (omega (arith, new.2.total, fits)) in
      (
        rest.0,
        rw (at, new.1) rest.1,
        omega (arith, rest.2, new.2.total),
        rest.3 ∙ new.2.same_length,
      )

  -- the histogram that `merge` fills
  abbrev pub empty_for : Histogram D → Histogram D → Histogram D
  empty_for a b =
      new_histogram (max a.nr_buckets b.nr_buckets) (d.smaller a.min_value b.max_value)
        (d.larger a.max_value b.max_value)

  -- When the lower limit of each bucket of the two has a bucket in the new histogram, and the sizes of the
  -- two are together an `int`, `merge` writes no count out of bounds and counts every value of both.
  pub merge-size :
      (a b : Histogram D)
      → HaveBuckets a 0 (length a.buckets) (empty_for a b)
      → HaveBuckets b 0 (length b.buckets) (empty_for a b)
      → sum a.buckets + sum b.buckets < 2 ^ 31
      → (h : Histogram D) × (merge a b ≡ some h) × (size h ≡ some (sum a.buckets + sum b.buckets))
  unfolding merge
  merge-size a b in_a in_b fits =
      let h : Histogram D = empty_for a b in
      let empty = sum-replicate (max a.nr_buckets b.nr_buckets) in
      let one = merge_from-sum a 0 a.buckets h in_a (omega (arith, empty, fits)) in
      let h' : Histogram D = record h { buckets = one.0 } in
      let two =
        merge_from-sum b 0 b.buckets h' (HaveBuckets-with b 0 (length b.buckets) h one.0 one.3 in_b)
          (omega (arith, one.2, empty, fits)) in
      let all : sum two.0 ≡ sum a.buckets + sum b.buckets = omega (arith, two.2, one.2, empty) in
      (
        record h { buckets = two.0 },
        rw one.1 two.1,
        size_from-sum 0 two.0 (omega (arith, all, fits)) ∙ ap some (omega (arith, all)),
      )
