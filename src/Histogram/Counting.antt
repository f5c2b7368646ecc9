-- ===== src/Histogram/Counting.antt =====
-- What `add` counts.
use usable_lib.Prelude.{
  ℕ, zero, suc, ◌+◌, ◌^◌, ◌≤◌, ◌<◌, ◌≡◌, ◌⊎◌, inl, inr, dec_lt, refl, ap, false, ◌||◌, none, some,
  List, [], ◌∷◌, length, sum, get_or, arith, if◌then◌else◌, ◌==◌,
}
use usable_lib.Histogram.{Histogram, increase, size_from, get_bucket, add}
use usable_lib.Histogram.Arithmetic.{Double}

-- bucket `i` has `n` more
pub record Increased (cs ds : List ℕ) (i n : ℕ) : Type 0 where
  pub same_length : length ds ≡ length cs
  pub total : sum ds ≡ sum cs + n
  pub each : (k : ℕ) → k < length cs → get_or ds k 0 ≡ get_or cs k 0 + (if k == i then n else 0)

first_each :
    (c : ℕ) (cs : List ℕ) (n k : ℕ)
    → k < length (c ∷ cs)
    → get_or ((c + n) ∷ cs) k 0 ≡ get_or (c ∷ cs) k 0 + (if k == 0 then n else 0)
first_each c cs n zero h = refl
first_each c cs n (suc k) h = ground arith

next_each :
    (c : ℕ) (cs ds : List ℕ) (i n : ℕ)
    → Increased cs ds i n
    → (k : ℕ) → k < length (c ∷ cs)
    → get_or (c ∷ ds) k 0 ≡ get_or (c ∷ cs) k 0 + (if k == suc i then n else 0)
next_each c cs ds i n r zero h = ground arith
next_each c cs ds i n r (suc k) h = ground (arith, r.each k)

pub increase-Increased :
    (cs : List ℕ) (i n : ℕ)
    → i < length cs
    → get_or cs i 0 + n < 2 ^ 31
    → (ds : List ℕ) × (increase cs i n ≡ some ds) × Increased cs ds i n
unfolding increase
increase-Increased [] i n h b = absurd (omega arith)
increase-Increased (c ∷ cs) zero n h b = (
  (c + n) ∷ cs,
  ground (arith, b),
  record { same_length = refl; total = omega arith; each = first_each c cs n },
)
increase-Increased (c ∷ cs) (suc i) n h b =
    let rest = increase-Increased cs i n (omega arith) b in
    (
      c ∷ rest.0,
      rw rest.1 refl,
      record {
        same_length = ap suc rest.2.same_length;
        total = omega (arith, rest.2.total);
        each = next_each c cs rest.0 i n rest.2;
      },
    )

pub increase-none : (cs : List ℕ) (i n : ℕ) → length cs ≤ i → increase cs i n ≡ none
unfolding increase
increase-none [] i n h = refl
increase-none (c ∷ cs) zero n h = absurd (omega arith)
increase-none (c ∷ cs) (suc i) n h = rw (increase-none cs i n (omega arith)) refl

-- a count that overflows
pub increase-overflow :
    (cs : List ℕ) (i n : ℕ) → i < length cs → 2 ^ 31 ≤ get_or cs i 0 + n → increase cs i n ≡ none
unfolding increase
increase-overflow [] i n h b = absurd (omega arith)
increase-overflow (c ∷ cs) zero n h b = ground (arith, b)
increase-overflow (c ∷ cs) (suc i) n h b = rw (increase-overflow cs i n (omega arith) b) refl

pub size_from-sum :
    (total : ℕ) (cs : List ℕ) → total + sum cs < 2 ^ 31 → size_from total cs ≡ some (total + sum cs)
unfolding size_from
size_from-sum total [] h = ap some (omega arith)
size_from-sum total (c ∷ cs) h = ground (arith, size_from-sum (total + c) cs (omega arith))

pub size_from-some :
    (total : ℕ) (cs : List ℕ) (n : ℕ)
    → total < 2 ^ 31
    → size_from total cs ≡ some n
    → (n ≡ total + sum cs) × (n < 2 ^ 31)
unfolding size_from
size_from-some total [] n h e = ground (arith, e)
size_from-some total (c ∷ cs) n h e = elim (dec_lt (total + c) (2 ^ 31)) [
  | yes lt ↦
      let rest = size_from-some (total + c) cs n lt (ground (arith, e, lt)) in
      (omega (arith, rest.0), rest.1)
  | no ge ↦ absurd (ground (arith, e, ge))
]

module _ {D : Type 0} ⦃d : Double D⦄ where
  -- A histogram has as many counts as buckets.
  unfoldable pub IsWhole : Histogram D → Type 0
  IsWhole h = length h.buckets ≡ h.nr_buckets

  -- Of a value from the lower to the upper limit, whose distance from the lower limit divided by the
  -- width of a bucket is `i` as an `int`: when there are more than `i` buckets and the count of bucket `i`
  -- is below the largest `int`, `add` counts one more in bucket `i` and in the sum of the counts, and no
  -- other count changes. Otherwise it writes out of bounds or overflows the count.
  pub add-Increased :
      (h : Histogram D) (value : D) (i : ℕ)
      → IsWhole h
      → (d.lt value h.min_value || d.gt value h.max_value) ≡ false
      → d.to_int (d.div (d.sub value h.min_value) h.bucket_width) ≡ some i
      → ((i < h.nr_buckets)
          × (get_or h.buckets i 0 + 1 < 2 ^ 31)
          × (cs : List ℕ) × (add h value ≡ some (record h { buckets = cs }))
          × Increased h.buckets cs i 1)
        ⊎ (((h.nr_buckets ≤ i) ⊎ (2 ^ 31 ≤ get_or h.buckets i 0 + 1)) × (add h value ≡ none))
  unfolding add get_bucket IsWhole
  add-Increased h value i whole inside at = elim (dec_lt i h.nr_buckets) [
    | yes lt ↦ elim (dec_lt (get_or h.buckets i 0 + 1) (2 ^ 31)) [
      | yes fits ↦
          let new = increase-Increased h.buckets i 1 (omega (arith, whole, lt)) fits in
          inl (lt, fits, new.0, rw (inside, at, new.1) refl, new.2)
      | no full ↦
          let over : 2 ^ 31 ≤ get_or h.buckets i 0 + 1 = omega (arith, full) in
          let none_added = increase-overflow h.buckets i 1 (omega (arith, whole, lt)) over in
          inr (inr over, rw (inside, at, none_added) refl)
    ]
    | no ge ↦ inr (
      inl (omega (arith, ge)),
      rw (inside, at, increase-none h.buckets i 1 (omega (arith, whole, ge))) refl,
    )
  ]

  -- When the quotient for the upper limit is the number of buckets, as it is without rounding, `add` of
  -- the upper limit itself writes out of bounds.
  pub add_upper_limit :
      (h : Histogram D)
      → IsWhole h
      → (d.lt h.max_value h.min_value || d.gt h.max_value h.max_value) ≡ false
      → d.to_int (d.div (d.sub h.max_value h.min_value) h.bucket_width) ≡ some h.nr_buckets
      → add h h.max_value ≡ none
  add_upper_limit h whole inside at =
      elim (add-Increased h h.max_value h.nr_buckets whole inside at) [
        | inl lower ↦ absurd (omega (arith, lower.0))
        | inr out ↦ out.1
      ]
