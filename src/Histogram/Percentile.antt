-- ===== src/Histogram/Percentile.antt =====
-- Which bucket `percentile` returns.
use usable_lib.Prelude.{ℕ, suc, ◌+◌, ◌<◌, ◌≡◌, true, false, List, length, sum, take}
use usable_lib.Histogram.{Histogram}
use usable_lib.Histogram.Arithmetic.{Double}

module _ {D : Type 0} ⦃d : Double D⦄ where
  -- bucket `j` is the first where the counts up to it are at least `p` percent of `total`
  pub record First (p : D) (total so_far : ℕ) (cs : List ℕ) (j : ℕ) : Type 0 where
    pub inside : j < length cs
    pub enough :
        d.ge
          (d.mul (d.div (d.of_int (so_far + sum (take (suc j) cs))) (d.of_int total)) d.hundred)
          p
        ≡ true
    pub before :
        (k : ℕ)
        → k < j
        → d.ge
            (d.mul (d.div (d.of_int (so_far + sum (take (suc k) cs))) (d.of_int total)) d.hundred)
            p
          ≡ false
