-- ===== src/Statistics.antt =====
-- statistic.h, the functions on ranges. The arithmetic of `double` is a parameter, as in Histogram, with
-- `neg` for the unary minus and `root` for `std::sqrt`.
pub mod Moments
use usable_lib.Prelude.{ℕ, List, [], ◌∷◌, length}
use usable_lib.Histogram.Arithmetic.{Double}

module _ {D : Type 0} ⦃d : Double D⦄ where
  -- the loop of `summation<double>`
  unfoldable pub summation_from : D → List D → D
  summation_from total [] = total
  summation_from total (x ∷ xs) = summation_from (d.add total x) xs

  unfoldable pub summation : List D → D
  summation xs = summation_from d.nought xs

  -- `average`, of one value at least
  unfoldable pub average : List D → D
  average xs = d.div (summation xs) (d.of_int (length xs))

module _ {D T : Type 0} ⦃d : Double D⦄ where
  -- the loop of the overload with an operation
  unfoldable pub summation_by_from : (T → D → D) → D → List T → D
  summation_by_from op total [] = total
  summation_by_from op total (x ∷ xs) = summation_by_from op (op x total) xs

  unfoldable pub summation_by : (T → D → D) → List T → D
  summation_by op xs = summation_by_from op d.nought xs

  unfoldable pub average_by : (T → D → D) → List T → D
  average_by op xs = d.div (summation_by op xs) (d.of_int (length xs))

module _ {D : Type 0} ⦃d : Double D⦄ where
  unfoldable pub variance : List D → D
  variance xs =
      let avg = average xs in
      average_by (λ x p. let tmp = d.sub x avg in d.add p (d.mul tmp tmp)) xs

  unfoldable pub stddeviation : (D → D) → List D → D
  stddeviation root xs = root (variance xs)

module _ {D T : Type 0} ⦃d : Double D⦄ where
  unfoldable pub variance_by : (D → D) → (T → D → D) → List T → D
  variance_by neg op xs =
      let avg = average_by op xs in
      average_by (λ x p. let tmp = op x (neg avg) in d.add p (d.mul tmp tmp)) xs

  unfoldable pub stddeviation_by : (D → D) → (D → D) → (T → D → D) → List T → D
  stddeviation_by root neg op xs = root (variance_by neg op xs)
