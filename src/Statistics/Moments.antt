-- ===== src/Statistics/Moments.antt =====
-- The overloads with an operation.
use usable_lib.Prelude.{
  ◌≡◌, ◌∙◌, refl, sym, ap, ap₂, fun_ext, List, [], ◌∷◌, length, length-map, map,
}
use usable_lib.Histogram.Arithmetic.{Double}
use usable_lib.Statistics.{
  summation, summation_from, summation_by, summation_by_from, average, average_by, variance,
  variance_by,
}

module _ {D T : Type 0} ⦃d : Double D⦄ (f : T → D) where
  summation_by_from-map :
      (g : D → D → D) (total : D) (xs : List T)
      → summation_by_from (λ x p. g (f x) p) total xs ≡ summation_by_from g total (map f xs)
  unfolding summation_by_from
  summation_by_from-map g total [] = refl
  summation_by_from-map g total (x ∷ xs) = summation_by_from-map g (g (f x) total) xs

  average_by-map :
      (g : D → D → D) (xs : List T) → average_by (λ x p. g (f x) p) xs ≡ average_by g (map f xs)
  unfolding average_by summation_by
  average_by-map g xs =
      ap₂ d.div (summation_by_from-map g d.nought xs) (ap d.of_int (sym (length-map xs f)))

  summation_from-add :
      (total : D) (xs : List D)
      → summation_by_from (λ x p. d.add p x) total xs ≡ summation_from total xs
  unfolding summation_by_from summation_from
  summation_from-add total [] = refl
  summation_from-add total (x ∷ xs) = summation_from-add (d.add total x) xs

  average-add : (xs : List D) → average_by (λ x p. d.add p x) xs ≡ average xs
  unfolding average_by average summation_by summation
  average-add xs = ap (λ s. d.div s (d.of_int (length xs))) (summation_from-add d.nought xs)

  -- For an operation that adds a number got from its first argument to the second one, the variance with
  -- the operation is the variance of those numbers, when `- a + b` is `b - a` in the arithmetic.
  pub variance_by-map :
      (neg : D → D) (xs : List T)
      → ((a b : D) → d.add (neg a) b ≡ d.sub b a)
      → variance_by neg (λ x p. d.add p (f x)) xs ≡ variance (map f xs)
  unfolding variance_by variance
  variance_by-map neg xs minus =
      let avg = average_by-map (λ x p. d.add p x) xs ∙ average-add (map f xs) in
      rw avg (
        ap (λ g. average_by g xs)
          (fun_ext (λ x.
            fun_ext (λ p. ap (λ tmp. d.add p (d.mul tmp tmp)) (minus (average (map f xs)) (f x)))))
        ∙ average_by-map
            (λ x p. d.add p (d.mul (d.sub x (average (map f xs))) (d.sub x (average (map f xs)))))
            xs)
