-- ===== src/Histogram/Arithmetic.antt =====
-- What `Histogram` does with a `double`: its constants, its comparisons, and the arithmetic. `to_int` is
-- the conversion to `int`, `none` for what is below 0.
use usable_lib.Prelude.{ℕ, ◌+◌, ◌-◌, ◌*◌, ◌/◌, Bool, Option, some, min, max, ltb, leb}

pub record Double (D : Type 0) : Type 0 where
  pub nought : D
  pub hundred : D
  pub minus_one : D
  pub lt : D → D → Bool
  pub gt : D → D → Bool
  pub ge : D → D → Bool
  pub add : D → D → D
  pub sub : D → D → D
  pub mul : D → D → D
  pub div : D → D → D
  pub smaller : D → D → D
  pub larger : D → D → D
  pub of_int : ℕ → D
  pub to_int : D → Option ℕ

-- Thousandths as a number, for the values that are used.
instance abbrev pub thousandths : Double ℕ
thousandths = record {
  nought = 0;
  hundred = 100000;
  minus_one = 0;
  lt = ltb;
  gt = λ a b. ltb b a;
  ge = λ a b. leb b a;
  add = λ a b. a + b;
  sub = λ a b. a - b;
  mul = λ a b. a * b / 1000;
  div = λ a b. a * 1000 / b;
  smaller = min;
  larger = max;
  of_int = λ n. n * 1000;
  to_int = λ a. some (a / 1000);
}
