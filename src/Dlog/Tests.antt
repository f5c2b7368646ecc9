-- ===== src/Dlog/Tests.antt =====
-- A comparison of `x` and `1` that fails.
use usable_lib.Prelude.{ℕ, ◌≡◌, false, some, List, [], ◌∷◌, ◌++◌, arith}
use usable_lib.Dlog.{
  stderr, prints, flushes, aborts, c_int, fatal_mark, colon, newline, expr_text, expr_failed,
  dlog_expr,
}
use usable_lib.Dlog.Formats.{NoPercent, NoZero, IsPrintable}
use usable_lib.Dlog.Asserts.{dlog_expr_lem, IsText}

-- "x", "==", "1" and "2"
abbrev x_text : List ℕ
x_text = 120 ∷ []

abbrev same_text : List ℕ
same_text = 61 ∷ 61 ∷ []

abbrev one_text : List ℕ
one_text = 49 ∷ []

abbrev two_text : List ℕ
two_text = 50 ∷ []

abbrev stamp : List ℕ
stamp = 91 ∷ 93 ∷ 32 ∷ []

abbrev errno_text : List ℕ
errno_text = 79 ∷ 75 ∷ []

x_text-IsText : IsText x_text
unfolding IsText NoPercent NoZero
x_text-IsText = (ground arith, ground arith)

same_text-IsText : IsText same_text
unfolding IsText NoPercent NoZero
same_text-IsText = (ground arith, ground arith)

one_text-IsText : IsText one_text
unfolding IsText NoPercent NoZero
one_text-IsText = (ground arith, ground arith)

values-NoZero : NoZero two_text × NoZero one_text
unfolding NoZero
values-NoZero = (ground arith, ground arith)

c_int-IsPrintable : IsPrintable c_int
unfolding IsPrintable
c_int-IsPrintable = tt

dlog_expr_lem_example :
    dlog_expr stamp errno_text false false x_text same_text one_text c_int c_int two_text one_text
    ≡ some (
        prints stderr (
          stamp
          ++ (fatal_mark
              ++ expr_failed x_text same_text one_text (expr_text x_text one_text two_text one_text)
              ++ colon
              ++ errno_text)
          ++ newline ∷ [])
        ∷ flushes
        ∷ aborts
        ∷ [])
dlog_expr_lem_example =
    dlog_expr_lem stamp errno_text false false x_text same_text one_text c_int c_int two_text
      one_text x_text-IsText same_text-IsText one_text-IsText c_int-IsPrintable c_int-IsPrintable
      values-NoZero.0 values-NoZero.1 (omega arith)
