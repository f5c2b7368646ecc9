-- ===== src/Dlog/Asserts.antt =====
-- What `DLOG_EXPR` and `DLOG_ASSERT` print, and when they end the program.
use usable_lib.Prelude.{
  ℕ, zero, suc, ◌+◌, ◌≤◌, ◌≡◌, ◌∙◌, refl, ap, subst, Bool, false, ◌||◌, none, some, List, [], ◌∷◌,
  ◌++◌, append-nil, length, length-append, take, arith, if◌then◌else◌,
}
use usable_lib.Dlog.{
  stderr, prints, flushes, aborts, CType, dlog_type_fmt, because, equals, separator, percent,
  percent_s, placeholder, fatal_mark, colon, assertion, failed, blank, newline, format, is_modifier,
  is_conversion, dlog_stream, dlog_fatal, expr_text, fmt_size, expr_failed, expr_fmt, expr_tmp,
  dlog_expr, c_string, outside,
}
use usable_lib.Dlog.Formats.{
  NoPercent, Prints, Prints-append, format-Prints, plain-Prints, Fails, conversion-Fails,
  append-Fails, plain-Fails, format-Fails, s-Prints, type-Prints, length-dlog_type_fmt, NoZero,
  c_string_whole, NoZero-append, dlog_type_fmt-NoZero, IsPrintable,
}

take_all : (n : ℕ) (xs : List ℕ) → length xs ≤ n → take n xs ≡ xs
take_all zero [] h = refl
take_all zero (x ∷ xs) h = absurd (omega arith)
take_all (suc n) [] h = refl
take_all (suc n) (x ∷ xs) h = ap (x ∷◌) (take_all n xs (omega arith))

pair-Prints :
    (val_a val_b f g a b : List ℕ)
    → NoPercent val_a
    → NoPercent val_b
    → Prints f (a ∷ []) a
    → Prints g (b ∷ []) b
    → Prints (expr_text val_a val_b f g) (a ∷ b ∷ []) (expr_text val_a val_b a b)
unfolding expr_text NoPercent
pair-Prints val_a val_b f g a b pa pb cf cg =
    let start =
      Prints-append because val_a [] [] because val_a (plain-Prints because (ground arith))
        (plain-Prints val_a pa) in
    let first =
      Prints-append _ f [] (a ∷ []) _ a
        (Prints-append _ equals [] [] _ equals start (plain-Prints equals (ground arith))) cf in
    let next =
      Prints-append _ separator (a ∷ []) [] _ separator first
        (plain-Prints separator (ground arith)) in
    let named = Prints-append _ val_b (a ∷ []) [] _ val_b next (plain-Prints val_b pb) in
    Prints-append _ g (a ∷ []) (b ∷ []) _ b
      (Prints-append _ equals (a ∷ []) [] _ equals named (plain-Prints equals (ground arith))) cg

length-expr_text :
    (val_a val_b f g : List ℕ)
    → length (expr_text val_a val_b f g) ≡ length val_a + length val_b + length f + length g + 16
unfolding expr_text
length-expr_text val_a val_b f g =
    rw
      (
        length-append (because ++ val_a ++ equals ++ f ++ separator ++ val_b ++ equals) g,
        length-append (because ++ val_a ++ equals ++ f ++ separator ++ val_b) equals,
        length-append (because ++ val_a ++ equals ++ f ++ separator) val_b,
        length-append (because ++ val_a ++ equals ++ f) separator,
        length-append (because ++ val_a ++ equals) f,
        length-append (because ++ val_a) equals,
        length-append because val_a,
      )
      (omega arith)

marks-NoZero : NoZero because × NoZero equals × NoZero separator
unfolding NoZero
marks-NoZero = (ground arith, ground arith, ground arith)

expr_text-NoZero :
    (val_a val_b a b : List ℕ)
    → NoZero val_a
    → NoZero val_b
    → NoZero a
    → NoZero b
    → NoZero (expr_text val_a val_b a b)
unfolding expr_text
expr_text-NoZero val_a val_b a b za zb ya yb =
    let (in_because, in_equals, in_separator) = marks-NoZero in
    let start = NoZero-append because val_a in_because za in
    let first = NoZero-append _ a (NoZero-append _ equals start in_equals) ya in
    let named = NoZero-append _ val_b (NoZero-append _ separator first in_separator) zb in
    NoZero-append _ b (NoZero-append _ equals named in_equals) yb

-- a text of the program: without `%` and without the character of code 0
unfoldable pub IsText : List ℕ → Type 0
IsText text = NoPercent text × NoZero text

-- `fmt` is not cut: it is the format that prints the two texts and the two values.
expr_fmt_whole :
    (val_a val_b : List ℕ) (type_a type_b : CType)
    → IsText val_a
    → IsText val_b
    → expr_fmt val_a val_b type_a type_b
      ≡ some (expr_text val_a val_b (dlog_type_fmt type_a) (dlog_type_fmt type_b))
unfolding expr_fmt fmt_size IsText
expr_fmt_whole val_a val_b type_a type_b pa pb =
    let made = format-Prints _ _ _ (
      pair-Prints val_a val_b percent_s percent_s (dlog_type_fmt type_a) (dlog_type_fmt type_b) pa.0
        pb.0 (s-Prints _) (s-Prints _)) in
    let all =
      expr_text-NoZero val_a val_b (dlog_type_fmt type_a) (dlog_type_fmt type_b) pa.1 pb.1
        (dlog_type_fmt-NoZero type_a) (dlog_type_fmt-NoZero type_b) in
    rw made (
      ap some (
        ap c_string (
          take_all _ _ (
            omega (
              arith,
              length-dlog_type_fmt type_a,
              length-dlog_type_fmt type_b,
              length-expr_text val_a val_b (dlog_type_fmt type_a) (dlog_type_fmt type_b),
              length-expr_text val_a val_b placeholder placeholder,
            )))
        ∙ c_string_whole _ all))

-- `tmp` is not cut when the two values are printed in 50 characters at most, without one of code 0.
expr_tmp_whole :
    (val_a val_b : List ℕ) (type_a type_b : CType) (a b : List ℕ)
    → IsText val_a
    → IsText val_b
    → IsPrintable type_a
    → IsPrintable type_b
    → NoZero a
    → NoZero b
    → length a + length b ≤ 50
    → expr_tmp val_a val_b type_a type_b a b ≡ some (expr_text val_a val_b a b)
unfolding expr_tmp fmt_size IsText
expr_tmp_whole val_a val_b type_a type_b a b pa pb ia ib ya yb short =
    let made = format-Prints _ _ _ (
      pair-Prints val_a val_b (dlog_type_fmt type_a) (dlog_type_fmt type_b) a b pa.0 pb.0
        (type-Prints type_a a ia) (type-Prints type_b b ib)) in
    let all = expr_text-NoZero val_a val_b a b pa.1 pb.1 ya yb in
    rw (expr_fmt_whole val_a val_b type_a type_b pa pb, made)
      (ap some (
        ap c_string (
          take_all _ _ (
            omega (
              arith,
              length-expr_text val_a val_b a b,
              length-expr_text val_a val_b placeholder placeholder,
            )))
        ∙ c_string_whole _ all))

failed-Prints :
    (val_a op val_b tmp : List ℕ)
    → NoPercent val_a
    → NoPercent op
    → NoPercent val_b
    → Prints (expr_failed val_a op val_b percent_s) (tmp ∷ []) (expr_failed val_a op val_b tmp)
unfolding expr_failed NoPercent
failed-Prints val_a op val_b tmp pa po pb =
    let start =
      Prints-append assertion val_a [] [] assertion val_a (plain-Prints assertion (ground arith))
        (plain-Prints val_a pa) in
    let space : Prints (blank ∷ []) [] (blank ∷ []) = plain-Prints (blank ∷ []) (ground arith) in
    let middle =
      Prints-append _ op [] [] _ op (Prints-append _ (blank ∷ []) [] [] _ (blank ∷ []) start space)
        (plain-Prints op po) in
    let next =
      Prints-append _ val_b [] [] _ val_b
        (Prints-append _ (blank ∷ []) [] [] _ (blank ∷ []) middle space) (plain-Prints val_b pb) in
    Prints-append _ percent_s [] (tmp ∷ []) _ tmp
      (Prints-append _ failed [] [] _ failed next (plain-Prints failed (ground arith)))
      (s-Prints tmp)

module _ (stamp error_text : List ℕ) where
  -- what `DLOG_FATAL` does
  dlog_fatal_prints :
      (text : List ℕ) (args : List (List ℕ)) (line : List ℕ)
      → Prints text args line
      → dlog_fatal stamp error_text text args
        ≡ some (
            prints stderr (stamp ++ (fatal_mark ++ line ++ colon ++ error_text) ++ newline ∷ [])
            ∷ flushes
            ∷ aborts
            ∷ [])
  unfolding dlog_fatal dlog_stream NoPercent
  dlog_fatal_prints text args line p =
      let marked =
        Prints-append fatal_mark text [] args fatal_mark line
          (plain-Prints fatal_mark (ground arith)) p in
      let parted =
        Prints-append _ colon args [] _ colon marked (plain-Prints colon (ground arith)) in
      let whole =
        Prints-append _ percent_s (args ++ []) (error_text ∷ []) _ error_text parted
          (s-Prints error_text) in
      let made =
        subst
          (λ ps.
            format outside (fatal_mark ++ text ++ colon ++ percent_s) (ps ++ error_text ∷ [])
            ≡ some (fatal_mark ++ line ++ colon ++ error_text))
          (append-nil args) (format-Prints _ _ _ whole) in
      rw made refl

  -- `DLOG_EXPR` of texts without `%` and without a character of code 0, with values of types whose format
  -- is defined (all but `long double`), printed in 50 characters at most and none of code 0, does nothing
  -- when the comparison holds or under `NDEBUG`. Otherwise it prints the three texts, both values and the
  -- text of `errno` to `stderr`, nothing of them cut, flushes, and ends the program.
  pub dlog_expr_lem :
      (ndebug holds : Bool) (val_a op val_b : List ℕ) (type_a type_b : CType) (a b : List ℕ)
      → IsText val_a
      → IsText op
      → IsText val_b
      → IsPrintable type_a
      → IsPrintable type_b
      → NoZero a
      → NoZero b
      → length a + length b ≤ 50
      → dlog_expr stamp error_text ndebug holds val_a op val_b type_a type_b a b
        ≡ some (
            if ndebug || holds
            then []
            else prints stderr (
                stamp
                ++ (fatal_mark
                    ++ expr_failed val_a op val_b (expr_text val_a val_b a b)
                    ++ colon
                    ++ error_text)
                ++ newline ∷ [])
              ∷ flushes
              ∷ aborts
              ∷ [])
  unfolding dlog_expr IsText
  dlog_expr_lem ndebug holds val_a op val_b type_a type_b a b pa po pb ia ib ya yb short =
      let tmp = expr_text val_a val_b a b in
      let fatal =
        dlog_fatal_prints (expr_failed val_a op val_b percent_s) (tmp ∷ []) _
          (failed-Prints val_a op val_b tmp pa.0 po.0 pb.0) in
      rw (expr_tmp_whole val_a val_b type_a type_b a b pa pb ia ib ya yb short, fatal)
        (ground arith)

  -- The texts of a comparison that fails are read as formats: with a `%` in the first one and then a
  -- character that starts no conversion of those the macros use, as in `x % 2`, what `DLOG_EXPR` does is
  -- not defined.
  pub dlog_expr-percent :
      (before behind op val_b : List ℕ) (c : ℕ) (type_a type_b : CType) (a b : List ℕ)
      → NoPercent before
      → is_modifier c ≡ false
      → is_conversion c ≡ false
      → dlog_expr stamp error_text false false
          (before ++ percent ∷ c ∷ behind)
          op
          val_b
          type_a
          type_b
          a
          b
        ≡ none
  unfolding dlog_expr expr_tmp expr_fmt expr_text NoPercent
  dlog_expr-percent before behind op val_b c type_a type_b a b pb hm hc =
      let val_a : List ℕ = before ++ percent ∷ c ∷ behind in
      let start : Fails (because ++ val_a) =
        plain-Fails because val_a (ground arith)
          (plain-Fails before (percent ∷ c ∷ behind) pb (conversion-Fails c behind hm hc)) in
      let first =
        append-Fails _ separator (append-Fails _ percent_s (append-Fails _ equals start)) in
      let all = append-Fails _ percent_s (append-Fails _ equals (append-Fails _ val_b first)) in
      rw (format-Fails _ (dlog_type_fmt type_a ∷ dlog_type_fmt type_b ∷ []) all) refl
