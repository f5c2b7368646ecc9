-- ===== src/Dlog/Formats.antt =====
-- How `printf` reads the texts that the macros put together.
use usable_lib.Prelude.{
  ℕ, ◌≤◌, ◌≡◌, ◌∙◌, refl, ap, subst, false, none, some, List, [], ◌∷◌, ◌++◌, append_assoc,
  append-nil, length, arith, ◌==◌,
}
use usable_lib.Dlog.{
  CType, c_char, c_short, c_int, c_long, c_long_long, c_unsigned_char, c_unsigned_short,
  c_unsigned_int, c_unsigned_long, c_unsigned_long_long, c_float, c_double, c_long_double,
  c_pointer, dlog_type_fmt, percent, percent_s, c_string, outside, format, is_modifier,
  is_conversion,
}

-- a text without `%`
unfoldable pub NoPercent : List ℕ → Type 0
NoPercent [] = Unit
NoPercent (c ∷ text) = ((c == percent) ≡ false) × NoPercent text

-- `x` prints the arguments `ps` as `u`, whatever follows
unfoldable pub Prints : List ℕ → List (List ℕ) → List ℕ → Type 0
Prints x ps u =
    (text : List ℕ) (args : List (List ℕ)) (out : List ℕ)
    → format outside text args ≡ some out
    → format outside (x ++ text) (ps ++ args) ≡ some (u ++ out)

pub Prints-append :
    (x y : List ℕ) (ps bs : List (List ℕ)) (u v : List ℕ)
    → Prints x ps u
    → Prints y bs v
    → Prints (x ++ y) (ps ++ bs) (u ++ v)
unfolding Prints
Prints-append x y ps bs u v px py text args out e =
    rw (append_assoc x y text, append_assoc ps bs args, append_assoc u v out)
      (px (y ++ text) (bs ++ args) (v ++ out) (py text args out e))

pub format-Prints :
    (x : List ℕ) (ps : List (List ℕ)) (u : List ℕ) → Prints x ps u → format outside x ps ≡ some u
unfolding Prints format
format-Prints x ps u p =
    subst (λ y. format outside y ps ≡ some u) (append-nil x)
      (subst (λ bs. format outside (x ++ []) bs ≡ some u) (append-nil ps)
        (p [] [] [] refl ∙ ap some (append-nil u)))

-- a text without `%` is printed as it is
pub plain-Prints : (x : List ℕ) → NoPercent x → Prints x [] x
unfolding Prints NoPercent format
plain-Prints [] h text args out e = e
plain-Prints (c ∷ x) h text args out e = rw (h.0, plain-Prints x h.1 text args out e) refl

-- a text with a conversion that is not known
unfoldable pub Fails : List ℕ → Type 0
Fails x = (text : List ℕ) (args : List (List ℕ)) → format outside (x ++ text) args ≡ none

pub conversion-Fails :
    (c : ℕ) (text : List ℕ)
    → is_modifier c ≡ false
    → is_conversion c ≡ false
    → Fails (percent ∷ c ∷ text)
unfolding Fails format
conversion-Fails c text hm hc more args = rw (hm, hc) refl

pub append-Fails : (x y : List ℕ) → Fails x → Fails (x ++ y)
unfolding Fails
append-Fails x y h text args = rw (append_assoc x y text) (h (y ++ text) args)

pub plain-Fails : (x y : List ℕ) → NoPercent x → Fails y → Fails (x ++ y)
unfolding Fails NoPercent format
plain-Fails [] y h f text args = f text args
plain-Fails (c ∷ x) y h f text args = rw (h.0, plain-Fails x y h.1 f text args) refl

pub format-Fails : (x : List ℕ) (args : List (List ℕ)) → Fails x → format outside x args ≡ none
unfolding Fails
format-Fails x args h = subst (λ y. format outside y args ≡ none) (append-nil x) (h [] args)

-- `%s`, and the format of each type, print one argument
pub s-Prints : (a : List ℕ) → Prints percent_s (a ∷ []) a
unfolding Prints format
s-Prints a text args out e = rw e refl

-- the types whose format is defined
unfoldable pub IsPrintable : CType → Type 0
IsPrintable c_long_double = ⊥
IsPrintable _ = Unit

pub type-Prints : (t : CType) (a : List ℕ) → IsPrintable t → Prints (dlog_type_fmt t) (a ∷ []) a
unfolding Prints format dlog_type_fmt IsPrintable
type-Prints c_char a h text args out e = rw e refl
type-Prints c_short a h text args out e = rw e refl
type-Prints c_int a h text args out e = rw e refl
type-Prints c_long a h text args out e = rw e refl
type-Prints c_long_long a h text args out e = rw e refl
type-Prints c_unsigned_char a h text args out e = rw e refl
type-Prints c_unsigned_short a h text args out e = rw e refl
type-Prints c_unsigned_int a h text args out e = rw e refl
type-Prints c_unsigned_long a h text args out e = rw e refl
type-Prints c_unsigned_long_long a h text args out e = rw e refl
type-Prints c_float a h text args out e = rw e refl
type-Prints c_double a h text args out e = rw e refl
type-Prints c_long_double a h text args out e = absurd h
type-Prints c_pointer a h text args out e = rw e refl

-- a text without the character of code 0
unfoldable pub NoZero : List ℕ → Type 0
NoZero [] = Unit
NoZero (c ∷ text) = ((c == 0) ≡ false) × NoZero text

pub c_string_whole : (text : List ℕ) → NoZero text → c_string text ≡ text
unfolding NoZero c_string
c_string_whole [] h = refl
c_string_whole (c ∷ text) h = rw (h.0, c_string_whole text h.1) refl

pub NoZero-append : (x y : List ℕ) → NoZero x → NoZero y → NoZero (x ++ y)
unfolding NoZero
NoZero-append [] y h k = k
NoZero-append (c ∷ x) y h k = (h.0, NoZero-append x y h.1 k)

pub dlog_type_fmt-NoZero : (t : CType) → NoZero (dlog_type_fmt t)
unfolding NoZero dlog_type_fmt
dlog_type_fmt-NoZero c_char = ground arith
dlog_type_fmt-NoZero c_short = ground arith
dlog_type_fmt-NoZero c_int = ground arith
dlog_type_fmt-NoZero c_long = ground arith
dlog_type_fmt-NoZero c_long_long = ground arith
dlog_type_fmt-NoZero c_unsigned_char = ground arith
dlog_type_fmt-NoZero c_unsigned_short = ground arith
dlog_type_fmt-NoZero c_unsigned_int = ground arith
dlog_type_fmt-NoZero c_unsigned_long = ground arith
dlog_type_fmt-NoZero c_unsigned_long_long = ground arith
dlog_type_fmt-NoZero c_float = ground arith
dlog_type_fmt-NoZero c_double = ground arith
dlog_type_fmt-NoZero c_long_double = ground arith
dlog_type_fmt-NoZero c_pointer = ground arith

pub length-dlog_type_fmt : (t : CType) → length (dlog_type_fmt t) ≤ 4
unfolding dlog_type_fmt
length-dlog_type_fmt c_char = omega arith
length-dlog_type_fmt c_short = omega arith
length-dlog_type_fmt c_int = omega arith
length-dlog_type_fmt c_long = omega arith
length-dlog_type_fmt c_long_long = omega arith
length-dlog_type_fmt c_unsigned_char = omega arith
length-dlog_type_fmt c_unsigned_short = omega arith
length-dlog_type_fmt c_unsigned_int = omega arith
length-dlog_type_fmt c_unsigned_long = omega arith
length-dlog_type_fmt c_unsigned_long_long = omega arith
length-dlog_type_fmt c_float = omega arith
length-dlog_type_fmt c_double = omega arith
length-dlog_type_fmt c_long_double = omega arith
length-dlog_type_fmt c_pointer = omega arith
