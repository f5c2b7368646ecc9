-- ===== src/Dlog.antt =====
-- dlog.h: what the macros print and when they end the program. Texts are lists of character codes. The
-- time stamp, the text of `errno` and the printing of a value are parameters.
pub mod Formats
pub mod Asserts
pub mod Tests
use usable_lib.Prelude.{
  ℕ, ◌+◌, ◌-◌, Bool, true, false, ◌||◌, ◌&&◌, not, ltb, Option, none, some, List, [], ◌∷◌, ◌++◌,
  length, take, if◌then◌else◌, ◌==◌, ◌>>=◌,
}

pub data Stream : Type 0 where
  stdout : Stream
  stderr : Stream
  file : List ℕ → Stream  -- opened by its name, which empties it

pub data Event : Type 0 where
  prints : Stream → List ℕ → Event
  flushes : Event  -- `stdout`
  closes : List ℕ → Event
  aborts : Event

-- the types that `dlog_type_fmt` is overloaded for
pub data CType : Type 0 where
  c_char : CType
  c_short : CType
  c_int : CType
  c_long : CType
  c_long_long : CType
  c_unsigned_char : CType
  c_unsigned_short : CType
  c_unsigned_int : CType
  c_unsigned_long : CType
  c_unsigned_long_long : CType
  c_float : CType
  c_double : CType
  c_long_double : CType
  c_pointer : CType

unfoldable pub dlog_type_fmt : CType → List ℕ
dlog_type_fmt c_char = 37 ∷ 99 ∷ []
dlog_type_fmt c_short = 37 ∷ 104 ∷ 100 ∷ []
dlog_type_fmt c_int = 37 ∷ 100 ∷ []
dlog_type_fmt c_long = 37 ∷ 108 ∷ 100 ∷ []
dlog_type_fmt c_long_long = 37 ∷ 108 ∷ 108 ∷ 100 ∷ []
dlog_type_fmt c_unsigned_char = 37 ∷ 104 ∷ 104 ∷ 117 ∷ []
dlog_type_fmt c_unsigned_short = 37 ∷ 104 ∷ 117 ∷ []
dlog_type_fmt c_unsigned_int = 37 ∷ 117 ∷ []
dlog_type_fmt c_unsigned_long = 37 ∷ 108 ∷ 117 ∷ []
dlog_type_fmt c_unsigned_long_long = 37 ∷ 108 ∷ 108 ∷ 117 ∷ []
dlog_type_fmt c_float = 37 ∷ 102 ∷ []
dlog_type_fmt c_double = 37 ∷ 108 ∷ 102 ∷ []
dlog_type_fmt c_long_double = 37 ∷ 108 ∷ 108 ∷ 102 ∷ []
dlog_type_fmt c_pointer = 37 ∷ 112 ∷ []

-- "Because "
abbrev pub because : List ℕ
because = 66 ∷ 101 ∷ 99 ∷ 97 ∷ 117 ∷ 115 ∷ 101 ∷ 32 ∷ []

-- " = "
abbrev pub equals : List ℕ
equals = 32 ∷ 61 ∷ 32 ∷ []

-- ", "
abbrev pub separator : List ℕ
separator = 44 ∷ 32 ∷ []

-- "%s"
abbrev pub percent_s : List ℕ
percent_s = 37 ∷ 115 ∷ []

-- "%???"
abbrev pub placeholder : List ℕ
placeholder = 37 ∷ 63 ∷ 63 ∷ 63 ∷ []

-- "[INFO] "
abbrev pub info_mark : List ℕ
info_mark = 91 ∷ 73 ∷ 78 ∷ 70 ∷ 79 ∷ 93 ∷ 32 ∷ []

-- "[ERROR] "
abbrev pub error_mark : List ℕ
error_mark = 91 ∷ 69 ∷ 82 ∷ 82 ∷ 79 ∷ 82 ∷ 93 ∷ 32 ∷ []

-- "[WARNING] "
abbrev pub warning_mark : List ℕ
warning_mark = 91 ∷ 87 ∷ 65 ∷ 82 ∷ 78 ∷ 73 ∷ 78 ∷ 71 ∷ 93 ∷ 32 ∷ []

-- "[FATAL] "
abbrev pub fatal_mark : List ℕ
fatal_mark = 91 ∷ 70 ∷ 65 ∷ 84 ∷ 65 ∷ 76 ∷ 93 ∷ 32 ∷ []

-- ": "
abbrev pub colon : List ℕ
colon = 58 ∷ 32 ∷ []

-- "Assertion `"
abbrev pub assertion : List ℕ
assertion = 65 ∷ 115 ∷ 115 ∷ 101 ∷ 114 ∷ 116 ∷ 105 ∷ 111 ∷ 110 ∷ 32 ∷ 96 ∷ []

-- "` failed. "
abbrev pub failed : List ℕ
failed = 96 ∷ 32 ∷ 102 ∷ 97 ∷ 105 ∷ 108 ∷ 101 ∷ 100 ∷ 46 ∷ 32 ∷ []

abbrev pub blank : ℕ
blank = 32

abbrev pub newline : ℕ
newline = 10

abbrev pub percent : ℕ
percent = 37

-- `snprintf` into `size` bytes
abbrev pub cut : ℕ → List ℕ → List ℕ
cut size text = take (size - 1) text

-- the letters between `%` and the one of the conversion: `h` and `l`
abbrev pub is_modifier : ℕ → Bool
is_modifier c = c == 104 || c == 108

-- `c`, `d`, `u`, `f`, `p` and `s`
abbrev pub is_conversion : ℕ → Bool
is_conversion c = c == 99 || c == 100 || c == 117 || c == 102 || c == 112 || c == 115

abbrev pub take_argument : (List (List ℕ) → Option (List ℕ)) → List (List ℕ) → Option (List ℕ)
take_argument rest [] = none
take_argument rest (a ∷ args) = rest args >>= λ text. some (a ++ text)

-- a text up to its first character of code 0, where C takes it to end
unfoldable pub c_string : List ℕ → List ℕ
c_string [] = []
c_string (c ∷ text) = let rest = c_string text in if c == 0 then [] else c ∷ rest

-- outside of a conversion, or inside of one behind so many modifiers
pub data Place : Type 0 where
  outside : Place
  inside : ℕ → Place

-- `f` behind `ll` is not defined
abbrev pub converts : ℕ → ℕ → Bool
converts modifiers c = is_conversion c && (not (c == 102) || ltb modifiers 2)

-- `printf` of arguments, each of which is given as the text that it is printed as; `none` is a
-- conversion that the macros do not use or that is not defined, or one without an argument.
pub format : Place → List ℕ → List (List ℕ) → Option (List ℕ)
format outside [] args = some []
format (inside modifiers) [] args = none
format outside (c ∷ text) args =
    let plain = format outside text args >>= λ rest. some (c ∷ rest) in
    let converted = format (inside 0) text args in if c == percent then converted else plain
format (inside modifiers) (c ∷ text) args =
    let modified = format (inside (modifiers + 1)) text args in
    let put = take_argument (format outside text) args in
    if is_modifier c then modified else (if converts modifiers c then put else none)

-- "Because `val_a` = `a`, `val_b` = `b`"
unfoldable pub expr_text : List ℕ → List ℕ → List ℕ → List ℕ → List ℕ
expr_text val_a val_b a b = because ++ val_a ++ equals ++ a ++ separator ++ val_b ++ equals ++ b

-- `sizeof(fmt)` in `DLOG_EXPR`
unfoldable pub fmt_size : List ℕ → List ℕ → ℕ
fmt_size val_a val_b = length (expr_text val_a val_b placeholder placeholder) + 1

-- `fmt` after its `snprintf`
unfoldable pub expr_fmt : List ℕ → List ℕ → CType → CType → Option (List ℕ)
expr_fmt val_a val_b type_a type_b =
    format outside (expr_text val_a val_b percent_s percent_s)
      (dlog_type_fmt type_a ∷ dlog_type_fmt type_b ∷ [])
    >>= λ fmt. some (c_string (cut (fmt_size val_a val_b) fmt))

-- `tmp`, where the values are printed as `a` and `b`
unfoldable pub expr_tmp : List ℕ → List ℕ → CType → CType → List ℕ → List ℕ → Option (List ℕ)
expr_tmp val_a val_b type_a type_b a b = expr_fmt val_a val_b type_a type_b >>= λ fmt.
    format outside fmt (a ∷ b ∷ []) >>= λ tmp. some (c_string (cut (fmt_size val_a val_b + 42) tmp))

-- the text of the failure of `DLOG_EXPR`, whose argument is `tmp`
unfoldable pub expr_failed : List ℕ → List ℕ → List ℕ → List ℕ → List ℕ
expr_failed val_a op val_b tmp =
    assertion ++ val_a ++ (blank ∷ []) ++ op ++ (blank ∷ []) ++ val_b ++ failed ++ tmp

-- The macros. `stamp` is the time, the thread and the place of the call, and `error_text` is
-- `strerror(errno)`.
module _ (stamp error_text : List ℕ) where
  unfoldable pub dlog_stream : Stream → List ℕ → List (List ℕ) → Option (List Event)
  dlog_stream stream text args =
      format outside text args >>= λ line. some (prints stream (stamp ++ line ++ newline ∷ []) ∷ [])

  unfoldable pub dlog_info : List ℕ → List (List ℕ) → Option (List Event)
  dlog_info text args = dlog_stream stdout (info_mark ++ text) args

  unfoldable pub dlog_error : List ℕ → List (List ℕ) → Option (List Event)
  dlog_error text args =
      dlog_stream stderr (error_mark ++ text ++ colon ++ percent_s) (args ++ error_text ∷ [])

  unfoldable pub dlog_warning : List ℕ → List (List ℕ) → Option (List Event)
  dlog_warning text args = dlog_stream stderr (warning_mark ++ text) args

  unfoldable pub dlog_fatal : List ℕ → List (List ℕ) → Option (List Event)
  dlog_fatal text args =
      dlog_stream stderr (fatal_mark ++ text ++ colon ++ percent_s) (args ++ error_text ∷ [])
      >>= λ printed. some (printed ++ flushes ∷ aborts ∷ [])

  -- `opened` is whether `fopen` succeeds
  unfoldable pub dlog_file : Bool → Bool → List ℕ → List ℕ → List (List ℕ) → Option (List Event)
  dlog_file ndebug opened name text args =
      let written =
        dlog_stream (file name) text args >>= λ printed. some (printed ++ closes name ∷ []) in
      if opened then written else (if ndebug then none else some (aborts ∷ []))

  unfoldable pub dlog_if : Bool → List ℕ → List (List ℕ) → Option (List Event)
  dlog_if holds text args = if holds then dlog_info text args else some []

  -- `holds` is what `a op b` gives
  unfoldable pub dlog_expr :
      Bool → Bool → List ℕ → List ℕ → List ℕ → CType → CType → List ℕ → List ℕ → Option (List Event)
  dlog_expr ndebug holds val_a op val_b type_a type_b a b =
      let fatal = expr_tmp val_a val_b type_a type_b a b >>= λ tmp.
      dlog_fatal (expr_failed val_a op val_b percent_s) (tmp ∷ []) in
      if ndebug || holds then some [] else fatal

  unfoldable pub dlog_assert : Bool → Bool → List ℕ → List ℕ → List (List ℕ) → Option (List Event)
  dlog_assert ndebug holds expr text args =
      let fatal = dlog_fatal (assertion ++ expr ++ failed ++ text) args in
      if ndebug || holds then some [] else fatal
