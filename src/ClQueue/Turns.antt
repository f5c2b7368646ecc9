-- ===== src/ClQueue/Turns.antt =====
-- The counters of `CLQueue` that pass a turn from line to line, and those that consumers share.
use usable_lib.Prelude.{
  ℕ, suc, ◌+◌, ◌^◌, ◌<◌, ◌≡◌, refl, Bool, true, false, arith, sub32, if◌then◌else◌, ◌==◌,
}
use usable_lib.ClQueue.Layout.{count}

-- The counters that pass the turn from line to line: behind by one but in the line whose turn it
-- is. Only the default mode has them.
abbrev pub Turn : Bool → Bool → ℕ → ℕ → (ℕ → ℕ) → (ℕ → ℕ) → Type 0
Turn true multi lines at f1 f2 = Unit
Turn false false lines at f1 f2 = Unit
Turn false true lines at f1 f2 = (l : ℕ) → l < lines → f1 l + 1 ≡ f2 l + (if at == l then 1 else 0)

-- A consumer that is not alone finds the tail as the difference of two counters.
abbrev pub Over : Bool → ℕ → ℕ → ℕ → Type 0
Over true doc over tail = Unit
Over false doc over tail = (doc < 2 ^ 32) × (over < 2 ^ 32) × (sub32 doc over ≡ tail)

pub Turn-same :
    (single multi : Bool) (lines at : ℕ) (f1 f2 g1 g2 : ℕ → ℕ)
    → ((l : ℕ) → g1 l ≡ f1 l)
    → ((l : ℕ) → g2 l ≡ f2 l)
    → Turn single multi lines at f1 f2
    → Turn single multi lines at g1 g2
Turn-same true multi lines at f1 f2 g1 g2 e e' t = tt
Turn-same false false lines at f1 f2 g1 g2 e e' t = tt
Turn-same false true lines at f1 f2 g1 g2 e e' t = λ l h. omega (arith, t l h, e l, e' l)

-- the turn in the default mode
pub Turn-default :
    (single multi : Bool) (lines at : ℕ) (f1 f2 : ℕ → ℕ)
    → single ≡ false
    → multi ≡ true
    → Turn single multi lines at f1 f2
    → (l : ℕ) → l < lines
    → f1 l + 1 ≡ f2 l + (if at == l then 1 else 0)
Turn-default true multi lines at f1 f2 e e' t = absurd (ground arith)
Turn-default false false lines at f1 f2 e e' t = absurd (ground arith)
Turn-default false true lines at f1 f2 e e' t = t

pub Turn-every :
    (single multi : Bool) (lines at : ℕ) (f1 f2 : ℕ → ℕ)
    → ((l : ℕ) → l < lines → f1 l + 1 ≡ f2 l + (if at == l then 1 else 0))
    → Turn single multi lines at f1 f2
Turn-every true multi lines at f1 f2 t = tt
Turn-every false false lines at f1 f2 t = tt
Turn-every false true lines at f1 f2 t = t

pub Over-shared :
    (single : Bool) (doc over tail : ℕ)
    → single ≡ false
    → Over single doc over tail
    → (doc < 2 ^ 32) × (over < 2 ^ 32) × (sub32 doc over ≡ tail)
Over-shared true doc over tail e o = absurd (ground arith)
Over-shared false doc over tail e o = o

pub Over-start : (single : Bool) (doc over : ℕ) → doc ≡ 0 → over ≡ 0 → Over single doc over 0
Over-start true doc over d o = tt
Over-start false doc over d o = (omega arith, omega arith, omega arith)

-- the count of a line after one more position
pub count-next :
    (li : ℕ → ℕ) (l n : ℕ) → count li l (n + 1) ≡ count li l n + (if li n == l then 1 else 0)
unfolding count
count-next li l n = let e : n + 1 ≡ suc n = omega arith in rw e refl
