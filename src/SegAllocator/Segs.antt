-- ===== src/SegAllocator/Segs.antt =====
-- The free segments as a set of addresses: what adding and taking a range does to them.
use usable_lib.Prelude.{
  ℕ, ◌+◌, ◌-◌, ◌^◌, ◌≤◌, ◌<◌, ◌≡◌, ◌⊎◌, inl, inr, refl, Bool, true, false, List, [], ◌∷◌,
  if◌then◌else◌, ◌==◌, ltb, leb, arith, Bool-cases,
}
use usable_lib.SegAllocator.OffMap.{Seg}
use usable_lib.SegAllocator.{seg}

-- Apart from each other and from what is below `lo`, not empty, and below 2 ^ 64. Segments that
-- touch would be one.
unfoldable pub Segs : ℕ → List Seg → Type 0
Segs lo [] = Unit
Segs lo (g ∷ l) = (lo ≤ g.off × 0 < g.len × g.off + g.len < 2 ^ 64) × (Segs (g.off + g.len + 1) l)

abbrev pub inside : ℕ → ℕ → ℕ → Bool
inside off len a = if leb off a then ltb a (off + len) else false

-- whether an address is free
unfoldable pub covers : List Seg → ℕ → Bool
covers [] a = false
covers (g ∷ l) a = let rest = covers l a in if inside g.off g.len a then true else rest

-- a segment in front, joined with the next one if they touch
unfoldable pub glue : ℕ → ℕ → List Seg → List Seg
glue off len [] = seg off len ∷ []
glue off len (g ∷ l) = if off + len == g.off then seg off (len + g.len) ∷ l else seg off len ∷ g ∷ l

-- The segments with a range added.
unfoldable pub put : ℕ → ℕ → List Seg → List Seg
put off len [] = seg off len ∷ []
put off len (g ∷ l) =
    let rest = put off len l in
    if ltb (g.off + g.len) off
    then g ∷ rest
    else if g.off + g.len == off
    then glue g.off (g.len + len) l
    else glue off len (g ∷ l)

-- a segment in front, unless it is empty
abbrev pub piece : ℕ → ℕ → List Seg → List Seg
piece off len l = if len == 0 then l else seg off len ∷ l

-- The segments with a range taken out of the one that it lies in.
unfoldable pub cut : ℕ → ℕ → List Seg → List Seg
cut off len [] = []
cut off len (g ∷ l) =
    let rest = cut off len l in
    if leb (g.off + g.len) off
    then g ∷ rest
    else piece g.off (off - g.off) (piece (off + len) (g.off + g.len - (off + len)) l)

-- No address of the range is free; the range lies in one segment.
unfoldable pub Disjoint : ℕ → ℕ → List Seg → Type 0
Disjoint off len [] = Unit
Disjoint off len (g ∷ l) = ((g.off + g.len ≤ off) ⊎ (off + len ≤ g.off)) × (Disjoint off len l)

unfoldable pub Within : ℕ → ℕ → List Seg → Type 0
Within off len [] = ⊥
Within off len (g ∷ l) =
    (g.off ≤ off × off + len ≤ g.off + g.len) ⊎ (g.off + g.len ≤ off × Within off len l)

pub Segs-le : {lo lo' : ℕ} (l : List Seg) → lo' ≤ lo → Segs lo l → Segs lo' l
unfolding Segs
Segs-le [] h s = tt
Segs-le (g ∷ l) h s = ((omega arith, s.0.1, s.0.2), s.1)

glue-Segs :
    (lo off len : ℕ) (l : List Seg)
    → lo ≤ off
    → 0 < len
    → off + len < 2 ^ 64
    → Segs (off + len) l
    → Segs lo (glue off len l)
unfolding Segs glue
glue-Segs lo off len [] a b c s = ((a, b, c), tt)
glue-Segs lo off len (g ∷ l) a b c s = elim (Bool-cases (off + len == g.off)) [
  | inl e ↦ rw e ((a, omega arith, ground arith), Segs-le l (ground arith) s.1)
  | inr e ↦ rw e ((a, b, c), (ground arith, s.1))
]

-- What is above a range without free addresses is above its end.
Segs-past :
    (lo off len : ℕ) (l : List Seg) → off < lo → Disjoint off len l → Segs lo l → Segs (off + len) l
unfolding Segs Disjoint
Segs-past lo off len [] h d s = tt
Segs-past lo off len (g ∷ l) h (inl d, _) s = absurd (omega arith)
Segs-past lo off len (g ∷ l) h (inr d, _) s = ((d, s.0.1, s.0.2), s.1)

pub put-Segs :
    (off len : ℕ) (l : List Seg) (lo : ℕ)
    → lo ≤ off
    → 0 < len
    → off + len < 2 ^ 64
    → Disjoint off len l
    → Segs lo l
    → Segs lo (put off len l)
unfolding Segs put Disjoint
put-Segs off len [] lo a b c d s = ((a, b, c), tt)
put-Segs off len (g ∷ l) lo a b c d s = elim (Bool-cases (ltb (g.off + g.len) off)) [
  | inl e ↦ rw e ((s.0.0, s.0.1, s.0.2), put-Segs off len l _ (ground arith) b c d.1 s.1)
  | inr e ↦ rw e (elim (Bool-cases (g.off + g.len == off)) [
    | inl e' ↦ rw e' (
        glue-Segs lo g.off (g.len + len) l s.0.0 (omega arith) (ground arith)
          (Segs-le l (ground arith) (Segs-past _ off len l (ground arith) d.1 s.1)))
    | inr e' ↦ rw e' (glue-Segs lo off len (g ∷ l) a b c ((ground arith, s.0.1, s.0.2), s.1))
  ])
]

pub covers-below : (lo : ℕ) (l : List Seg) (a : ℕ) → a < lo → Segs lo l → covers l a ≡ false
unfolding Segs covers
covers-below lo [] a h s = refl
covers-below lo (g ∷ l) a h s =
    ground (arith, covers-below (g.off + g.len + 1) l a (omega arith) s.1)

glue-covers :
    (off len : ℕ) (l : List Seg) (a : ℕ)
    → covers (glue off len l) a ≡ (if inside off len a then true else covers l a)
unfolding glue covers
glue-covers off len [] a = refl
glue-covers off len (g ∷ l) a = ground arith

pub put-covers :
    (off len : ℕ) (l : List Seg) (a : ℕ)
    → covers (put off len l) a ≡ (if inside off len a then true else covers l a)
unfolding put covers
put-covers off len [] a = refl
put-covers off len (g ∷ l) a = ground (
  arith,
  put-covers off len l a,
  glue-covers g.off (g.len + len) l a,
  glue-covers off len (g ∷ l) a,
)

Within-below : (off len : ℕ) (l : List Seg) (lo : ℕ) → Within off len l → Segs lo l → lo ≤ off
unfolding Segs Within
Within-below off len [] lo w s = absurd w
Within-below off len (g ∷ l) lo (inl k) s = omega arith
Within-below off len (g ∷ l) lo (inr k) s = omega arith

-- pieces in front
piece-Segs :
    (off len : ℕ) (l : List Seg) (lo : ℕ)
    → lo ≤ off
    → off + len < 2 ^ 64
    → Segs (off + len + 1) l
    → Segs lo (piece off len l)
unfolding Segs
piece-Segs off len l lo h k s = elim (Bool-cases (len == 0)) [
  | inl e ↦ rw e (Segs-le l (omega arith) s)
  | inr e ↦ rw e ((h, ground arith, k), s)
]

pub cut-Segs :
    (off len : ℕ) (l : List Seg) (lo : ℕ)
    → 0 < len
    → Within off len l
    → Segs lo l
    → Segs lo (cut off len l)
unfolding Segs cut Within
cut-Segs off len [] lo h w s = tt
cut-Segs off len (g ∷ l) lo h w s = elim (Bool-cases (leb (g.off + g.len) off)) [
  | inl e ↦ rw e (elim w [
    | inl k ↦ absurd (ground arith)
    | inr k ↦ ((s.0.0, s.0.1, s.0.2), cut-Segs off len l _ h k.1 s.1)
  ])
  | inr e ↦ rw e (elim w [
    | inl k ↦ piece-Segs g.off (off - g.off) _ lo s.0.0 (omega arith) (
        piece-Segs (off + len) (g.off + g.len - (off + len)) l _ (omega arith) (omega arith)
          (Segs-le l (omega arith) s.1))
    | inr k ↦ absurd (ground arith)
  ])
]

pub cut-covers :
    (off len : ℕ) (l : List Seg) (lo a : ℕ)
    → 0 < len
    → Within off len l
    → Segs lo l
    → covers (cut off len l) a ≡ (if inside off len a then false else covers l a)
unfolding Segs cut Within covers
cut-covers off len [] lo a h w s = absurd w
cut-covers off len (g ∷ l) lo a h (inl k) s = ground (arith, covers-below (g.off + g.len + 1) l a)
cut-covers off len (g ∷ l) lo a h (inr k) s =
    ground (arith, cut-covers off len l _ a h k.1 s.1, Within-below off len l _ k.1 s.1)
