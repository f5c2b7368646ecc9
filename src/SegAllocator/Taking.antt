-- ===== src/SegAllocator/Taking.antt =====
-- What `allocate` and `placement_allocate` do to the segments by offset.
use usable_lib.Prelude.{
  ℕ, ◌+◌, ◌-◌, ◌^◌, ◌≤◌, ◌<◌, ◌≡◌, inl, inr, refl, true, List, [], ◌∷◌, arith, Bool-cases, none,
  some, Option-cases,
}
use usable_lib.SegAllocator.OffMap.{Seg, insert, erase, assign, at_or_before}
use usable_lib.SegAllocator.SizeSet.{same}
use usable_lib.SegAllocator.Entries.{has}
use usable_lib.SegAllocator.Segs.{Segs, cut, Within}
use usable_lib.SegAllocator.{seg}

pub has-above :
    (e : Seg) (l : List Seg) (lo : ℕ)
    → Segs lo l
    → has e l ≡ true
    → lo ≤ e.off × 0 < e.len × e.off + e.len < 2 ^ 64
unfolding Segs has
has-above e [] lo s h = absurd (ground arith)
has-above e (g ∷ l) lo s h = ground (arith, has-above e l (g.off + g.len + 1) s.1)

pub insert-front : (e : Seg) (l : List Seg) (lo : ℕ) → Segs lo l → e.off < lo → insert e l ≡ e ∷ l
unfolding Segs insert
insert-front e [] lo s h = refl
insert-front e (g ∷ l) lo s h = ground arith

module _ (off len n : ℕ) (pos : 0 < n) where
  -- the part after the first `n` bytes put in, and the segment taken out
  pub cut_front :
      (l : List Seg) (lo : ℕ)
      → n < len
      → Segs lo l
      → has (seg off len) l ≡ true
      → erase off (insert (seg (off + n) (len - n)) l) ≡ cut off n l
  unfolding Segs has insert erase cut
  cut_front [] lo h s e = absurd (ground arith)
  cut_front (g ∷ l) lo h s e = elim (Bool-cases (same (seg off len) g)) [
    | inl y ↦ ground (arith, insert-front (seg (off + n) (len - n)) l (g.off + g.len + 1) s.1)
    | inr other ↦
        let there : has (seg off len) l ≡ true = ground arith in
        let above = has-above (seg off len) l _ s.1 there in
        let rest = cut_front l _ h s.1 there in ground arith
  ]

  pub cut_whole :
      (l : List Seg) (lo : ℕ)
      → n ≡ len
      → Segs lo l
      → has (seg off len) l ≡ true
      → erase off l ≡ cut off n l
  unfolding Segs has erase cut
  cut_whole [] lo h s e = absurd (ground arith)
  cut_whole (g ∷ l) lo h s e = ground (
    arith,
    cut_whole l (g.off + g.len + 1) h s.1,
    has-above (seg off len) l (g.off + g.len + 1) s.1,
  )

-- A range taken out of the middle or the end of a segment.
module _ (off len p n : ℕ) (pos : 0 < n) (after : off < p) where
  pub cut_back :
      (l : List Seg) (lo : ℕ)
      → p + n ≡ off + len
      → Segs lo l
      → has (seg off len) l ≡ true
      → assign off (len - n) l ≡ cut p n l
  unfolding Segs has assign cut
  cut_back [] lo h s e = absurd (ground arith)
  cut_back (g ∷ l) lo h s e = elim (Bool-cases (same (seg off len) g)) [
    | inl y ↦ ground arith
    | inr other ↦
        let there : has (seg off len) l ≡ true = ground arith in
        let above = has-above (seg off len) l _ s.1 there in
        let rest = cut_back l _ h s.1 there in ground arith
  ]

  pub cut_middle :
      (l : List Seg) (lo : ℕ)
      → p + n < off + len
      → Segs lo l
      → has (seg off len) l ≡ true
      → insert (seg (p + n) (len - n - (p - off))) (assign off (p - off) l) ≡ cut p n l
  unfolding Segs has assign insert cut
  cut_middle [] lo h s e = absurd (ground arith)
  cut_middle (g ∷ l) lo h s e = elim (Bool-cases (same (seg off len) g)) [
    | inl y ↦
        ground (arith, insert-front (seg (p + n) (len - n - (p - off))) l (g.off + g.len + 1) s.1)
    | inr other ↦
        let there : has (seg off len) l ≡ true = ground arith in
        let above = has-above (seg off len) l _ s.1 there in
        let rest = cut_middle l _ h s.1 there in ground arith
  ]

-- A range inside an entry, and the entry that the search for its start finds.
pub has-Within :
    (g : Seg) (p n : ℕ) (l : List Seg) (lo : ℕ)
    → 0 < n
    → Segs lo l
    → has g l ≡ true
    → g.off ≤ p
    → p + n ≤ g.off + g.len
    → Within p n l
unfolding Segs has Within
has-Within g p n [] lo pos s h a b = absurd (ground arith)
has-Within g p n (q ∷ l) lo pos s h a b = elim (Bool-cases (same g q)) [
  | inl y ↦ inl (ground arith)
  | inr other ↦
      let there : has g l ≡ true = ground arith in
      let above = has-above g l _ s.1 there in
      inr (omega arith, has-Within g p n l _ pos s.1 there a b)
]

pub at_or_before-some :
    (k : ℕ) (l : List Seg) (g : Seg) → at_or_before k l ≡ some g → has g l ≡ true × g.off ≤ k
unfolding at_or_before has
at_or_before-some k [] g e = absurd (ground arith)
at_or_before-some k (q ∷ l) g e = elim (Option-cases (at_or_before k l)) [
  | inl none_there ↦ ground arith
  | inr (h, e') ↦ let there = at_or_before-some k l h e' in ground arith
]

at_or_before-none : (k : ℕ) (l : List Seg) (lo : ℕ) → k < lo → Segs lo l → at_or_before k l ≡ none
unfolding Segs at_or_before
at_or_before-none k [] lo h s = refl
at_or_before-none k (g ∷ l) lo h s = ground arith

pub Within-at_or_before :
    (p n : ℕ) (l : List Seg) (lo : ℕ)
    → 0 < n
    → Segs lo l
    → Within p n l
    → (g : Seg) × (at_or_before p l ≡ some g) × (p + n ≤ g.off + g.len)
unfolding Segs Within at_or_before
Within-at_or_before p n [] lo pos s w = absurd w
Within-at_or_before p n (g ∷ l) lo pos s (inl w) =
    (g, ground (arith, at_or_before-none p l (g.off + g.len + 1) (omega arith) s.1), w.1)
Within-at_or_before p n (g ∷ l) lo pos s (inr w) =
    let rest = Within-at_or_before p n l _ pos s.1 w.1 in (rest.0, ground arith, rest.2)
