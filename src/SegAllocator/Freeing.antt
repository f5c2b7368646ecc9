-- ===== src/SegAllocator/Freeing.antt =====
-- What `deallocate` does to the segments by offset.
use native.Mathlib.Nat.{mod-eq_of_lt, add-mod_right}
use usable_lib.Prelude.{
  ℕ, ◌+◌, ◌-◌, ◌%◌, ◌^◌, ◌≤◌, ◌<◌, ◌≡◌, inl, inr, refl, ap, ap₂, ◌∙◌, Bool, List, [], ◌∷◌,
  if◌then◌else◌, arith, dec_lt, Option, none, some, Option-cases, add64, sub64,
}
use usable_lib.SegAllocator.OffMap.{Seg, insert, erase, assign, lower_bound, before}
use usable_lib.SegAllocator.Segs.{Segs, Segs-le, put, glue, Disjoint}
use usable_lib.SegAllocator.{SegAllocator, seg, deallocate, merge, meets_prev, meets_next}

pub add64_lem : (a b : ℕ) → a + b < 2 ^ 64 → add64 a b ≡ a + b
add64_lem a b h = mod-eq_of_lt h

pub sub64_lem : (a b : ℕ) → b ≤ a → a < 2 ^ 64 → sub64 a b ≡ a - b
sub64_lem a b h k =
    let e : a + 2 ^ 64 - b ≡ a - b + 2 ^ 64 = omega arith in
    ap (λ x. x % 2 ^ 64) e ∙ add-mod_right (a - b) (2 ^ 64) ∙ mod-eq_of_lt (omega arith)

-- the neighbours of an offset
before-none : (k : ℕ) (l : List Seg) (lo : ℕ) → k ≤ lo → Segs lo l → before k l ≡ none
unfolding Segs before
before-none k [] lo h s = refl
before-none k (g ∷ l) lo h s = ground arith

before-above :
    (k : ℕ) (l : List Seg) (lo : ℕ) (p : Seg) → Segs lo l → before k l ≡ some p → lo ≤ p.off
unfolding Segs before
before-above k [] lo p s e = ground arith
before-above k (g ∷ l) lo p s e = ground (arith, before-above k l (g.off + g.len + 1) p s.1)

-- The entries by offset after `merge` with the neighbours that the tests choose.
abbrev merged : ℕ → ℕ → List Seg → Option Seg → Option Seg → List Seg
merged off len l none none = insert (seg off len) l
merged off len l none (some next) =
    erase next.off (insert (seg (sub64 next.off len) (add64 next.len len)) l)
merged off len l (some prev) none = assign prev.off (add64 prev.len len) l
merged off len l (some prev) (some next) =
    erase next.off (assign prev.off (add64 prev.len (add64 len next.len)) l)

abbrev chosen : Bool → Option Seg → Option Seg
chosen b o = if b then o else none

merge-merged :
    (m : SegAllocator) (off len : ℕ) (prev next : Option Seg)
    → (merge m off len prev next).by_off ≡ merged off len m.by_off prev next
unfolding merge
merge-merged m off len none none = refl
merge-merged m off len none (some next) = refl
merge-merged m off len (some prev) none = refl
merge-merged m off len (some prev) (some next) = refl

-- Where both neighbours are above the first segment, it stays.
merged-past :
    (off len : ℕ) (g : Seg) (l : List Seg) (prev next : Option Seg)
    → g.off < off
    → off + len < 2 ^ 64
    → ((p : Seg) → prev ≡ some p → g.off < p.off)
    → ((q : Seg) → next ≡ some q → off + len ≡ q.off)
    → merged off len (g ∷ l) prev next ≡ g ∷ merged off len l prev next
unfolding insert erase assign
merged-past off len g l none none h k hp hn = ground arith
merged-past off len g l none (some q) h k hp hn =
    let e = hn q refl in ground (arith, sub64_lem q.off len)
merged-past off len g l (some p) none h k hp hn = let e = hp p refl in ground arith
merged-past off len g l (some p) (some q) h k hp hn =
    let e = hn q refl in let e' = hp p refl in ground arith

-- the entries after `deallocate`
abbrev freed : ℕ → ℕ → List Seg → List Seg
freed off len l =
    merged off len l (chosen (meets_prev off (before off l)) (before off l))
      (chosen (meets_next (add64 off len) (lower_bound off l)) (lower_bound off l))

-- A segment before the range that does not touch it plays no part.
module _ (off len : ℕ) (g : Seg) (l : List Seg) (k : off + len < 2 ^ 64) where
  next_past : g.off < off → lower_bound off (g ∷ l) ≡ lower_bound off l
  unfolding lower_bound
  next_past h = ground arith

  prev_past :
      g.off + g.len < off
      → chosen (meets_prev off (before off (g ∷ l))) (before off (g ∷ l))
        ≡ chosen (meets_prev off (before off l)) (before off l)
  unfolding before
  prev_past h = elim (Option-cases (before off l)) [
    | inl e ↦ ground (arith, add64_lem g.off g.len)
    | inr (p, e) ↦ ground arith
  ]

  freed-past :
      g.off + g.len < off → Segs (g.off + g.len + 1) l → freed off len (g ∷ l) ≡ g ∷ freed off len l
  freed-past h s =
      ap₂ (λ prev next. merged off len (g ∷ l) prev (chosen (meets_next (add64 off len) next) next))
        (prev_past h) (next_past (omega arith))
      ∙ merged-past off len g l _ _ (omega arith) k
          (λ p e. ground (arith, before-above off l (g.off + g.len + 1) p s))
          (λ q e. ground (arith, add64_lem off len))

-- A segment that the range follows at once is joined with it.
freed-touch :
    (off len : ℕ) (g : Seg) (l : List Seg)
    → 0 < len
    → 0 < g.len
    → off + len < 2 ^ 64
    → g.off + g.len ≡ off
    → Disjoint off len l
    → Segs (off + 1) l
    → freed off len (g ∷ l) ≡ glue g.off (g.len + len) l
unfolding Segs Disjoint before lower_bound insert erase assign glue
freed-touch off len g [] h h' k e d s = ground (arith, add64_lem g.off g.len, add64_lem g.len len)
freed-touch off len g (q ∷ l) h h' k e d s = ground (
  arith,
  add64_lem g.off g.len,
  add64_lem g.len len,
  add64_lem off len,
  add64_lem len q.len,
  add64_lem g.len (len + q.len),
)

freed-put :
    (off len : ℕ) (l : List Seg) (lo : ℕ)
    → 0 < len
    → off + len < 2 ^ 64
    → Disjoint off len l
    → Segs lo l
    → freed off len l ≡ put off len l
unfolding Segs Disjoint before lower_bound insert erase assign put glue
freed-put off len [] lo h k d s = refl
freed-put off len (g ∷ l) lo h k d s = elim (dec_lt g.off off) [
  | no ge ↦ ground (arith, sub64_lem g.off len, add64_lem g.len len, add64_lem off len)
  | yes lt ↦ elim (dec_lt (g.off + g.len) off) [
    | yes far ↦
        freed-past off len g l k far s.1
        ∙ ap (λ r. g ∷ r) (freed-put off len l _ h k d.1 s.1)
        ∙ ground arith
    | no near ↦
        let e : g.off + g.len ≡ off = ground arith in
        freed-touch off len g l h s.0.1 k e d.1 (Segs-le l (omega arith) s.1) ∙ ground arith
  ]
]

pub deallocate-put :
    (m : SegAllocator) (off len : ℕ)
    → Segs 0 m.by_off
    → 0 < len
    → off + len < 2 ^ 64
    → Disjoint off len m.by_off
    → (deallocate m off len).by_off ≡ put off len m.by_off
unfolding deallocate
deallocate-put m off len s h k d = merge-merged m off len _ _ ∙ freed-put off len m.by_off 0 h k d s
