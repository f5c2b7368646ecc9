-- ===== src/SegAllocator/OutOfStep.antt =====
-- `placement_allocate`, where its reverse iterator has come to stand for another segment.
use usable_lib.Prelude.{
  ℕ, ◌+◌, ◌-◌, ◌<◌, ◌≡◌, ◌≢◌, ◌⊎◌, refl, ap, ◌∙◌, subst, sym, Bool, true, false, Option, ◌==◌,
  arith, some, Option-cases, inl, inr,
}
use usable_lib.SegAllocator.OffMap
use usable_lib.SegAllocator.OffMap.{Seg, at_or_before, before}
use usable_lib.SegAllocator.SizeSet
use usable_lib.SegAllocator.SizeSet.{same}
use usable_lib.SegAllocator.Entries.{has, erase-has}
use usable_lib.SegAllocator.Keys
use usable_lib.SegAllocator.Keys.{key, Segs-Keys, has-key, before-some}
use usable_lib.SegAllocator.Taking.{has-above, at_or_before-some}
use usable_lib.SegAllocator.Taken.{inside-key}
use usable_lib.SegAllocator.Placement.{middle, place_in_inside, middle-has, middle-map}
use usable_lib.SegAllocator.Validity.{IsValid}
use usable_lib.SegAllocator.{SegAllocator, seg, placement_allocate, place_in, erase_before}

some_state :
    (b c : Bool) (m m' : SegAllocator)
    → ◌≡◌ {A = Option (Bool × SegAllocator)} (some (b, m)) (some (c, m'))
    → m ≡ m'
some_state b c m m' e = ground (arith, e)

module _ (m m' : SegAllocator) (g : Seg) (b : Bool) (v : IsValid m)
    (there : has g m.by_off ≡ true) where
  erase_before_invalid : erase_before m g (before g.off m.by_off) ≡ some (b, m') → ¬ IsValid m'
  unfolding IsValid
  erase_before_invalid e v' = elim (Option-cases (before g.off m.by_off)) [
    | inl first ↦ absurd (ground (arith, ap (erase_before m g) (sym first) ∙ e))
    | inr (prev, at) ↦
        let below = before-some g.off m.by_off prev at in
        let same_state = some_state true b _ m' (ap (erase_before m g) (sym at) ∙ e) in
        let sync : has g (SizeSet.erase prev m.by_siz) ≡ has g (OffMap.erase g.off m.by_off) =
          subst (λ (k : SegAllocator). has g k.by_siz ≡ has g k.by_off) (sym same_state) (v'.1 g) in
        absurd (
          ground (
            arith,
            sync,
            erase-has g prev m.by_siz,
            Keys.erase-has g g.off m.by_off 0 (Segs-Keys m.by_off 0 v.0),
            v.1 g,
            there,
            below.1,
          ))
  ]

  middle_invalid :
      (off n : ℕ)
      → 0 < n
      → g.off < off
      → off + n < g.off + g.len
      → off - g.off ≢ g.off + g.len - (off + n)
      → ¬ IsValid (middle m g off n)
  unfolding IsValid
  middle_invalid off n pos h k apart v' =
      let e : Seg = seg (off + n) (off - g.off) in
      let absent : key (off + n) m.by_off ≡ false =
        inside-key g (off + n) m.by_off 0 v.0 there (omega arith) (omega arith) in
      absurd (
        ground (
          arith,
          v'.1 e,
          middle-has m g off n pos v.0 there v.1 e h k,
          middle-map m g off n pos v.0 there v.1 e h k,
          has-key e m.by_off,
          absent,
        ))

-- When the range, of at least one byte, is all of a free segment, or lies inside of one with parts of
-- different lengths left on its two sides, and `placement_allocate` returns, then the map and the set
-- are no longer valid: they do not hold the same segments.
pub placement_allocate_out_of_step :
    (m m' : SegAllocator) (off n : ℕ) (b : Bool) (g : Seg)
    → IsValid m
    → 0 < n
    → at_or_before off m.by_off ≡ some g
    → ((g.off ≡ off) × (g.len ≡ n))
      ⊎ ((g.off < off) × (off + n < g.off + g.len) × (off - g.off ≢ g.off + g.len - (off + n)))
    → placement_allocate m off n ≡ some (b, m')
    → ¬ IsValid m'
unfolding IsValid placement_allocate
placement_allocate_out_of_step m m' off n b g v pos found (inl (start, all)) e =
    let (there, below) = at_or_before-some off m.by_off g found in
    let bound = has-above g m.by_off 0 v.0 there in
    let none_left : (g.len - n == 0) ≡ true = ground arith in
    let value : placement_allocate m off n ≡ erase_before m g (before g.off m.by_off) =
      ap (place_in m off n) found
      ∙ place_in_inside m g off n below (omega arith) bound.2
      ∙ rw none_left refl in
    erase_before_invalid m m' g b v there (sym value ∙ e)
placement_allocate_out_of_step m m' off n b g v pos found (inr (later, inner, apart)) e =
    let (there, below) = at_or_before-some off m.by_off g found in
    let bound = has-above g m.by_off 0 v.0 there in
    let some_left : (g.len - n == 0) ≡ false = ground arith in
    let not_front : (g.off == off) ≡ false = ground arith in
    let not_last : (g.off + g.len == off + n) ≡ false = ground arith in
    let value : ◌≡◌ {A = Option (Bool × SegAllocator)} (placement_allocate m off n)
        (some (true, middle m g off n)) =
      ap (place_in m off n) found
      ∙ place_in_inside m g off n below (omega arith) bound.2
      ∙ rw (some_left, not_front, not_last) refl in
    let same_state = some_state true b (middle m g off n) m' (sym value ∙ e) in
    subst (λ k. ¬ IsValid k) same_state
      (middle_invalid m m' g b v there off n pos later inner apart)
