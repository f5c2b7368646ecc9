-- ===== src/SegAllocator/Placing.antt =====
-- `placement_allocate`: what each outcome means.
use usable_lib.Prelude.{
  Option, ℕ, ◌+◌, ◌-◌, ◌≤◌, ◌<◌, ◌≡◌, ◌⊎◌, ◌^◌, refl, ap, ◌∙◌, subst, sym, Bool, true, false,
  if◌then◌else◌, ◌==◌, arith, some, Option-cases, inl, inr, Bool-cases, dec_lt,
}
use usable_lib.SegAllocator.OffMap
use usable_lib.SegAllocator.OffMap.{Seg, at_or_before}
use usable_lib.SegAllocator.SizeSet.{same}
use usable_lib.SegAllocator.Entries.{has, Sorted, insert-Sorted, erase-Sorted}
use usable_lib.SegAllocator.Segs.{Segs, Within, cut, covers, inside, cut-Segs, cut-covers}
use usable_lib.SegAllocator.Taking.{cut_back, cut_middle, has-above, has-Within, at_or_before-some}
use usable_lib.SegAllocator.Placement.{
  front, back, middle, place_in_outside, place_in_inside, front-cut, front-has, back-has,
  middle-has, middle-map,
}
use usable_lib.SegAllocator.Validity.{IsValid}
use usable_lib.SegAllocator.{SegAllocator, seg, placement_allocate, place_in}

-- The range of `n` bytes from `off` was free and is no longer, and nothing else changed.
abbrev PlacedAt : SegAllocator → ℕ → ℕ → ℕ → Option (Bool × SegAllocator) → Type 0
PlacedAt m off n a r =
    (m' : SegAllocator) × (r ≡ some (true, m'))
    × IsValid m'
    × (covers m'.by_off a ≡ (if inside off n a then false else covers m.by_off a))

PlacedAt-cut :
    (m m' : SegAllocator) (off n a : ℕ)
    → IsValid m
    → 0 < n
    → Within off n m.by_off
    → m'.by_off ≡ cut off n m.by_off
    → ((e : Seg) → has e m'.by_siz ≡ has e m'.by_off)
    → Sorted m'.by_siz
    → PlacedAt m off n a (some (true, m'))
unfolding IsValid
PlacedAt-cut m m' off n a v pos w e sync sorted = (
  m',
  refl,
  (subst (Segs 0) (sym e) (cut-Segs off n m.by_off 0 pos w v.0), sync, sorted),
  ap (λ l. covers l a) e ∙ cut-covers off n m.by_off 0 a pos w v.0,
)

module _ (m : SegAllocator) (off n : ℕ) (v : IsValid m) (pos : 0 < n) (g : Seg)
    (found : at_or_before off m.by_off ≡ some g) (a : ℕ) where
  -- When the range, of at least one byte, lies in a free segment `g` behind its start, and either ends it or
  -- leaves parts of the same length on both sides, `placement_allocate` succeeds, exactly the bytes of
  -- the range are no longer free, and the map and the set are valid again.
  pub placement_allocate-takes :
      g.off < off
      → (off + n ≡ g.off + g.len)
        ⊎ ((off + n < g.off + g.len) × (off - g.off ≡ g.off + g.len - (off + n)))
      → PlacedAt m off n a (placement_allocate m off n)
  unfolding IsValid placement_allocate
  placement_allocate-takes later k =
      let (there, below) = at_or_before-some off m.by_off g found in
      let bound = has-above g m.by_off 0 v.0 there in
      let h : off + n ≤ g.off + g.len = ground (arith, k) in
      let w = has-Within g off n m.by_off 0 pos v.0 there below h in
      let some_left : (g.len - n == 0) ≡ false = ground arith in
      let not_front : (g.off == off) ≡ false = ground arith in
      subst (PlacedAt m off n a)
        (sym (ap (place_in m off n) found ∙ place_in_inside m g off n below h bound.2))
        (rw (some_left, not_front)
          (elim (Bool-cases (g.off + g.len == off + n)) [
            | inl last ↦ rw last (
                PlacedAt-cut m (back m g off n) off n a v pos w
                  (cut_back g.off g.len off n pos later m.by_off 0 (ground arith) v.0 there)
                  (back-has m g off n pos v.0 there v.1) (insert-Sorted _ _ (erase-Sorted g _ v.2)))
            | inr not_last ↦
                let same_parts : off - g.off ≡ g.len - n - (off - g.off) = ground (arith, k) in
                rw not_last (
                  PlacedAt-cut m (middle m g off n) off n a v pos w
                    (cut_middle g.off g.len off n pos later m.by_off 0 (ground arith) v.0 there)
                    (λ e.
                      middle-has m g off n pos v.0 there v.1 e later (ground arith)
                      ∙ ap
                          (λ len.
                            if same e (seg (off + n) len)
                            then true
                            else (if same e (seg g.off (off - g.off))
                                then true
                                else (if same e g then false else has e m.by_off)))
                          same_parts
                      ∙ sym (middle-map m g off n pos v.0 there v.1 e later (ground arith)))
                    (insert-Sorted _ _ (insert-Sorted _ _ (erase-Sorted g _ v.2))))
          ]))

  -- When the range, of at least one byte, is the start of a longer free segment `g`, `placement_allocate`
  -- succeeds too, but it is the last `n` bytes of `g` that are no longer free; the bytes asked for still
  -- are.
  pub placement_allocate-front :
      g.off ≡ off → n < g.len → PlacedAt m (off + (g.len - n)) n a (placement_allocate m off n)
  unfolding IsValid placement_allocate
  placement_allocate-front e k =
      let (there, below) = at_or_before-some off m.by_off g found in
      let bound = has-above g m.by_off 0 v.0 there in
      let w =
        has-Within g (off + (g.len - n)) n m.by_off 0 pos v.0 there (omega arith) (omega arith) in
      let some_left : (g.len - n == 0) ≡ false = ground arith in
      let is_front : (g.off == off) ≡ true = ground arith in
      subst (PlacedAt m (off + (g.len - n)) n a)
        (sym (ap (place_in m off n) found ∙ place_in_inside m g off n below (omega arith) bound.2))
        (rw some_left (
          rw is_front (
            PlacedAt-cut m (front m g off n) (off + (g.len - n)) n a v pos w
              (subst
                (λ o.
                  OffMap.insert (seg o (g.len - n)) (OffMap.erase g.off m.by_off)
                  ≡ cut (o + (g.len - n)) n m.by_off)
                e (front-cut g.off g.len n m.by_off 0 pos k v.0 there))
              (λ e'. front-has m g off n pos v.0 there v.1 e' e)
              (insert-Sorted _ _ (erase-Sorted g _ v.2)))))

-- When the range, of at least one byte and ending below 2 ^ 64, does not lie in a free segment,
-- `placement_allocate` fails and changes nothing.
pub placement_allocate_refuses :
    (m : SegAllocator) (off n : ℕ)
    → IsValid m
    → 0 < n
    → off + n < 2 ^ 64
    → ¬ Within off n m.by_off
    → placement_allocate m off n ≡ some (false, m)
unfolding IsValid placement_allocate place_in
placement_allocate_refuses m off n v pos h w = elim (Option-cases (at_or_before off m.by_off)) [
  | inl y ↦ ap (place_in m off n) y
  | inr (g, y) ↦
      let (there, below) = at_or_before-some off m.by_off g y in
      elim (dec_lt (g.off + g.len) (off + n)) [
        | yes lt ↦ ap (place_in m off n) y ∙ place_in_outside m g off n lt h
        | no ge ↦ absurd (w (has-Within g off n m.by_off 0 pos v.0 there below (omega arith)))
      ]
]
