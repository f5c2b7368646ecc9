-- ===== src/SegAllocator/Placement.antt =====
-- `placement_allocate`: the range asked for is taken out of the segment around it.
use usable_lib.Prelude.{
  lt→ltb, ℕ, ◌+◌, ◌-◌, ◌≤◌, ◌<◌, ◌≡◌, ◌^◌, refl, ap, ◌∙◌, sym, true, false, List, [], ◌∷◌,
  if◌then◌else◌, ◌==◌, ltb, arith, some, inl, inr, Bool-cases,
}
use usable_lib.SegAllocator.OffMap
use usable_lib.SegAllocator.SizeSet
use usable_lib.SegAllocator.OffMap.{Seg}
use usable_lib.SegAllocator.SizeSet.{same}
use usable_lib.SegAllocator.Entries.{has, insert-has, erase-has}
use usable_lib.SegAllocator.Keys
use usable_lib.SegAllocator.Keys.{key, Keys, Segs-Keys, insert-Keys, assign-Keys, has_one, has-key}
use usable_lib.SegAllocator.Segs.{Segs, cut}
use usable_lib.SegAllocator.Freeing.{add64_lem, sub64_lem}
use usable_lib.SegAllocator.Taking.{has-above, insert-front}
use usable_lib.SegAllocator.Taken.{inside-key}
use usable_lib.SegAllocator.{SegAllocator, seg, place_in, erase_before}

-- The states that `place_in` leaves, in its four cases.
module _ (m : SegAllocator) (g : Seg) (off n : ℕ) where
  abbrev pub front : SegAllocator
  front = record {
    by_off = OffMap.insert (seg off (g.len - n)) (OffMap.erase g.off m.by_off);
    by_siz = SizeSet.insert (seg off (g.len - n)) (SizeSet.erase g m.by_siz);
  }

  abbrev pub back : SegAllocator
  back = record {
    by_off = OffMap.assign g.off (g.len - n) m.by_off;
    by_siz = SizeSet.insert (seg g.off (g.len - n)) (SizeSet.erase g m.by_siz);
  }

  abbrev pub middle : SegAllocator
  middle =
      let right : Seg = seg (off + n) (g.len - n - (off - g.off)) in
      record {
        by_off = OffMap.insert right (OffMap.assign g.off (off - g.off) m.by_off);
        by_siz =
            SizeSet.insert (seg (off + n) (g.len - n - right.len))
              (SizeSet.insert (seg g.off (off - g.off)) (SizeSet.erase g m.by_siz));
      }

  pub place_in_outside :
      g.off + g.len < off + n → off + n < 2 ^ 64 → place_in m off n (some g) ≡ some (false, m)
  unfolding place_in
  place_in_outside h k =
      rw (add64_lem g.off g.len (omega arith)) (rw (add64_lem off n k) (rw (lt→ltb _ _ h) refl))

  pub place_in_inside :
      g.off ≤ off
      → off + n ≤ g.off + g.len
      → g.off + g.len < 2 ^ 64
      → place_in m off n (some g) ≡ (
          if g.len - n == 0
          then erase_before m g (OffMap.before g.off m.by_off)
          else if g.off == off
          then some (true, front)
          else if g.off + g.len == off + n
          then some (true, back)
          else some (true, middle))
  unfolding place_in
  place_in_inside h k b =
      let fits : ltb (g.off + g.len) (off + n) ≡ false = ground arith in
      rw (add64_lem g.off g.len b) (
        rw (add64_lem off n (omega arith)) (
          rw (sub64_lem g.len n (omega arith) (omega arith)) (
            rw (sub64_lem off g.off h (omega arith)) (
              rw
                (
                  sub64_lem (g.len - n) (off - g.off) (omega arith) (omega arith),
                  sub64_lem (g.len - n) (g.len - n - (off - g.off)) (omega arith) (omega arith),
                  fits,
                )
                refl))))

-- what is left in the map when the front is asked for: the last bytes are gone
pub front-cut :
    (off len n : ℕ) (l : List Seg) (lo : ℕ)
    → 0 < n
    → n < len
    → Segs lo l
    → has (seg off len) l ≡ true
    → OffMap.insert (seg off (len - n)) (OffMap.erase off l) ≡ cut (off + (len - n)) n l
unfolding Segs has OffMap.insert OffMap.erase cut
front-cut off len n [] lo pos h s e = absurd (ground arith)
front-cut off len n (g ∷ l) lo pos h s e = elim (Bool-cases (same (seg off len) g)) [
  | inl y ↦ ground (arith, insert-front (seg off (len - n)) l (g.off + g.len + 1) s.1)
  | inr other ↦
      let there : has (seg off len) l ≡ true = ground arith in
      let above = has-above (seg off len) l _ s.1 there in
      let rest = front-cut off len n l _ pos h s.1 there in ground arith
]

-- The map and the set change alike in each case.
module _ (m : SegAllocator) (g : Seg) (off n : ℕ) (pos : 0 < n) (s : Segs 0 m.by_off)
    (there : has g m.by_off ≡ true) (sync : (e : Seg) → has e m.by_siz ≡ has e m.by_off)
    (e : Seg) where
  pub back-has : has e (back m g off n).by_siz ≡ has e (back m g off n).by_off
  back-has =
      let keys = Segs-Keys m.by_off 0 s in
      let left : Seg = seg g.off (g.len - n) in
      ground (
        insert-has e left (SizeSet.erase g m.by_siz),
        erase-has e g m.by_siz,
        Keys.assign-has e g.off left.len m.by_off 0 keys (has-key g m.by_off there),
        sync e,
        has_one e g m.by_off 0 keys there,
        arith,
      )

  pub front-has : g.off ≡ off → has e (front m g off n).by_siz ≡ has e (front m g off n).by_off
  front-has h =
      let keys = Segs-Keys m.by_off 0 s in
      let left : Seg = seg off (g.len - n) in
      let fresh : key off (OffMap.erase g.off m.by_off) ≡ false =
        ap (λ k. key k (OffMap.erase g.off m.by_off)) (sym h)
        ∙ Keys.erase-key g.off m.by_off 0 keys in
      ground (
        insert-has e left (SizeSet.erase g m.by_siz),
        erase-has e g m.by_siz,
        Keys.insert-has e left (OffMap.erase g.off m.by_off) fresh,
        Keys.erase-has e g.off m.by_off 0 keys,
        sync e,
        has_one e g m.by_off 0 keys there,
        arith,
      )

  -- the map is right when the range lies inside; the set has the length of the left part for the right one
  pub middle-has :
      g.off < off
      → off + n < g.off + g.len
      → has e (middle m g off n).by_siz ≡ (
          if same e (seg (off + n) (off - g.off))
          then true
          else (if same e (seg g.off (off - g.off))
              then true
              else (if same e g then false else has e m.by_off)))
  middle-has h k =
      let left : Seg = seg g.off (off - g.off) in
      let mistaken : g.len - n - (g.len - n - (off - g.off)) ≡ off - g.off = omega arith in
      rw mistaken (
        insert-has e (seg (off + n) (off - g.off)) (SizeSet.insert left (SizeSet.erase g m.by_siz))
        ∙ ground
            (insert-has e left (SizeSet.erase g m.by_siz), erase-has e g m.by_siz, sync e, arith))

  pub middle-map :
      g.off < off
      → off + n < g.off + g.len
      → has e (middle m g off n).by_off ≡ (
          if same e (seg (off + n) (g.len - n - (off - g.off)))
          then true
          else (if same e (seg g.off (off - g.off))
              then true
              else (if same e g then false else has e m.by_off)))
  middle-map h k =
      let keys = Segs-Keys m.by_off 0 s in
      let left : Seg = seg g.off (off - g.off) in
      let right : Seg = seg (off + n) (g.len - n - (off - g.off)) in
      let fresh : key right.off (OffMap.assign g.off left.len m.by_off) ≡ false =
        Keys.assign-key right.off g.off left.len m.by_off
        ∙ inside-key g right.off m.by_off 0 s there (omega arith) (omega arith) in
      ground (
        Keys.insert-has e right (OffMap.assign g.off left.len m.by_off) fresh,
        Keys.assign-has e g.off left.len m.by_off 0 keys (has-key g m.by_off there),
        has_one e g m.by_off 0 keys there,
        arith,
      )
