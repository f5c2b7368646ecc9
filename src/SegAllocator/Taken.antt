-- ===== src/SegAllocator/Taken.antt =====
-- `allocate`: the state that it leaves when it takes the front of a segment.
use usable_lib.Prelude.{
  ℕ, ◌+◌, ◌-◌, ◌≤◌, ◌<◌, ◌≡◌, ◌^◌, refl, ap, ap₂, ◌∙◌, subst, sym, Bool, true, false, List, [], ◌∷◌,
  if◌then◌else◌, ltb, arith, some, inl, inr, Bool-cases,
}
use usable_lib.SegAllocator.OffMap
use usable_lib.SegAllocator.SizeSet
use usable_lib.SegAllocator.OffMap.{Seg}
use usable_lib.SegAllocator.SizeSet.{same}
use usable_lib.SegAllocator.Entries.{has, insert-has, erase-has, insert-Sorted, erase-Sorted}
use usable_lib.SegAllocator.Keys
use usable_lib.SegAllocator.Keys.{key, Segs-Keys, insert-Keys, has_one, insert_known, has-key}
use usable_lib.SegAllocator.Segs.{Segs, cut, cut-Segs}
use usable_lib.SegAllocator.Freeing.{add64_lem, sub64_lem}
use usable_lib.SegAllocator.Taking.{cut_front, cut_whole, has-above, has-Within}
use usable_lib.SegAllocator.Validity.{IsValid}
use usable_lib.SegAllocator.{SegAllocator, seg, allocate, take_from}

-- the state after `n` bytes are taken from the front of the segment `g`
abbrev pub taken : SegAllocator → Seg → ℕ → SegAllocator
taken m g n =
    let rest : Seg = seg (g.off + n) (g.len - n) in
    let split : Bool = ltb 0 (g.len - n) in
    record {
      by_off = OffMap.erase g.off (if split then OffMap.insert rest m.by_off else m.by_off);
      by_siz = SizeSet.erase g (if split then SizeSet.insert rest m.by_siz else m.by_siz);
    }

pub allocate-taken :
    (m : SegAllocator) (g : Seg) (n : ℕ)
    → SizeSet.lower_bound n m.by_siz ≡ some g
    → n ≤ g.len
    → g.off + g.len < 2 ^ 64
    → allocate m n ≡ (some g.off, taken m g n)
unfolding allocate take_from
allocate-taken m g n e h k =
    ap (take_from m n) e
    ∙ ap₂
        (λ less stop.
          let split : Bool = ltb 0 less in
          let by_off : List Seg =
            if split then OffMap.insert (seg stop less) m.by_off else m.by_off in
          let by_siz : List Seg =
            if split then SizeSet.insert (seg stop less) m.by_siz else m.by_siz in
          (
            some g.off,
            record { by_off = OffMap.erase g.off by_off; by_siz = SizeSet.erase g by_siz },
          ))
        (sub64_lem g.len n h (omega arith)) (add64_lem g.off n (omega arith))

pub taken-cut :
    (m : SegAllocator) (g : Seg) (n : ℕ)
    → 0 < n
    → n ≤ g.len
    → Segs 0 m.by_off
    → has g m.by_off ≡ true
    → (taken m g n).by_off ≡ cut g.off n m.by_off
taken-cut m g n pos h s e = elim (Bool-cases (ltb 0 (g.len - n))) [
  | inl y ↦ rw y (cut_front g.off g.len n pos m.by_off 0 (ground arith) s e)
  | inr whole ↦ rw whole (cut_whole g.off g.len n pos m.by_off 0 (ground arith) s e)
]

-- no segment starts inside another
pub inside-key :
    (g : Seg) (k : ℕ) (l : List Seg) (lo : ℕ)
    → Segs lo l
    → has g l ≡ true
    → g.off < k
    → k ≤ g.off + g.len
    → key k l ≡ false
unfolding Segs has key
inside-key g k [] lo s h a b = refl
inside-key g k (q ∷ l) lo s h a b = ground (
  arith,
  inside-key g k l (q.off + q.len + 1) s.1,
  has-above g l (q.off + q.len + 1) s.1,
  Keys.key-above k l (q.off + q.len + 1),
  Segs-Keys l (q.off + q.len + 1) s.1,
)

pub taken-has :
    (m : SegAllocator) (g : Seg) (n : ℕ)
    → 0 < n
    → n ≤ g.len
    → Segs 0 m.by_off
    → has g m.by_off ≡ true
    → ((e : Seg) → has e m.by_siz ≡ has e m.by_off)
    → (e : Seg) → has e (taken m g n).by_siz ≡ has e (taken m g n).by_off
taken-has m g n pos h s y sync e =
    let keys = Segs-Keys m.by_off 0 s in
    elim (Bool-cases (ltb 0 (g.len - n))) [
      | inl more ↦
          let rest : Seg = seg (g.off + n) (g.len - n) in
          let free_key : key rest.off m.by_off ≡ false =
            inside-key g rest.off m.by_off 0 s y (omega arith) (omega arith) in
          rw more (
            ground (
              erase-has e g (SizeSet.insert rest m.by_siz),
              insert-has e rest m.by_siz,
              Keys.erase-has e g.off (OffMap.insert rest m.by_off) 0
                  (insert-Keys rest m.by_off 0 (omega arith) keys),
              Keys.insert-has e rest m.by_off free_key,
              sync e,
              has_one e g m.by_off 0 keys y,
              arith,
            ))
      | inr whole ↦ rw whole (
          ground (
            erase-has e g m.by_siz,
            Keys.erase-has e g.off m.by_off 0 keys,
            sync e,
            has_one e g m.by_off 0 keys y,
            arith,
          ))
    ]

pub taken-IsValid :
    (m : SegAllocator) (g : Seg) (n : ℕ)
    → 0 < n
    → n ≤ g.len
    → has g m.by_off ≡ true
    → IsValid m
    → IsValid (taken m g n)
unfolding IsValid
taken-IsValid m g n pos h e v = (
  subst (Segs 0) (sym (taken-cut m g n pos h v.0 e)) (
      cut-Segs g.off n m.by_off 0 pos
        (has-Within g g.off n m.by_off 0 pos v.0 e (omega arith) (omega arith)) v.0),
  taken-has m g n pos h v.0 e v.1,
  elim (Bool-cases (ltb 0 (g.len - n))) [
    | inl y ↦ rw y (erase-Sorted g _ (insert-Sorted _ m.by_siz v.2))
    | inr y ↦ rw y (erase-Sorted g _ v.2)
  ],
)
