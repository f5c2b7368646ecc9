-- ===== src/SegAllocator/Allocate.antt =====
-- `allocate`: it takes from a smallest segment that is large enough.
use usable_lib.Prelude.{
  ℕ, ◌+◌, ◌-◌, ◌≤◌, ◌<◌, ◌≡◌, ◌^◌, refl, ap, ◌∙◌, subst, sym, true, false, if◌then◌else◌, arith,
  none, some, Option-cases, inl, inr,
}
use usable_lib.SegAllocator.OffMap
use usable_lib.SegAllocator.SizeSet
use usable_lib.SegAllocator.OffMap.{Seg}
use usable_lib.SegAllocator.SizeSet.{same}
use usable_lib.SegAllocator.Entries.{has, lower_bound-least, lower_bound-none}
use usable_lib.SegAllocator.Keys.{Segs-Keys, insert_known, has-key}
use usable_lib.SegAllocator.Segs.{Within, covers, inside, cut-covers}
use usable_lib.SegAllocator.Taking.{cut_whole, has-above, has-Within}
use usable_lib.SegAllocator.Validity.{IsValid}
use usable_lib.SegAllocator.{SegAllocator, seg, allocate, take_from}
use usable_lib.SegAllocator.Taken.{taken, allocate-taken, taken-cut, taken-IsValid}

-- the segment that the search finds
found :
    (m : SegAllocator) (n : ℕ) (g : Seg)
    → IsValid m
    → SizeSet.lower_bound n m.by_siz ≡ some g
    → has g m.by_off ≡ true × n ≤ g.len × g.off + g.len < 2 ^ 64
unfolding IsValid
found m n g v e =
    let best = lower_bound-least n m.by_siz g v.2 e in
    let there : has g m.by_off ≡ true = sym (v.1 g) ∙ best.0 in
    (there, best.1, (has-above g m.by_off 0 v.0 there).2)

-- When some segment has `n` bytes, `allocate` returns the start of a smallest segment that has.
pub allocate-least :
    (m : SegAllocator) (n : ℕ)
    → IsValid m
    → (e : Seg) → has e m.by_off ≡ true
    → n ≤ e.len
    → (g : Seg) × ((allocate m n).0 ≡ some g.off)
      × (has g m.by_off ≡ true)
      × (n ≤ g.len)
      × (g.len ≤ e.len)
unfolding IsValid
allocate-least m n v e h k = elim (Option-cases (SizeSet.lower_bound n m.by_siz)) [
  | inl y ↦ absurd (omega (arith, lower_bound-none n m.by_siz e y (v.1 e ∙ h)))
  | inr (g, y) ↦
      let (there, fits, bound) = found m n g v y in
      (
        g,
        ap (λ r. r.0) (allocate-taken m g n y fits bound),
        there,
        fits,
        (lower_bound-least n m.by_siz g v.2 y).2 e (v.1 e ∙ h) k,
      )
]

abbrev Taken : SegAllocator → ℕ → ℕ → ℕ → SegAllocator → Type 0
Taken m n off a m' =
    Within off n m.by_off
    × IsValid m'
    × (covers m'.by_off a ≡ (if inside off n a then false else covers m.by_off a))

taken-Taken :
    (m : SegAllocator) (g : Seg) (n : ℕ)
    → IsValid m
    → 0 < n
    → n ≤ g.len
    → has g m.by_off ≡ true
    → (a : ℕ) → Taken m n g.off a (taken m g n)
unfolding IsValid
taken-Taken m g n v pos h e a =
    let within = has-Within g g.off n m.by_off 0 pos v.0 e (omega arith) (omega arith) in
    (
      within,
      taken-IsValid m g n pos h e v,
      ap (λ l. covers l a) (taken-cut m g n pos h v.0 e)
          ∙ cut-covers g.off n m.by_off 0 a pos within v.0,
    )

-- When `allocate` returns an address for `n` bytes, at least one, these bytes lie in one free
-- segment, exactly they are no longer free, and the map and the set are valid again.
pub allocate-takes :
    (m : SegAllocator) (n off : ℕ)
    → IsValid m
    → 0 < n
    → (allocate m n).0 ≡ some off
    → (a : ℕ)
    → Within off n m.by_off
      × IsValid (allocate m n).1
      × (covers (allocate m n).1.by_off a ≡ (if inside off n a then false else covers m.by_off a))
unfolding allocate take_from
allocate-takes m n off v pos r a = elim (Option-cases (SizeSet.lower_bound n m.by_siz)) [
  | inl y ↦
      let nothing : (take_from m n (SizeSet.lower_bound n m.by_siz)).0 ≡ none =
        ap (λ o. (take_from m n o).0) y in
      absurd (ground arith)
  | inr (g, y) ↦
      let (there, fits, bound) = found m n g v y in
      let result = allocate-taken m g n y fits bound in
      let start : some g.off ≡ some off = ap (λ p. p.0) (sym result) ∙ r in
      let same_off : g.off ≡ off = ground arith in
      subst (λ o. Taken m n o a (allocate m n).1) same_off
        (subst (λ p. Taken m n g.off a p.1) (sym result) (taken-Taken m g n v pos fits there a))
]

-- `allocate` of no bytes takes the whole of the segment that it finds out of the free ones.
pub allocate-zero :
    (m : SegAllocator) (g : Seg)
    → IsValid m
    → SizeSet.lower_bound 0 m.by_siz ≡ some g
    → (a : ℕ)
    → covers (allocate m 0).1.by_off a ≡ (if inside g.off g.len a then false else covers m.by_off a)
unfolding IsValid
allocate-zero m g v e a =
    let (there, fits, bound) = found m 0 g v e in
    let some_bytes : 0 < g.len = (has-above g m.by_off 0 v.0 there).1 in
    let keys = Segs-Keys m.by_off 0 v.0 in
    let known : OffMap.insert (seg (g.off + 0) (g.len - 0)) m.by_off ≡ m.by_off =
      insert_known _ m.by_off 0 keys (ground (arith, has-key g m.by_off there)) in
    let gone : (taken m g 0).by_off ≡ OffMap.erase g.off m.by_off = ground (arith, known) in
    ap (λ p. covers p.1.by_off a) (allocate-taken m g 0 e fits bound)
    ∙ ap (λ l. covers l a) (gone ∙ cut_whole g.off g.len g.len some_bytes m.by_off 0 refl v.0 there)
    ∙ cut-covers g.off g.len m.by_off 0 a some_bytes
        (has-Within g g.off g.len m.by_off 0 some_bytes v.0 there (omega arith) (omega arith)) v.0
