-- ===== src/SegAllocator/Deallocate.antt =====
-- `deallocate`: it frees exactly the range and joins it with the segments that it touches.
use usable_lib.Prelude.{
  ℕ, ◌+◌, ◌<◌, ◌≡◌, ◌^◌, refl, ap, ◌∙◌, subst, sym, Bool, true, false, if◌then◌else◌, arith, Option,
  none, some, add64, sub64,
}
use usable_lib.SegAllocator.OffMap
use usable_lib.SegAllocator.SizeSet
use usable_lib.SegAllocator.OffMap.{Seg}
use usable_lib.SegAllocator.SizeSet.{same}
use usable_lib.SegAllocator.Entries.{
  has, Sorted, insert-has, erase-has, insert-Sorted, erase-Sorted,
}
use usable_lib.SegAllocator.Keys
use usable_lib.SegAllocator.Keys.{
  key, Keys, Segs-Keys, insert-Keys, assign-Keys, has_one, has-key, before-some, lower_bound-some,
  Disjoint-key,
}
use usable_lib.SegAllocator.Segs.{Segs, Disjoint, covers, inside, put-Segs, put-covers}
use usable_lib.SegAllocator.Freeing.{add64_lem, sub64_lem, deallocate-put}
use usable_lib.SegAllocator.Validity.{IsValid}
use usable_lib.SegAllocator.{SegAllocator, seg, deallocate, merge, meets_next}

merge-Sorted :
    (m : SegAllocator) (off len : ℕ) (prev next : Option Seg)
    → Sorted m.by_siz
    → Sorted (merge m off len prev next).by_siz
unfolding merge
merge-Sorted m off len none none s = insert-Sorted _ _ s
merge-Sorted m off len none (some q) s = insert-Sorted _ _ (erase-Sorted q _ s)
merge-Sorted m off len (some p) none s = insert-Sorted _ _ (erase-Sorted p _ s)
merge-Sorted m off len (some p) (some q) s =
    insert-Sorted _ _ (erase-Sorted q _ (erase-Sorted p _ s))

-- The map and the set change alike, whichever neighbours are joined.
module _ (m : SegAllocator) (off len : ℕ) (pos : 0 < len) (fits : off + len < 2 ^ 64)
    (keys : Keys 0 m.by_off) (fresh : key off m.by_off ≡ false)
    (sync : (e : Seg) → has e m.by_siz ≡ has e m.by_off) where
  merge-has :
      (prev next : Option Seg)
      → ((p : Seg) → prev ≡ some p → has p m.by_off ≡ true × p.off < off)
      → ((q : Seg) → next ≡ some q → has q m.by_off ≡ true × off + len ≡ q.off)
      → (e : Seg)
      → has e (merge m off len prev next).by_siz ≡ has e (merge m off len prev next).by_off
  unfolding merge
  merge-has none none hp hn e =
      insert-has e (seg off len) m.by_siz
      ∙ ap (λ b. if same e (seg off len) then true else b) (sync e)
      ∙ sym (Keys.insert-has e (seg off len) m.by_off fresh)
  merge-has none (some q) hp hn e =
      let (there, stop) = hn q refl in
      let start : sub64 q.off len ≡ off =
        sub64_lem q.off len (omega arith) (omega arith) ∙ omega arith in
      let joined : Seg = seg (sub64 q.off len) (add64 q.len len) in
      let new : key joined.off m.by_off ≡ false = ap (λ k. key k m.by_off) start ∙ fresh in
      ground (
        insert-has e joined (SizeSet.erase q m.by_siz),
        erase-has e q m.by_siz,
        Keys.erase-has e q.off (OffMap.insert joined m.by_off) 0
            (insert-Keys joined m.by_off 0 (omega arith) keys),
        Keys.insert-has e joined m.by_off new,
        sync e,
        has_one e q m.by_off 0 keys there,
        arith,
      )
  merge-has (some p) none hp hn e =
      let (there, below) = hp p refl in
      let n : ℕ = add64 p.len len in
      ground (
        insert-has e (seg p.off n) (SizeSet.erase p m.by_siz),
        erase-has e p m.by_siz,
        Keys.assign-has e p.off n m.by_off 0 keys (has-key p m.by_off there),
        sync e,
        has_one e p m.by_off 0 keys there,
        arith,
      )
  merge-has (some p) (some q) hp hn e =
      let (there, below) = hp p refl in
      let (there', stop) = hn q refl in
      let n : ℕ = add64 p.len (add64 len q.len) in
      ground (
        insert-has e (seg p.off n) (SizeSet.erase q (SizeSet.erase p m.by_siz)),
        erase-has e q (SizeSet.erase p m.by_siz),
        erase-has e p m.by_siz,
        Keys.erase-has e q.off (OffMap.assign p.off n m.by_off) 0
            (assign-Keys p.off n m.by_off 0 keys),
        Keys.assign-has e p.off n m.by_off 0 keys (has-key p m.by_off there),
        sync e,
        has_one e p m.by_off 0 keys there,
        has_one e q m.by_off 0 keys there',
        arith,
      )

kept_some :
    (b : Bool) {o : Option Seg} {p : Seg}
    → (if b then o else none) ≡ some p
    → (b ≡ true) × (o ≡ some p)
kept_some true e = (refl, e)
kept_some false e = absurd (ground arith)

meets_next_lem :
    (stop : ℕ) (o : Option Seg) (q : Seg) → o ≡ some q → meets_next stop o ≡ true → stop ≡ q.off
meets_next_lem stop none q e h = absurd (ground arith)
meets_next_lem stop (some r) q e h = ground arith

-- When a range of at least one byte that ends below 2 ^ 64 has no free byte, `deallocate` makes
-- exactly its bytes free, and the map and the set are valid again: no two free segments overlap or
-- touch.
pub deallocate-gives :
    (m : SegAllocator) (off len : ℕ)
    → IsValid m
    → 0 < len
    → off + len < 2 ^ 64
    → Disjoint off len m.by_off
    → (a : ℕ)
    → IsValid (deallocate m off len)
      × (covers (deallocate m off len).by_off a
          ≡ (if inside off len a then true else covers m.by_off a))
unfolding IsValid deallocate
deallocate-gives m off len v pos fits d a =
    let after = deallocate-put m off len v.0 pos fits d in
    (
      (
        subst (Segs 0) (sym after) (put-Segs off len m.by_off 0 (omega arith) pos fits d v.0),
        merge-has m off len pos fits (Segs-Keys m.by_off 0 v.0)
            (Disjoint-key off len m.by_off 0 pos d v.0) v.1 _ _
            (λ p e. before-some off m.by_off p (kept_some _ e).1)
            (λ q e.
              let (b, o) = kept_some _ e in
              (
                lower_bound-some off m.by_off q o,
                sym (add64_lem off len fits) ∙ meets_next_lem (add64 off len) _ q o b,
              )),
        merge-Sorted m off len _ _ v.2,
      ),
      ap (λ l. covers l a) after ∙ put-covers off len m.by_off a,
    )
