-- ===== src/SegAllocator/Keys.antt =====
-- The entries of the map, each with a key of its own: what each operation adds and removes.
use usable_lib.Prelude.{
  ℕ, ◌+◌, ◌≤◌, ◌<◌, ◌≡◌, refl, Bool, true, false, List, [], ◌∷◌, if◌then◌else◌, ◌==◌, arith, some,
  Option-cases,
}
use usable_lib.SegAllocator.OffMap.{Seg, insert, erase, assign, lower_bound, before}
use usable_lib.SegAllocator.SizeSet.{same}
use usable_lib.SegAllocator.Entries.{has}
use usable_lib.SegAllocator.Segs.{Segs, Disjoint}

-- increasing keys from `lo` on
unfoldable pub Keys : ℕ → List Seg → Type 0
Keys lo [] = Unit
Keys lo (g ∷ l) = (lo ≤ g.off) × (Keys (g.off + 1) l)

unfoldable pub key : ℕ → List Seg → Bool
key k [] = false
key k (g ∷ l) = let rest = key k l in if g.off == k then true else rest

Keys-le : {lo lo' : ℕ} (l : List Seg) → lo' ≤ lo → Keys lo l → Keys lo' l
unfolding Keys
Keys-le [] h s = tt
Keys-le (g ∷ l) h s = (omega arith, s.1)

pub Segs-Keys : (l : List Seg) (lo : ℕ) → Segs lo l → Keys lo l
unfolding Segs Keys
Segs-Keys [] lo s = tt
Segs-Keys (g ∷ l) lo s = (s.0.0, Keys-le l (omega arith) (Segs-Keys l _ s.1))

pub has-key : (g : Seg) (l : List Seg) → has g l ≡ true → key g.off l ≡ true
unfolding has key
has-key g [] h = ground arith
has-key g (q ∷ l) h = ground (arith, has-key g l)

pub key-above : (k : ℕ) (l : List Seg) (lo : ℕ) → k < lo → Keys lo l → key k l ≡ false
unfolding Keys key
key-above k [] lo h s = refl
key-above k (g ∷ l) lo h s = ground (arith, key-above k l (g.off + 1) (omega arith) s.1)

has-above_key : (e : Seg) (l : List Seg) (lo : ℕ) → e.off < lo → Keys lo l → has e l ≡ false
unfolding Keys has
has-above_key e [] lo h s = refl
has-above_key e (g ∷ l) lo h s = ground (arith, has-above_key e l (g.off + 1) (omega arith) s.1)

pub has_one :
    (e g : Seg) (l : List Seg) (lo : ℕ)
    → Keys lo l
    → has g l ≡ true
    → has e l ≡ true
    → e.off ≡ g.off
    → same e g ≡ true
unfolding Keys has
has_one e g [] lo s h h' k = absurd (ground arith)
has_one e g (q ∷ l) lo s h h' k = ground (
  arith,
  has_one e g l (q.off + 1) s.1,
  has-above_key e l (q.off + 1),
  has-above_key g l (q.off + 1),
)

pub insert-Keys : (g : Seg) (l : List Seg) (lo : ℕ) → lo ≤ g.off → Keys lo l → Keys lo (insert g l)
unfolding Keys insert
insert-Keys g [] lo h s = (h, tt)
insert-Keys g (q ∷ l) lo h s = ground (arith, insert-Keys g l (q.off + 1))

pub assign-Keys : (k v : ℕ) (l : List Seg) (lo : ℕ) → Keys lo l → Keys lo (assign k v l)
unfolding Keys assign
assign-Keys k v [] lo s = tt
assign-Keys k v (q ∷ l) lo s = ground (arith, assign-Keys k v l (q.off + 1))

pub insert-has :
    (e g : Seg) (l : List Seg)
    → key g.off l ≡ false
    → has e (insert g l) ≡ (if same e g then true else has e l)
unfolding has insert key
insert-has e g [] h = refl
insert-has e g (q ∷ l) h = ground (arith, insert-has e g l)

-- A key that is there stays with its length.
pub insert_known :
    (g : Seg) (l : List Seg) (lo : ℕ) → Keys lo l → key g.off l ≡ true → insert g l ≡ l
unfolding Keys insert key
insert_known g [] lo s h = absurd (ground arith)
insert_known g (q ∷ l) lo s h =
    ground (arith, insert_known g l (q.off + 1) s.1, key-above g.off l (q.off + 1))

pub erase-has :
    (e : Seg) (k : ℕ) (l : List Seg) (lo : ℕ)
    → Keys lo l
    → has e (erase k l) ≡ (if e.off == k then false else has e l)
unfolding has erase Keys
erase-has e k [] lo s = ground arith
erase-has e k (q ∷ l) lo s =
    ground (arith, erase-has e k l (q.off + 1) s.1, has-above_key e l (q.off + 1))

pub assign-has :
    (e : Seg) (k v : ℕ) (l : List Seg) (lo : ℕ)
    → Keys lo l
    → key k l ≡ true
    → has e (assign k v l) ≡ (if e.off == k then e.len == v else has e l)
unfolding has assign Keys key
assign-has e k v [] lo s h = absurd (ground arith)
assign-has e k v (q ∷ l) lo s h =
    ground (arith, assign-has e k v l (q.off + 1) s.1, has-above_key e l (q.off + 1))

pub assign-key : (k j v : ℕ) (l : List Seg) → key k (assign j v l) ≡ key k l
unfolding key assign
assign-key k j v [] = refl
assign-key k j v (g ∷ l) = ground (arith, assign-key k j v l)

pub erase-key : (k : ℕ) (l : List Seg) (lo : ℕ) → Keys lo l → key k (erase k l) ≡ false
unfolding key erase Keys
erase-key k [] lo s = refl
erase-key k (g ∷ l) lo s = ground (arith, erase-key k l (g.off + 1) s.1, key-above k l (g.off + 1))

pub before-some :
    (k : ℕ) (l : List Seg) (p : Seg) → before k l ≡ some p → has p l ≡ true × p.off < k
unfolding before has
before-some k [] p e = absurd (ground arith)
before-some k (g ∷ l) p e = ground (arith, before-some k l p, Option-cases (before k l))

pub lower_bound-some : (k : ℕ) (l : List Seg) (q : Seg) → lower_bound k l ≡ some q → has q l ≡ true
unfolding lower_bound has
lower_bound-some k [] q e = absurd (ground arith)
lower_bound-some k (g ∷ l) q e = ground (arith, lower_bound-some k l q)

pub Disjoint-key :
    (off len : ℕ) (l : List Seg) (lo : ℕ)
    → 0 < len
    → Disjoint off len l
    → Segs lo l
    → key off l ≡ false
unfolding Disjoint Segs key
Disjoint-key off len [] lo h d s = refl
Disjoint-key off len (g ∷ l) lo h d s =
    ground (arith, Disjoint-key off len l (g.off + g.len + 1) h d.1 s.1)
