-- ===== src/LruCache/Recency.antt =====
-- The entries of a cache in the order of their use, and what they say of its list and its map.
use usable_lib.Prelude.{
  ℕ, suc, ◌≤◌, ◌≡◌, inl, inr, refl, ap, Option, none, some, List, [], ◌∷◌, length, ◌==◌, arith,
  Bool-cases,
}
use usable_lib.LruCache.{take_node, last}
use usable_lib.Prelude.Maps.{find, erase, Once, erase_absent}

pub oldest : {B : Type 0} → List (ℕ × B) → Option (ℕ × B)
oldest [] = none
oldest (x ∷ []) = some x
oldest (x ∷ y ∷ m) = oldest (y ∷ m)

pub drop_last : {B : Type 0} → List (ℕ × B) → List (ℕ × B)
drop_last [] = []
drop_last (x ∷ []) = []
drop_last (x ∷ y ∷ m) = x ∷ drop_last (y ∷ m)

module _ {V : Type 0} where
  -- An entry is a key with its node and its value.
  unfoldable pub nodes : List (ℕ × (ℕ × V)) → List (ℕ × ℕ)
  nodes [] = []
  nodes ((k, (i, v)) ∷ ys) = (i, k) ∷ nodes ys

  unfoldable pub contents : List (ℕ × (ℕ × V)) → List (ℕ × V)
  contents [] = []
  contents ((k, (i, v)) ∷ ys) = (k, v) ∷ contents ys

  pub find-nodes :
      (ys : List (ℕ × (ℕ × V))) (k i : ℕ) (v : V)
      → Once (nodes ys)
      → find ys k ≡ some (i, v)
      → find (nodes ys) i ≡ some k
  unfolding find nodes Once
  find-nodes [] k i v o e = ground (arith, e)
  find-nodes ((l, (j, w)) ∷ ys) k i v o e = ground (arith, e, o.0, find-nodes ys k i v o.1)

  pub erase-nodes :
      (ys : List (ℕ × (ℕ × V))) (k i : ℕ) (v : V)
      → Once ys
      → Once (nodes ys)
      → find ys k ≡ some (i, v)
      → erase (nodes ys) i ≡ nodes (erase ys k)
  unfolding find nodes Once erase
  erase-nodes [] k i v o n e = refl
  erase-nodes ((l, (j, w)) ∷ ys) k i v o n e = ground (
    arith,
    e,
    o.0,
    n.0,
    erase_absent ys k,
    erase_absent (nodes ys) i,
    find-nodes ys k i v n.1,
    erase-nodes ys k i v o.1 n.1,
  )

  pub find-contents-some :
      (ys : List (ℕ × (ℕ × V))) (k i : ℕ) (v : V)
      → find ys k ≡ some (i, v)
      → find (contents ys) k ≡ some v
  unfolding find contents
  find-contents-some [] k i v e = ground (arith, e)
  find-contents-some ((l, (j, w)) ∷ ys) k i v e = ground (arith, e, find-contents-some ys k i v)

  pub find-contents-none :
      (ys : List (ℕ × (ℕ × V))) (k : ℕ) → find ys k ≡ none → find (contents ys) k ≡ none
  unfolding find contents
  find-contents-none [] k e = refl
  find-contents-none ((l, (j, w)) ∷ ys) k e = ground (arith, e, find-contents-none ys k)

  pub erase-contents :
      (ys : List (ℕ × (ℕ × V))) (k : ℕ) → contents (erase ys k) ≡ erase (contents ys) k
  unfolding erase contents
  erase-contents [] k = refl
  erase-contents ((l, (j, w)) ∷ ys) k = elim (Bool-cases (l == k)) [
    | inl e ↦ rw e (erase-contents ys k)
    | inr e ↦ rw e (ap (◌∷◌ (l, w)) (erase-contents ys k))
  ]

  pub length-contents : (ys : List (ℕ × (ℕ × V))) → length (contents ys) ≡ length ys
  unfolding contents
  length-contents [] = refl
  length-contents ((l, (j, w)) ∷ ys) = ap suc (length-contents ys)

  pub drop_last-contents :
      (ys : List (ℕ × (ℕ × V))) → contents (drop_last ys) ≡ drop_last (contents ys)
  unfolding contents drop_last
  drop_last-contents [] = refl
  drop_last-contents (x ∷ []) = refl
  drop_last-contents ((l, (j, w)) ∷ y ∷ ys) = ap (◌∷◌ (l, w)) (drop_last-contents (y ∷ ys))

  pub last-nodes :
      (ys : List (ℕ × (ℕ × V))) (k i : ℕ) (v : V)
      → oldest ys ≡ some (k, (i, v))
      → last (nodes ys) ≡ some (i, k)
  unfolding nodes last oldest
  last-nodes [] k i v e = ground (arith, e)
  last-nodes ((l, (j, w)) ∷ []) k i v e = ground (arith, e)
  last-nodes ((l, (j, w)) ∷ y ∷ ys) k i v e = last-nodes (y ∷ ys) k i v e

module _ {B : Type 0} where
  pub oldest-some : (m : List (ℕ × B)) → 1 ≤ length m → (k : ℕ) × (b : B) × (oldest m ≡ some (k, b))
  unfolding oldest
  oldest-some [] h = absurd (omega arith)
  oldest-some ((k, b) ∷ []) h = (k, b, refl)
  oldest-some (x ∷ y ∷ m) h = oldest-some (y ∷ m) (omega arith)

  pub find-oldest :
      (m : List (ℕ × B)) (k : ℕ) (b : B) → Once m → oldest m ≡ some (k, b) → find m k ≡ some b
  unfolding oldest find Once
  find-oldest [] k b o e = ground (arith, e)
  find-oldest ((l, c) ∷ []) k b o e = ground (arith, e)
  find-oldest ((l, c) ∷ y ∷ m) k b o e = ground (arith, o.0, find-oldest (y ∷ m) k b o.1 e)

  pub erase-oldest :
      (m : List (ℕ × B)) (k : ℕ) (b : B) → Once m → oldest m ≡ some (k, b) → erase m k ≡ drop_last m
  unfolding oldest erase Once drop_last
  erase-oldest [] k b o e = refl
  erase-oldest ((l, c) ∷ []) k b o e = ground (arith, e)
  erase-oldest ((l, c) ∷ y ∷ m) k b o e =
      ground (arith, e, o.0, find-oldest (y ∷ m) k b o.1, erase-oldest (y ∷ m) k b o.1)

pub take_node-erase :
    (l : List (ℕ × ℕ)) (it k : ℕ)
    → Once l
    → find l it ≡ some k
    → take_node l it ≡ some (k, erase l it)
unfolding take_node find erase Once
take_node-erase [] it k o e = ground (arith, e)
take_node-erase ((j, c) ∷ l) it k o e =
    ground (arith, e, o.0, erase_absent l it, take_node-erase l it k o.1)
