-- ===== src/LruCache/Holds.antt =====
-- When a cache holds a list of pairs, and what the moves of entries do to that.
use usable_lib.Prelude.{
  ℕ, suc, ◌≤◌, ◌≡◌, ◌∙◌, subst, refl, Option, none, some, List, ◌∷◌, length, if◌then◌else◌, ◌==◌,
  arith,
}
use usable_lib.LruCache.{LruCache, splice_front}
use usable_lib.Prelude.Maps.{
  find, erase, assign, Once, find-erase, erase_absent, erase-Once, length-erase,
}
use usable_lib.LruCache.Recency.{
  nodes, contents, drop_last, find-nodes, erase-nodes, take_node-erase,
}

module _ {V : Type 0} where
  -- The entries `ys`, the last used one first, are those of the list and of the map.
  pub record Represents (s : LruCache V) (ys : List (ℕ × (ℕ × V))) : Type 0 where
    pub listed : s.lru_list ≡ nodes ys
    pub mapped : (k : ℕ) → find s.cache k ≡ find ys k
    pub counted : length s.cache ≡ length ys
    pub keys_once : Once ys
    pub nodes_once : Once (nodes ys)
    pub cache_once : Once s.cache
    pub fresh : (i : ℕ) → s.next_node ≤ i → find (nodes ys) i ≡ none
    pub bounded : length ys ≤ s.capacity

  -- the pairs of a cache, the last used one first
  abbrev pub Holds : LruCache V → List (ℕ × V) → Type 0
  Holds s xs = (ys : List (ℕ × (ℕ × V))) × Represents s ys × (contents ys ≡ xs)

  -- A list of pairs, the last used first, with room for `capacity`.
  unfoldable pub ideal_put : ℕ → List (ℕ × V) → ℕ → V → List (ℕ × V)
  ideal_put capacity xs key value = elim (find xs key) [
    | some _ ↦ (key, value) ∷ erase xs key
    | none ↦ (key, value) ∷ (if length xs == capacity then drop_last xs else xs)
  ]

  unfoldable pub ideal_get : List (ℕ × V) → ℕ → List (ℕ × V) × Option V
  ideal_get xs key = elim (find xs key) [
    | none ↦ (xs, none)
    | some v ↦ ((key, v) ∷ erase xs key, some v)
  ]

  pub splice_front-nodes :
      {s : LruCache V} (ys : List (ℕ × (ℕ × V))) (k i : ℕ) (v : V)
      → Represents s ys
      → find ys k ≡ some (i, v)
      → splice_front s.lru_list i ≡ some ((i, k) ∷ nodes (erase ys k))
  unfolding splice_front
  splice_front-nodes ys k i v r e =
      rw
        (
          r.listed,
          take_node-erase (nodes ys) i k r.nodes_once (find-nodes ys k i v r.nodes_once e),
          erase-nodes ys k i v r.keys_once r.nodes_once e,
        )
        refl

  -- An entry that is moved to the front, under any key that no other entry has, with any value.
  pub moved-Represents :
      (s : LruCache V) (ys cache' : List (ℕ × (ℕ × V))) (k i key : ℕ) (v value : V)
      → Represents s ys
      → find ys k ≡ some (i, v)
      → find (erase ys k) key ≡ none
      → ((u : ℕ) → find cache' u ≡ find ((key, (i, value)) ∷ erase ys k) u)
      → length cache' ≡ suc (length (erase ys k))
      → Once cache'
      → Represents
          (record s { cache = cache'; lru_list = (i, key) ∷ nodes (erase ys k) })
          ((key, (i, value)) ∷ erase ys k)
  unfolding nodes Once find
  moved-Represents s ys cache' k i key v value r e free mapped counted once =
      let others = erase-nodes ys k i v r.keys_once r.nodes_once e in
      let mine = find-nodes ys k i v r.nodes_once e in
      record {
        listed = refl;
        mapped = mapped;
        counted = counted;
        keys_once = (free, erase-Once ys k r.keys_once);
        nodes_once =
            subst (λ l. (find l i ≡ none) × Once l) others
              (ground (arith, find-erase (nodes ys) i i), erase-Once (nodes ys) i r.nodes_once);
        cache_once = once;
        fresh = λ j h.
            subst (λ l. find ((i, key) ∷ l) j ≡ none) others
              (ground (arith, mine, r.fresh j h, find-erase (nodes ys) i j));
        bounded = omega (arith, length-erase ys k (i, v) r.keys_once e, r.bounded);
      }

  pub assign-find :
      (s : LruCache V) (ys : List (ℕ × (ℕ × V))) (k key : ℕ) (b : ℕ × V)
      → Represents s ys
      → find (erase ys k) key ≡ none
      → (u : ℕ) → find (assign (erase s.cache k) key b) u ≡ find ((key, b) ∷ erase ys k) u
  unfolding find assign
  assign-find s ys k key b r free u = ground (
    arith,
    free,
    r.mapped u,
    find-erase (erase s.cache k) key u,
    find-erase s.cache k u,
    find-erase ys k u,
  )

  pub assign-Once :
      (s : LruCache V) (ys : List (ℕ × (ℕ × V))) (k key : ℕ) (e b : ℕ × V)
      → Represents s ys
      → find ys k ≡ some e
      → find (erase ys k) key ≡ none
      → (length (assign (erase s.cache k) key b) ≡ suc (length (erase ys k)))
        × Once (assign (erase s.cache k) key b)
  unfolding Once assign
  assign-Once s ys k key e b r at free =
      let absent : find (erase s.cache k) key ≡ none =
        ground (arith, free, find-erase s.cache k key, find-erase ys k key, r.mapped key) in
      let same = erase_absent (erase s.cache k) key absent in
      rw same (
        omega (
          arith,
          r.counted,
          length-erase s.cache k e r.cache_once (r.mapped k ∙ at),
          length-erase ys k e r.keys_once at,
        ),
        (absent, erase-Once s.cache k r.cache_once),
      )
