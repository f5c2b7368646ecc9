-- ===== src/LruCache/Calls.antt =====
-- What `put` and `get` do to the recently used entries.
use usable_lib.Prelude.{
  ℕ, suc, ◌+◌, ◌≤◌, ◌≡◌, ◌≢◌, ◌∙◌, sym, subst, inl, inr, refl, ap, Option, none, some, true, false,
  List, ◌∷◌, length, ◌==◌, arith, Bool-cases, Option-cases, ℕ_discrete,
}
use usable_lib.LruCache.{LruCache, last, put, get, update_entry, evict, push_entry}
use usable_lib.Prelude.Maps.{find, erase, assign, Once, find-erase, erase_absent, length-erase}
use usable_lib.LruCache.Recency.{
  nodes, contents, drop_last, find-contents-some, find-contents-none, erase-contents,
  length-contents, drop_last-contents, last-nodes, oldest-some, find-oldest, erase-oldest,
}
use usable_lib.LruCache.Holds.{
  Represents, Holds, ideal_put, ideal_get, splice_front-nodes, moved-Represents, assign-find,
  assign-Once,
}

module _ {V : Type 0} where
  used_find :
      (s : LruCache V) (ys : List (ℕ × (ℕ × V))) (key : ℕ) (e : ℕ × V)
      → Represents s ys
      → find ys key ≡ some e
      → (u : ℕ) → find s.cache u ≡ find ((key, e) ∷ erase ys key) u
  unfolding find
  used_find s ys key e r at u = elim (Bool-cases (key == u)) [
    | inl same ↦
        let same_key : key ≡ u = ground arith in
        rw same (r.mapped u ∙ subst (λ k. find ys k ≡ some e) same_key at)
    | inr other ↦ rw (other, find-erase ys key u, other) (r.mapped u)
  ]

  abbrev Found : LruCache V → ℕ → List (ℕ × V) × Option V → Type 0
  Found s key z =
      (t : LruCache V) × (get s key ≡ some (t, z.1)) × Holds t z.0 × (t.capacity ≡ s.capacity)

  get_contents :
      (s : LruCache V) (ys : List (ℕ × (ℕ × V))) (key : ℕ)
      → Represents s ys
      → Found s key (ideal_get (contents ys) key)
  unfolding contents ideal_get get
  get_contents s ys key r = elim (Option-cases (find ys key)) [
    | inl e ↦
        let same : ideal_get (contents ys) key ≡ (contents ys, none) =
          rw (ideal_get, find-contents-none ys key e) refl in
        subst (Found s key) (sym same) (s, rw (get, r.mapped key ∙ e) refl, (ys, r, refl), refl)
    | inr ((i, v), e) ↦
        let same : ideal_get (contents ys) key ≡ ((key, v) ∷ erase (contents ys) key, some v) =
          rw (ideal_get, find-contents-some ys key i v e) refl in
        subst (Found s key) (sym same) (
          record s { lru_list = (i, key) ∷ nodes (erase ys key) },
          rw (get, r.mapped key ∙ e, splice_front-nodes ys key i v r e) refl,
          (
            (key, (i, v)) ∷ erase ys key,
            moved-Represents s ys s.cache key i key v v r e (ground (arith, find-erase ys key key))
                (used_find s ys key (i, v) r e)
                (omega (arith, r.counted, length-erase ys key (i, v) r.keys_once e)) r.cache_once,
            ap (◌∷◌ (key, v)) (erase-contents ys key),
          ),
          refl,
        )
  ]

  -- On a cache that holds `xs`, the last used first, `get` gives what the list of pairs gives: the value
  -- under the key, whose pair becomes the first, or nothing, without a change.
  pub get-ideal_get :
      (s : LruCache V) (xs : List (ℕ × V)) (key : ℕ)
      → Holds s xs
      → (t : LruCache V) × (get s key ≡ some (t, (ideal_get xs key).1))
        × Holds t (ideal_get xs key).0
        × (t.capacity ≡ s.capacity)
  get-ideal_get s xs key (ys, r, same) =
      subst
        (λ (zs : List (ℕ × V)).
          (t : LruCache V) × (get s key ≡ some (t, (ideal_get zs key).1))
          × Holds t (ideal_get zs key).0
          × (t.capacity ≡ s.capacity))
        same (get_contents s ys key r)

  abbrev Stored : LruCache V → ℕ → V → List (ℕ × V) → Type 0
  Stored s key value zs =
      (t : LruCache V) × (put s key value ≡ some t) × Holds t zs × (t.capacity ≡ s.capacity)

  put_present :
      (s : LruCache V) (ys : List (ℕ × (ℕ × V))) (key i : ℕ) (v value : V)
      → Represents s ys
      → find ys key ≡ some (i, v)
      → Stored s key value (ideal_put s.capacity (contents ys) key value)
  unfolding contents assign ideal_put put update_entry
  put_present s ys key i v value r e =
      let free : find (erase ys key) key ≡ none = ground (arith, find-erase ys key key) in
      let free' : find (erase s.cache key) key ≡ none =
        ground (arith, find-erase s.cache key key) in
      let once = assign-Once s ys key key (i, v) (i, value) r e free in
      let new =
        moved-Represents s ys _ key i key v value r e free
          (assign-find s ys key key (i, value) r free) once.0 once.1 in
      let same : ideal_put s.capacity (contents ys) key value
          ≡ (key, value) ∷ erase (contents ys) key =
        rw (ideal_put, find-contents-some ys key i v e) refl in
      subst (Stored s key value) (sym same) (
        record s {
          cache = assign s.cache key (i, value);
          lru_list = (i, key) ∷ nodes (erase ys key);
        },
        rw (put, r.mapped key ∙ e, update_entry, splice_front-nodes ys key i v r e) refl,
        (
          (key, (i, value)) ∷ erase ys key,
          subst
              (λ (c : List (ℕ × (ℕ × V))).
                Represents
                  (record s {
                    cache = (key, (i, value)) ∷ c;
                    lru_list = (i, key) ∷ nodes (erase ys key);
                  })
                  ((key, (i, value)) ∷ erase ys key))
              (erase_absent (erase s.cache key) key free') new,
          ap (◌∷◌ (key, value)) (erase-contents ys key),
        ),
        refl,
      )

  put_full :
      (s : LruCache V) (ys : List (ℕ × (ℕ × V))) (key : ℕ) (value : V)
      → 1 ≤ s.capacity
      → length ys ≡ s.capacity
      → Represents s ys
      → find ys key ≡ none
      → Stored s key value (ideal_put s.capacity (contents ys) key value)
  unfolding contents ideal_put put evict
  put_full s ys key value room full r e =
      let (k, (i, v), o) = oldest-some ys (omega arith) in
      let at = find-oldest ys k (i, v) r.keys_once o in
      let free : find (erase ys k) key ≡ none = ground (arith, e, find-erase ys k key) in
      let once = assign-Once s ys k key (i, v) (i, value) r at free in
      let count : (length s.cache == s.capacity) ≡ true = ground (arith, r.counted) in
      let count' : (length (contents ys) == s.capacity) ≡ true =
        ground (arith, length-contents ys) in
      let same : ideal_put s.capacity (contents ys) key value
          ≡ (key, value) ∷ drop_last (contents ys) =
        rw (ideal_put, find-contents-none ys key e, count') refl in
      let bottom : last s.lru_list ≡ some (i, k) = rw r.listed (last-nodes ys k i v o) in
      subst (Stored s key value) (sym same) (
        record s {
          cache = assign (erase s.cache k) key (i, value);
          lru_list = (i, key) ∷ nodes (erase ys k);
        },
        rw (put, r.mapped key ∙ e, count, evict, bottom, splice_front-nodes ys k i v r at) refl,
        (
          (key, (i, value)) ∷ erase ys k,
          moved-Represents s ys _ k i key v value r at free
              (assign-find s ys k key (i, value) r free) once.0 once.1,
          ap (◌∷◌ (key, value))
              (ap contents (erase-oldest ys k (i, v) r.keys_once o) ∙ drop_last-contents ys),
        ),
        refl,
      )

  put_new :
      (s : LruCache V) (ys : List (ℕ × (ℕ × V))) (key : ℕ) (value : V)
      → length ys ≢ s.capacity
      → Represents s ys
      → find ys key ≡ none
      → Stored s key value (ideal_put s.capacity (contents ys) key value)
  unfolding contents nodes Once assign find ideal_put put push_entry
  put_new s ys key value other r e =
      let count : (length s.cache == s.capacity) ≡ false = ground (arith, other, r.counted) in
      let count' : (length (contents ys) == s.capacity) ≡ false =
        ground (arith, other, length-contents ys) in
      let same : ideal_put s.capacity (contents ys) key value ≡ (key, value) ∷ contents ys =
        rw (ideal_put, find-contents-none ys key e, count') refl in
      let absent = r.mapped key ∙ e in
      let kept = erase_absent s.cache key absent in
      subst (Stored s key value) (sym same) (
        record s {
          cache = assign s.cache key (s.next_node, value);
          lru_list = (s.next_node, key) ∷ s.lru_list;
          next_node = s.next_node + 1;
        },
        rw (put, absent, count, push_entry) refl,
        (
          (key, (s.next_node, value)) ∷ ys,
          record {
            listed = ap (◌∷◌ (s.next_node, key)) r.listed;
            mapped = λ u. rw kept (ground (arith, r.mapped u));
            counted = rw kept (ap suc r.counted);
            keys_once = (e, r.keys_once);
            nodes_once = (r.fresh s.next_node (omega arith), r.nodes_once);
            cache_once = rw kept (absent, r.cache_once);
            fresh = λ i h. ground (arith, r.fresh i);
            bounded = omega (arith, other, r.bounded);
          },
          refl,
        ),
        refl,
      )

  -- On a cache with room for at least one pair that holds `xs`, the last used first, `put` returns and does
  -- what the list of pairs does: the pair becomes the first, in place of the one under its key, or of the
  -- last one when there are as many as the capacity.
  pub put-ideal_put :
      (s : LruCache V) (xs : List (ℕ × V)) (key : ℕ) (value : V)
      → 1 ≤ s.capacity
      → Holds s xs
      → (t : LruCache V) × (put s key value ≡ some t)
        × Holds t (ideal_put s.capacity xs key value)
        × (t.capacity ≡ s.capacity)
  put-ideal_put s xs key value room (ys, r, same) =
      subst (λ (zs : List (ℕ × V)). Stored s key value (ideal_put s.capacity zs key value)) same
        (elim (Option-cases (find ys key)) [
          | inr ((i, v), e) ↦ put_present s ys key i v value r e
          | inl e ↦ elim (ℕ_discrete (length ys) s.capacity) [
            | yes full ↦ put_full s ys key value room full r e
            | no other ↦ put_new s ys key value other r e
          ]
        ])
