-- ===== src/LruCache.antt =====
-- cache.h, class `LRUCache`, with numbers as keys. A call that would move a node that is not in the
-- list, or look at the back of an empty list, returns `none`.
pub mod Recency
pub mod Holds
pub mod Calls
pub mod Tests
use usable_lib.Prelude.{
  ℕ, ◌+◌, Option, none, some, Bool, List, [], ◌∷◌, length, if◌then◌else◌, ◌==◌, ◌>>=◌,
}
use usable_lib.Prelude.Maps.{find, erase, assign}

-- A list iterator is the node it stands at; `lru_list` has the nodes with their keys, front first.
pub record LruCache (V : Type 0) : Type 0 where
  pub capacity : ℕ
  pub cache : List (ℕ × (ℕ × V))
  pub lru_list : List (ℕ × ℕ)
  pub next_node : ℕ

abbrev pub new_cache : {V : Type 0} → ℕ → LruCache V
new_cache capacity = record { capacity = capacity; cache = []; lru_list = []; next_node = 0 }

-- the key of a node, and the list without the node
pub take_node : List (ℕ × ℕ) → ℕ → Option (ℕ × List (ℕ × ℕ))
take_node [] it = none
take_node ((j, k) ∷ l) it =
    let rest = take_node l it in
    if j == it then some (k, l) else (rest >>= λ r. some (r.0, (j, k) ∷ r.1))

-- `lru_list.splice(lru_list.begin(), lru_list, it)`
unfoldable pub splice_front : List (ℕ × ℕ) → ℕ → Option (List (ℕ × ℕ))
splice_front l it = take_node l it >>= λ r. some ((it, r.0) ∷ r.1)

pub last : List (ℕ × ℕ) → Option (ℕ × ℕ)
last [] = none
last (x ∷ []) = some x
last (x ∷ y ∷ l) = last (y ∷ l)

-- `lru_list.front() = key`
abbrev pub set_front : List (ℕ × ℕ) → ℕ → List (ℕ × ℕ)
set_front [] key = []
set_front ((it, k) ∷ l) key = (it, key) ∷ l

module _ {V : Type 0} where
  pub update_entry : LruCache V → ℕ → V → ℕ → Option (LruCache V)
  update_entry s key value it = splice_front s.lru_list it >>= λ l.
      some (record s { cache = assign s.cache key (it, value); lru_list = l })

  pub evict : LruCache V → ℕ → V → Option (LruCache V)
  evict s key value = last s.lru_list >>= λ b. splice_front s.lru_list b.0 >>= λ l.
      some (record s {
        cache = assign (erase s.cache b.1) key (b.0, value);
        lru_list = set_front l key;
      })

  pub push_entry : LruCache V → ℕ → V → Option (LruCache V)
  push_entry s key value = some (record s {
    cache = assign s.cache key (s.next_node, value);
    lru_list = (s.next_node, key) ∷ s.lru_list;
    next_node = s.next_node + 1;
  })

  pub put : LruCache V → ℕ → V → Option (LruCache V)
  put s key value = elim (find s.cache key) [
    | some e ↦ update_entry s key value e.0
    | none ↦ if length s.cache == s.capacity then evict s key value else push_entry s key value
  ]

  -- the cache, and the value when the key is there
  pub get : LruCache V → ℕ → Option (LruCache V × Option V)
  get s key = elim (find s.cache key) [
    | none ↦ some (s, none)
    | some e ↦ splice_front s.lru_list e.0 >>= λ l. some (record s { lru_list = l }, some e.1)
  ]
