-- ===== src/LruCache/Tests.antt =====
-- A cache with two pairs.
use usable_lib.Prelude.{ℕ, ◌≡◌, refl, some, List, [], ◌∷◌, arith}
use usable_lib.LruCache.{LruCache, put, get}
use usable_lib.Prelude.Maps.{Once, find}
use usable_lib.LruCache.Recency.{nodes, contents}
use usable_lib.LruCache.Holds.{Holds, ideal_put, ideal_get}
use usable_lib.LruCache.Calls.{put-ideal_put, get-ideal_get}

abbrev entries : List (ℕ × (ℕ × ℕ))
entries = (5, (1, 50)) ∷ (4, (0, 40)) ∷ []

abbrev two_pairs : LruCache ℕ
two_pairs = record { capacity = 2; cache = entries; lru_list = (1, 5) ∷ (0, 4) ∷ []; next_node = 2 }

two_pairs-Holds : Holds two_pairs ((5, 50) ∷ (4, 40) ∷ [])
unfolding nodes contents Once find
two_pairs-Holds = (
  entries,
  record {
    listed = refl;
    mapped = λ k. refl;
    counted = refl;
    keys_once = (refl, (refl, tt));
    nodes_once = (refl, (refl, tt));
    cache_once = (refl, (refl, tt));
    fresh = λ i h. ground arith;
    bounded = omega arith;
  },
  refl,
)

put-ideal_put_example :
    (t : LruCache ℕ) × (put two_pairs 6 60 ≡ some t)
    × Holds t (ideal_put 2 ((5, 50) ∷ (4, 40) ∷ []) 6 60)
    × (t.capacity ≡ 2)
put-ideal_put_example =
    put-ideal_put two_pairs ((5, 50) ∷ (4, 40) ∷ []) 6 60 (omega arith) two_pairs-Holds

get-ideal_get_example :
    (t : LruCache ℕ) × (get two_pairs 4 ≡ some (t, (ideal_get ((5, 50) ∷ (4, 40) ∷ []) 4).1))
    × Holds t (ideal_get ((5, 50) ∷ (4, 40) ∷ []) 4).0
    × (t.capacity ≡ 2)
get-ideal_get_example = get-ideal_get two_pairs ((5, 50) ∷ (4, 40) ∷ []) 4 two_pairs-Holds
