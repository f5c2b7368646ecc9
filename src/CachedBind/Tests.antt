-- ===== src/CachedBind/Tests.antt =====
-- Calls of a function through its cache.
use usable_lib.Prelude.{ℕ, ◌+◌, ◌≡◌, refl, [], ◌∷◌, map}
use usable_lib.CachedBind.{CachedBind, call_all, call_all-map, Logged}
use usable_lib.Prelude.Maps.{Once, find}

abbrev double : ℕ → ℕ
double n = n + n

-- a move that leaves the value 0
abbrev emptied : ℕ → ℕ
emptied n = 0

abbrev called_once : CachedBind ℕ
called_once = record { cache_map = (3, 6) ∷ []; calls = 3 ∷ [] }

called_once-Logged : Logged double emptied called_once
unfolding Once find
called_once-Logged = (refl, (refl, tt))

call_all-map_example :
    ((call_all double emptied called_once (3 ∷ 4 ∷ 4 ∷ [])).1 ≡ map double (3 ∷ 4 ∷ 4 ∷ []))
    × Logged double emptied (call_all double emptied called_once (3 ∷ 4 ∷ 4 ∷ [])).0
call_all-map_example = call_all-map double emptied called_once (3 ∷ 4 ∷ 4 ∷ []) called_once-Logged
