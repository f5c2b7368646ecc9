-- ===== src/CachedBind.antt =====
-- cache.h, class `cached_bind_helper`: a function with its results kept. The tuple of the arguments is a
-- number; the function is a parameter, and so is what it leaves of the arguments, which are moved into it.
-- `calls` is the log of what it was called with.
pub mod Tests
use usable_lib.Prelude.{
  ℕ, zero, suc, replicate, subst, ◌≡◌, ◌∙◌, refl, ap, ap₂, sym, Option, none, some, List, [], ◌∷◌,
  map, arith, Bool-cases, Option-cases, inl, inr, if◌then◌else◌, ◌==◌,
}
use usable_lib.Prelude.Maps.{find, erase, assign, Once, find-erase, erase_absent}

pub record CachedBind (R : Type 0) : Type 0 where
  pub cache_map : List (ℕ × R)
  pub calls : List ℕ

module _ {R : Type 0} (fn : ℕ → R) (moved : ℕ → ℕ) where
  -- `operator()`: the result, and what is left of the arguments of the caller
  pub call : CachedBind R → ℕ → CachedBind R × R × ℕ
  call s tu = elim (find s.cache_map tu) [
    | some r ↦ (s, r, tu)
    | none ↦ (
      record s { cache_map = assign s.cache_map tu (fn tu); calls = tu ∷ s.calls },
      fn tu,
      moved tu,
    )
  ]

  -- calls one after another, each with arguments of its own
  pub call_all : CachedBind R → List ℕ → CachedBind R × List R
  call_all s [] = (s, [])
  call_all s (tu ∷ tus) =
      let one = call s tu in let rest = call_all one.0 tus in (rest.0, one.1 ∷ rest.1)

  -- calls of what `cached_bind` returns, which keeps the arguments for all of them
  pub call_bound : CachedBind R → ℕ → ℕ → CachedBind R × List R
  call_bound s tu zero = (s, [])
  call_bound s tu (suc n) =
      let one = call s tu in let rest = call_bound one.0 one.2 n in (rest.0, one.1 ∷ rest.1)

  -- The map is the log with the function's results, and no call was made twice.
  abbrev pub Logged : CachedBind R → Type 0
  Logged s = (s.cache_map ≡ map (λ tu. (tu, fn tu)) s.calls) × Once s.cache_map

  find_logged :
      (tus : List ℕ) (tu : ℕ) (r : R) → find (map (λ u. (u, fn u)) tus) tu ≡ some r → r ≡ fn tu
  unfolding find
  find_logged [] tu r e = ground (arith, e)
  find_logged (u ∷ tus) tu r e = ground (arith, e, find_logged tus tu r)

  call-Logged :
      (s : CachedBind R) (tu : ℕ) → Logged s → Logged (call s tu).0 × ((call s tu).1 ≡ fn tu)
  unfolding call assign Once
  call-Logged s tu (listed, once) = elim (Option-cases (find s.cache_map tu)) [
    | inl e ↦
        let same = erase_absent s.cache_map tu e in
        rw (call, e) ((rw same (ap (◌∷◌ (tu, fn tu)) listed), rw same (e, once)), refl)
    | inr (r, e) ↦
        rw (call, e)
          ((listed, once), find_logged s.calls tu r (ap (λ m. find m tu) (sym listed) ∙ e))
  ]

  call-left : (s : CachedBind R) (tu : ℕ) → find s.cache_map tu ≡ none → (call s tu).2 ≡ moved tu
  unfolding call
  call-left s tu e = rw (call, e) refl

  call-kept : (s : CachedBind R) (tu : ℕ) → moved tu ≡ tu → (call s tu).2 ≡ tu
  unfolding call
  call-kept s tu same = elim (Option-cases (find s.cache_map tu)) [
    | inl e ↦ rw (call, e) same
    | inr (r, e) ↦ rw (call, e) refl
  ]

  -- Calls of the helper, each with arguments of its own, give the function's results, from a cache that
  -- is the log of the calls of the function, without an argument twice, to one that is.
  pub call_all-map :
      (s : CachedBind R) (tus : List ℕ)
      → Logged s
      → ((call_all s tus).1 ≡ map fn tus) × Logged (call_all s tus).0
  unfolding call_all
  call_all-map s [] l = (refl, l)
  call_all-map s (tu ∷ tus) l =
      let one = call-Logged s tu l in
      let rest = call_all-map (call s tu).0 tus one.0 in (ap₂ (λ r rs. r ∷ rs) one.1 rest.0, rest.1)

  -- Calls with kept arguments that the function does not change when they are moved into it, all give the
  -- function's result.
  call_bound-replicate :
      (s : CachedBind R) (tu n : ℕ)
      → Logged s
      → moved tu ≡ tu
      → ((call_bound s tu n).1 ≡ replicate n (fn tu)) × Logged (call_bound s tu n).0
  unfolding call_bound
  call_bound-replicate s tu zero l same = (refl, l)
  call_bound-replicate s tu (suc n) l same =
      let one = call-Logged s tu l in
      let rest =
        subst
          (λ left.
            ((call_bound (call s tu).0 left n).1 ≡ replicate n (fn tu))
            × Logged (call_bound (call s tu).0 left n).0)
          (sym (call-kept s tu same)) (call_bound-replicate (call s tu).0 tu n one.0 same) in
      (ap₂ (λ r rs. r ∷ rs) one.1 rest.0, rest.1)

  -- With kept arguments that are not in the cache, the second call gives the function's result of what the
  -- first one left of them.
  call_bound_twice :
      (s : CachedBind R) (tu : ℕ)
      → Logged s
      → find s.cache_map tu ≡ none
      → (call_bound s tu 2).1 ≡ fn tu ∷ fn (moved tu) ∷ []
  unfolding call_bound
  call_bound_twice s tu l e =
      let one = call-Logged s tu l in
      let two =
        subst (λ left. (call (call s tu).0 left).1 ≡ fn (moved tu)) (sym (call-left s tu e))
          (call-Logged (call s tu).0 (moved tu) one.0).1 in
      ap₂ (λ r q. r ∷ q ∷ []) one.1 two
