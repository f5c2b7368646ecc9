-- ===== src/ThreadLocal/Values.antt =====
-- Each thread has a value of its own.
use usable_lib.Prelude.{
  ℕ, ◌<◌, ◌≡◌, ◌≢◌, ◌∙◌, inl, inr, refl, sym, ap, Option, none, some, arith, Option-cases,
}
use usable_lib.Threads.{update}
use usable_lib.ThreadLocal.{ThreadLocal, store_new, set, get}

update_same : {A : Type 0} (f : ℕ → A) (i : ℕ) (a : A) → update f i a i ≡ a
update_same f i a = ground arith

update_other : {A : Type 0} (f : ℕ → A) (i : ℕ) (a : A) (j : ℕ) → i ≢ j → update f i a j ≡ f j
update_other f i a j h = ground (arith, h)

module _ {T : Type 0} where
  -- the value of a thread
  abbrev pub value_at : (ℕ → T) → Option ℕ → Option T
  value_at values none = none
  value_at values (some p) = some (values p)

  abbrev pub value : ThreadLocal T → ℕ → Option T
  value s thread = value_at s.values (s.pointers thread)

  -- No two threads have the same pointer, and no thread has one that is still to be given.
  pub record IsOwn (s : ThreadLocal T) : Type 0 where
    pub apart : (i j p : ℕ) → s.pointers i ≡ some p → s.pointers j ≡ some p → i ≡ j
    pub given : (i p : ℕ) → s.pointers i ≡ some p → p < s.next_pointer

  -- `t` differs from `s` in the value of one thread, which is `x`, where `p` points.
  pub record Changed (s t : ThreadLocal T) (thread p : ℕ) (x : T) : Type 0 where
    pub own : IsOwn t
    pub mine : t.pointers thread ≡ some p
    pub pointed : t.values p ≡ x
    pub others : (other : ℕ) → other ≢ thread → value t other ≡ value s other

  value_kept :
      (values : ℕ → T) (p : ℕ) (x : T) (o : Option ℕ)
      → ((q : ℕ) → o ≡ some q → p ≢ q)
      → value_at (update values p x) o ≡ value_at values o
  value_kept values p x none h = refl
  value_kept values p x (some q) h = ap some (update_other values p x q (h q refl))

  store_new-Changed :
      (s : ThreadLocal T) (thread : ℕ) (x : T)
      → IsOwn s
      → s.pointers thread ≡ none
      → Changed s (store_new s thread x) thread s.next_pointer x
  store_new-Changed s thread x own free = record {
    own = record {
      apart = λ i j p e f. ground (arith, e, f, own.apart i j p, own.given i p, own.given j p);
      given = λ i p e. ground (arith, e, own.given i p);
    };
    mine = update_same s.pointers thread (some s.next_pointer);
    pointed = update_same s.values s.next_pointer x;
    others = λ other h.
        ap (value_at (update s.values s.next_pointer x))
          (update_other s.pointers thread (some s.next_pointer) other (λ e. h (sym e)))
        ∙ value_kept s.values s.next_pointer x (s.pointers other)
            (λ q e same. absurd (omega (arith, own.given other q e, same)));
  }

  set_value-Changed :
      (s : ThreadLocal T) (thread p : ℕ) (x : T)
      → IsOwn s
      → s.pointers thread ≡ some p
      → Changed s (record s { values = update s.values p x }) thread p x
  set_value-Changed s thread p x own at = record {
    own = record { apart = own.apart; given = own.given };
    mine = at;
    pointed = update_same s.values p x;
    others = λ other h.
        value_kept s.values p x (s.pointers other)
          (λ q e same. h (own.apart other thread p (e ∙ ap some (sym same)) at));
  }

  -- When no two threads share a pointer, `set` makes the value of its thread the new one, returns where it
  -- is, and changes the value of no other thread, and still no two threads share a pointer.
  pub set-Changed :
      (s : ThreadLocal T) (thread : ℕ) (x : T)
      → IsOwn s
      → Changed s (set s thread x).0 thread (set s thread x).1 x
  unfolding set
  set-Changed s thread x own = elim (Option-cases (s.pointers thread)) [
    | inl e ↦ rw (set, e) (store_new-Changed s thread x own e)
    | inr (p, e) ↦ rw (set, e) (set_value-Changed s thread p x own e)
  ]

  -- the value that `get` is to find
  abbrev pub value_or : T → Option T → T
  value_or initial none = initial
  value_or initial (some x) = x

  -- When no two threads share a pointer, `get` returns where the value of its thread is, a new initial one
  -- when it has none, and changes the value of no other thread.
  pub get-Changed :
      (initial : T) (s : ThreadLocal T) (thread : ℕ)
      → IsOwn s
      → Changed s
          (get initial s thread).0
          thread
          (get initial s thread).1
          (value_or initial (value s thread))
  unfolding get
  get-Changed initial s thread own = elim (Option-cases (s.pointers thread)) [
    | inl e ↦ rw (get, e) (store_new-Changed s thread initial own e)
    | inr (p, e) ↦
        rw (get, e) (record { own = own; mine = e; pointed = refl; others = λ other h. refl })
  ]
