-- ===== src/TcQueue/Promises.antt =====
-- What `process_batch` gives to the promises of a batch.
use usable_lib.Prelude.{
  ℕ, ◌+◌, ◌≤◌, ◌≡◌, ◌≢◌, inl, inr, refl, sym, ◌∙◌, ap, Bool, true, false, Option, none, some, List,
  [], ◌∷◌, length, arith, if◌then◌else◌, ◌==◌, subst, Bool-cases,
}
use usable_lib.Prelude.Maps.{find, Once}
use usable_lib.Threads.{update}
use usable_lib.TcQueue.Batch.{
  insert, insert_found, map_uids, Fault, set_values, Leader, finish, process_batch, new_leader,
}

-- the place of the first `u`, from place `i` on
unfoldable pub index_of : List ℕ → ℕ → ℕ → Option ℕ
index_of [] i u = none
index_of (v ∷ us) i u = if v == u then some i else index_of us (i + 1) u

or_else : {B : Type 0} → Option B → Option B → Option B
or_else (some a) o = some a
or_else none o = o

or_else-none : {B : Type 0} (o : Option B) → or_else o none ≡ o
unfolding or_else
or_else-none none = refl
or_else-none (some a) = refl

or_else_chain :
    (o : Option ℕ) (b : Bool) (i : ℕ) (p : Option ℕ)
    → or_else (or_else o (if b then some i else none)) p ≡ or_else o (if b then some i else p)
unfolding or_else
or_else_chain none true i p = refl
or_else_chain none false i p = refl
or_else_chain (some a) b i p = refl

find-insert_found :
    (o : Option ℕ) (m : List (ℕ × ℕ)) (u i v : ℕ)
    → find m u ≡ o
    → find (insert_found o m u i) v ≡ or_else (find m v) (if u == v then some i else none)
unfolding find or_else
find-insert_found none m u i v e = elim (Bool-cases (u == v)) [
  | inl same ↦
      let f : find m v ≡ none = subst (λ k. find m k ≡ none) (ground arith) e in rw (same, f) refl
  | inr other ↦ rw other (sym (or_else-none (find m v)))
]
find-insert_found (some j) m u i v e = elim (Bool-cases (u == v)) [
  | inl same ↦
      let f : find m v ≡ some j = subst (λ k. find m k ≡ some j) (ground arith) e in rw f refl
  | inr other ↦ rw other (sym (or_else-none (find m v)))
]

find-insert :
    (m : List (ℕ × ℕ)) (u i v : ℕ)
    → find (insert m u i) v ≡ or_else (find m v) (if u == v then some i else none)
unfolding insert
find-insert m u i v = find-insert_found (find m u) m u i v refl

find-map_uids :
    (us : List ℕ) (i : ℕ) (m : List (ℕ × ℕ)) (u : ℕ)
    → find (map_uids us i m) u ≡ or_else (find m u) (index_of us i u)
unfolding map_uids index_of or_else
find-map_uids [] i m u = ground arith
find-map_uids (v ∷ us) i m u =
    rw (find-map_uids us (i + 1) (insert m v i) u, find-insert m v i u)
      (or_else_chain (find m u) (v == u) i (index_of us (i + 1) u))

-- `P` holds of each key
unfoldable pub Keys : {R : Type 0} → (ℕ → Type 0) → List (ℕ × R) → Type 0
Keys P [] = Unit {0}
Keys P ((u, r) ∷ b) = P u × Keys P b

-- The promises `pro'` are `pro` with the results of `b` at the places of their keys.
record Given {R : Type 0} (uid_map : List (ℕ × ℕ)) (b : List (ℕ × R)) (pro pro' : ℕ → Option R)
    : Type 0 where
  at_places : (u k : ℕ) → find uid_map u ≡ some k → pro' k ≡ or_else (find b u) (pro k)
  elsewhere : (k : ℕ) → ((u : ℕ) → find uid_map u ≢ some k) → pro' k ≡ pro k

cond_none :
    {B : Type 0} (c : Bool) (o : Option B) (a : B)
    → (if c then some a else o) ≡ none
    → (c ≡ false) × (o ≡ none)
cond_none true o a e = ground (arith, e)
cond_none false o a e = (refl, e)

Keys-rest :
    {R : Type 0} {P Q : ℕ → Type 0} (b : List (ℕ × R)) (u : ℕ)
    → find b u ≡ none
    → ((v : ℕ) → v ≢ u → P v → Q v)
    → Keys P b
    → Keys Q b
unfolding Keys find
Keys-rest [] u e f keys = tt
Keys-rest ((v, r) ∷ b) u e f keys =
    let (other, e') = cond_none (v == u) (find b u) r e in
    (f v (ground arith) keys.0, Keys-rest b u e' f keys.1)

set_values-next :
    {R : Type 0} (uid_map : List (ℕ × ℕ)) (b : List (ℕ × R)) (pro : ℕ → Option R) (u j : ℕ) (r : R)
    → find uid_map u ≡ some j
    → pro j ≡ none
    → set_values uid_map ((u, r) ∷ b) pro ≡ set_values uid_map b (update pro j (some r))
unfolding set_values
set_values-next uid_map b pro u j r e free = rw (set_values, e, free) refl

==_ne : (u v : ℕ) → (u == v) ≡ false → u ≢ v
==_ne u v h e = ground arith

update_other : {B : Type 0} (pro : ℕ → B) (j : ℕ) (a : B) (k : ℕ) → j ≢ k → update pro j a k ≡ pro k
update_other pro j a k h = ground (arith, h)

-- What the first result gives, the others leave.
Given-next :
    {R : Type 0} (uid_map : List (ℕ × ℕ)) (b : List (ℕ × R)) (pro pro' : ℕ → Option R) (u j : ℕ)
    (r : R)
    → ((u v k : ℕ) → find uid_map u ≡ some k → find uid_map v ≡ some k → u ≡ v)
    → find uid_map u ≡ some j
    → find b u ≡ none
    → Given uid_map b (update pro j (some r)) pro'
    → Given uid_map ((u, r) ∷ b) pro pro'
unfolding find or_else
Given-next uid_map b pro pro' u j r inj e once g = record {
  at_places = λ v k f. elim (Bool-cases (u == v)) [
    | inl same ↦
        let u-v : u ≡ v = ground arith in
        let fu : find uid_map u ≡ some k = subst (λ w. find uid_map w ≡ some k) (sym u-v) f in
        let j-k : j ≡ k = ground (arith, sym e ∙ fu) in
        rw (same, g.at_places v k f, sym u-v, once) (ground (arith, j-k))
    | inr other ↦ rw other (
        g.at_places v k f
        ∙ ap (or_else (find b v)) (
            update_other pro j (some r) k
              (λ j-k. absurd (==_ne u v other (inj u v k (e ∙ ap some j-k) f)))))
  ];
  elsewhere = λ k no_uid.
      g.elsewhere k no_uid ∙ update_other pro j (some r) k (λ j-k. no_uid u (e ∙ ap some j-k));
}

set_values_lem :
    {R : Type 0} (uid_map : List (ℕ × ℕ)) (b : List (ℕ × R)) (pro : ℕ → Option R)
    → ((u v k : ℕ) → find uid_map u ≡ some k → find uid_map v ≡ some k → u ≡ v)
    → Once b
    → Keys (λ u. (k : ℕ) × (find uid_map u ≡ some k) × (pro k ≡ none)) b
    → ((set_values uid_map b pro).1 ≡ none) × Given uid_map b pro (set_values uid_map b pro).0
unfolding set_values find or_else Once Keys
set_values_lem uid_map [] pro inj once keys =
    (refl, record { at_places = λ u k e. refl; elsewhere = λ k no_uid. refl })
set_values_lem uid_map ((u, r) ∷ b) pro inj once keys =
    let (j, e, free) = keys.0 in
    rw (set_values-next uid_map b pro u j r e free) (
      let rest = set_values_lem uid_map b (update pro j (some r)) inj once.1 (
        Keys-rest b u once.0
          (λ v other known. (
            known.0,
            known.1,
            update_other pro j (some r) known.0
                  (λ j-k. other (inj v u j (known.1 ∙ ap some (sym j-k)) e))
                ∙ known.2,
          ))
          keys.1) in
      (rest.0, Given-next uid_map b pro _ u j r inj e once.0 rest.1))

index_of-ge : (us : List ℕ) (i u k : ℕ) → index_of us i u ≡ some k → i ≤ k
unfolding index_of
index_of-ge [] i u k e = ground (arith, e)
index_of-ge (v ∷ us) i u k e = elim (Bool-cases (v == u)) [
  | inl same ↦ ground (arith, e, same)
  | inr other ↦ ground (arith, e, other, index_of-ge us (i + 1) u k)
]

-- One place is the first of one UID.
index_of_inj :
    (us : List ℕ) (i u v k : ℕ) → index_of us i u ≡ some k → index_of us i v ≡ some k → u ≡ v
unfolding index_of
index_of_inj [] i u v k e f = ground (arith, e)
index_of_inj (w ∷ us) i u v k e f = ground (
  arith,
  e,
  f,
  index_of-ge us (i + 1) u k,
  index_of-ge us (i + 1) v k,
  index_of_inj us (i + 1) u v k,
)

Keys-with :
    {R : Type 0} (us : List ℕ) (m : List (ℕ × ℕ)) (b : List (ℕ × R))
    → ((u : ℕ) → find m u ≡ index_of us 0 u)
    → Keys (λ u. (k : ℕ) × (index_of us 0 u ≡ some k)) b
    → Keys (λ u. (k : ℕ) × (find m u ≡ some k) × (◌≡◌ {A = Option R} none none)) b
unfolding Keys
Keys-with us m [] places keys = tt
Keys-with us m ((u, r) ∷ b) places keys =
    ((keys.0.0, places u ∙ keys.0.1, refl), Keys-with _ m b places keys.1)

finish-none :
    {R : Type 0} (s : Leader R) (x : (ℕ → Option R) × Option Fault)
    → x.1 ≡ none
    → finish s x ≡ (record s { pro_queue = x.0; processed = true }, none)
finish-none s (pro, none) e = refl
finish-none s (pro, some f) e = ground (arith, e)

-- The results a hook may return for the UIDs `us`: none but theirs, and one for each at most.
pub record Answers {R : Type 0} (us : List ℕ) (b : List (ℕ × R)) : Type 0 where
  pub once : Once b
  pub known : Keys (λ u. (k : ℕ) × (index_of us 0 u ≡ some k)) b

-- When the hook answers as it was asked, `process_batch` throws nothing, the promise at the first place
-- of each UID of the batch gets the result under that UID, and every other promise stays without one.
pub process_batch-gives :
    {R : Type 0} (hook : ℕ → List (ℕ × R)) (us : List ℕ) (b : List (ℕ × R))
    → hook (length (map_uids us 0 [])) ≡ b
    → length b ≡ length (map_uids us 0 [])
    → Answers us b
    → ((process_batch hook (new_leader us)).1 ≡ none)
      × ((u k : ℕ)
          → index_of us 0 u ≡ some k
          → (process_batch hook (new_leader us)).0.pro_queue k ≡ find b u)
      × ((k : ℕ)
          → ((u : ℕ) → index_of us 0 u ≢ some k)
          → (process_batch hook (new_leader us)).0.pro_queue k ≡ none)
unfolding process_batch new_leader find or_else
process_batch-gives hook us b asked size answers =
    let m = map_uids us 0 [] in
    let places : (u : ℕ) → find m u ≡ index_of us 0 u = λ u. find-map_uids us 0 [] u in
    let v =
      set_values_lem m b (λ k. none)
        (λ u v k e f. index_of_inj us 0 u v k (sym (places u) ∙ e) (sym (places v) ∙ f))
        answers.once (Keys-with us m b places answers.known) in
    let same : (length b == length m) ≡ true = ground (arith, size) in
    rw (asked, same, finish-none (new_leader us) (set_values m b (λ k. none)) v.0)
      (
        refl,
        λ u k e. v.1.at_places u k (places u ∙ e) ∙ or_else-none (find b u),
        λ k none_at. v.1.elsewhere k (λ u e. none_at u (sym (places u) ∙ e)),
      )
