-- ===== src/ClQueue/Represents.antt =====
-- When an idle `CLQueue` holds a list of objects, oldest first.
use usable_lib.Prelude.{
  ℕ, ◌+◌, ◌*◌, ◌^◌, ◌≤◌, ◌<◌, ◌≡◌, ap, ◌∙◌, Bool, List, [], ◌∷◌, ◌++◌, arith, has_bit, length,
  length-append, if◌then◌else◌, ◌==◌, Option, none, some,
}
use usable_lib.ConQueue.Flags.{sp_enq, mp_enq, sc_deq, mc_deq}
use usable_lib.ClQueue.Layout.{Layout, count, count-le, slots_apart}
use usable_lib.ClQueue.{Line, ClQueue, get_li, get_si, next16}
use usable_lib.ClQueue.Turns.{Turn, Turn-same, Over, count-next}

module _ {A : Type 0} where
  -- From position `p` on the slots hold the objects `xs`.
  unfoldable pub Holds : (ℕ → ℕ) → (ℕ → ℕ) → (ℕ → ℕ → Option A) → ℕ → List A → Type 0
  Holds li si slots p [] = Unit
  Holds li si slots p (x ∷ xs) = (slots (li p) (si p) ≡ some x) × (Holds li si slots (p + 1) xs)

  -- one slot written
  abbrev pub put : (ℕ → ℕ → Option A) → ℕ → ℕ → Option A → ℕ → ℕ → Option A
  put slots l j cell l' j' = if l == l' then if j == j' then cell else slots l' j' else slots l' j'

  module _ {s lines : ℕ} {li si : ℕ → ℕ} (g : Layout s lines li si)
      (slots slots' : ℕ → ℕ → Option A) where
    -- A write to the slot of a position less than a round away does not touch the window.
    pub Holds-put_above :
        (n : ℕ) (cell : Option A)
        → ((l j : ℕ) → slots' l j ≡ put slots (li n) (si n) cell l j)
        → (xs : List A) (p : ℕ) → p + length xs ≤ n
        → n < p + s * lines
        → Holds li si slots p xs
        → Holds li si slots' p xs
    unfolding Holds
    Holds-put_above n cell e [] p h k held = tt
    Holds-put_above n cell e (x ∷ xs) p h k held = (
      ground (arith, e (li p) (si p), slots_apart g p n (omega arith) k),
      Holds-put_above n cell e xs (p + 1) (omega arith) (omega arith) held.1,
    )

    pub Holds-put_below :
        (n : ℕ) (cell : Option A)
        → ((l j : ℕ) → slots' l j ≡ put slots (li n) (si n) cell l j)
        → (xs : List A) (p : ℕ) → n < p
        → p + length xs ≤ n + s * lines
        → Holds li si slots p xs
        → Holds li si slots' p xs
    unfolding Holds
    Holds-put_below n cell e [] p h k held = tt
    Holds-put_below n cell e (x ∷ xs) p h k held = (
      ground (arith, e (li p) (si p), slots_apart g n p h (omega arith)),
      Holds-put_below n cell e xs (p + 1) (omega arith) (omega arith) held.1,
    )

    -- A write just past the window extends it.
    pub Holds-snoc :
        (n : ℕ) (x : A)
        → ((l j : ℕ) → slots' l j ≡ put slots (li n) (si n) (some x) l j)
        → (xs : List A) (p : ℕ) → n ≡ p + length xs
        → n < p + s * lines
        → Holds li si slots p xs
        → Holds li si slots' p (xs ++ x ∷ [])
    unfolding Holds
    Holds-snoc n x e [] p h k held =
        let here : n ≡ p = omega arith in
        (ground (arith, e (li p) (si p), ap li here, ap si here), tt)
    Holds-snoc n x e (y ∷ xs) p h k held = (
      ground (arith, e (li p) (si p), slots_apart g p n (omega arith) k),
      Holds-snoc n x e xs (p + 1) (omega arith) (omega arith) held.1,
    )

module _ {A : Type 0} (s : ℕ) (block : Bool) where
  pub record Represents (q : ClQueue A) (xs : List A) : Type 0 where
    pub layout : Layout s q.max_line (get_li s block q) (get_si s block q)
    pub capacity : q.max_size ≡ s * q.max_line
    pub head_lt : q.head < 2 ^ 32
    pub until : q.head ≡ q.tail + length xs
    pub fits : length xs ≤ q.max_size
    pub pushed : (l : ℕ) → l < q.max_line → (q.cls l).hf2 ≡ count (get_li s block q) l q.head + 1
    pub popped : (l : ℕ) → l < q.max_line → (q.cls l).tf2 ≡ count (get_li s block q) l q.tail + 1
    pub early : (l : ℕ) → l < q.max_line → count (get_li s block q) l q.head + 1 < 2 ^ 16
    pub producers :
        Turn
          (has_bit q.flags sp_enq)
          (has_bit q.flags mp_enq)
          q.max_line
          (get_li s block q q.head)
          (λ l. (q.cls l).hf1)
          (λ l. (q.cls l).hf2)
    pub consumers :
        Turn
          (has_bit q.flags sc_deq)
          (has_bit q.flags mc_deq)
          q.max_line
          (get_li s block q q.tail)
          (λ l. (q.cls l).tf1)
          (λ l. (q.cls l).tf2)
    pub over : Over (has_bit q.flags sc_deq) q.dequeue_overcommit q.overcommit q.tail
    pub held : Holds (get_li s block q) (get_si s block q) (λ l. (q.cls l).slots) q.tail xs

  -- What a push leaves, whichever mode wrote it.
  pub record Pushed (q : ClQueue A) (x : A) (cls : ℕ → Line A) : Type 0 where
    pub hf2_next :
        (l : ℕ)
        → (cls l).hf2
          ≡ (if get_li s block q q.head == l then next16 (q.cls l).hf2 else (q.cls l).hf2)
    pub tf1_same : (l : ℕ) → (cls l).tf1 ≡ (q.cls l).tf1
    pub tf2_same : (l : ℕ) → (cls l).tf2 ≡ (q.cls l).tf2
    pub written :
        (l j : ℕ)
        → (cls l).slots j
          ≡ put
              (λ l. (q.cls l).slots)
              (get_li s block q q.head)
              (get_si s block q q.head)
              (some x)
              l
              j
    pub turn :
        Turn
          (has_bit q.flags sp_enq)
          (has_bit q.flags mp_enq)
          q.max_line
          (get_li s block q (q.head + 1))
          (λ l. (cls l).hf1)
          (λ l. (cls l).hf2)

  pub Represents-grown :
      {q : ClQueue A} {xs : List A} (x : A) (cls : ℕ → Line A)
      → Represents q xs
      → length xs < q.max_size
      → q.head + 1 < 2 ^ 32
      → count (get_li s block q) (get_li s block q q.head) q.head + 2 < 2 ^ 16
      → Pushed q x cls
      → Represents (record q { head = q.head + 1; cls = cls }) (xs ++ x ∷ [])
  Represents-grown {q} {xs} x cls r lt small few p = record {
    layout = r.layout;
    capacity = r.capacity;
    head_lt = small;
    until = omega (arith, r.until, length-append xs (x ∷ []));
    fits = omega (arith, length-append xs (x ∷ []));
    pushed = λ l h.
        ground
          (arith, p.hf2_next l, r.pushed l h, r.early l h, count-next (get_li s block q) l q.head);
    popped = λ l h. p.tf2_same l ∙ r.popped l h;
    early = λ l h. ground (arith, r.early l h, count-next (get_li s block q) l q.head);
    producers = p.turn;
    consumers = Turn-same _ _ _ _ _ _ _ _ p.tf1_same p.tf2_same r.consumers;
    over = r.over;
    held =
        Holds-snoc r.layout _ _ q.head x p.written xs q.tail r.until
          (omega (arith, r.until, r.capacity)) r.held;
  }

  -- What a pop leaves, whichever mode wrote it.
  pub record Popped (q : ClQueue A) (cls : ℕ → Line A) : Type 0 where
    pub tf2_next :
        (l : ℕ)
        → (cls l).tf2
          ≡ (if get_li s block q q.tail == l then next16 (q.cls l).tf2 else (q.cls l).tf2)
    pub hf1_same : (l : ℕ) → (cls l).hf1 ≡ (q.cls l).hf1
    pub hf2_same : (l : ℕ) → (cls l).hf2 ≡ (q.cls l).hf2
    pub erased :
        (l j : ℕ)
        → (cls l).slots j
          ≡ put (λ l. (q.cls l).slots) (get_li s block q q.tail) (get_si s block q q.tail) none l j
    pub turn :
        Turn
          (has_bit q.flags sc_deq)
          (has_bit q.flags mc_deq)
          q.max_line
          (get_li s block q (q.tail + 1))
          (λ l. (cls l).tf1)
          (λ l. (cls l).tf2)

  -- the lines at the tail have had no more pops than pushes
  pub popped_early :
      {q : ClQueue A} {xs : List A}
      → Represents q xs
      → (l : ℕ) → l < q.max_line
      → count (get_li s block q) l q.tail + 1 < 2 ^ 16
  popped_early {q} {xs} r l h = omega (
    arith,
    r.early l h,
    r.until,
    count-le (get_li s block q) l q.tail q.head (omega (arith, r.until)),
  )

  pub Represents-shrunk :
      {q : ClQueue A} {x : A} {xs : List A} (cls : ℕ → Line A) (doc : ℕ)
      → Represents q (x ∷ xs)
      → Popped q cls
      → Over (has_bit q.flags sc_deq) doc q.overcommit (q.tail + 1)
      → Represents (record q { tail = q.tail + 1; dequeue_overcommit = doc; cls = cls }) xs
  Represents-shrunk {q} {x} {xs} cls doc r p o = record {
    layout = r.layout;
    capacity = r.capacity;
    head_lt = r.head_lt;
    until = omega (arith, r.until);
    fits = omega (arith, r.fits);
    pushed = λ l h. p.hf2_same l ∙ r.pushed l h;
    popped = λ l h. ground (
      arith,
      p.tf2_next l,
      r.popped l h,
      popped_early r l h,
      r.early l h,
      r.until,
      count-next (get_li s block q) l q.tail,
      count-le (get_li s block q) l (q.tail + 1) q.head (omega (arith, r.until)),
    );
    early = r.early;
    producers = Turn-same _ _ _ _ _ _ _ _ p.hf1_same p.hf2_same r.producers;
    consumers = p.turn;
    over = o;
    held =
        Holds-put_below r.layout _ _ q.tail none p.erased xs (q.tail + 1) (omega arith)
          (omega (arith, r.fits, r.capacity)) (unfold Holds in r.held.1);
  }

  -- a pop that found nothing
  pub Represents-missed :
      {q : ClQueue A} {xs : List A} {doc over : ℕ}
      → Represents q xs
      → Over (has_bit q.flags sc_deq) doc over q.tail
      → Represents (record q { dequeue_overcommit = doc; overcommit = over }) xs
  Represents-missed r o = record {
    layout = r.layout;
    capacity = r.capacity;
    head_lt = r.head_lt;
    until = r.until;
    fits = r.fits;
    pushed = r.pushed;
    popped = r.popped;
    early = r.early;
    producers = r.producers;
    consumers = r.consumers;
    over = o;
    held = r.held;
  }
