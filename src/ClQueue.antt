-- ===== src/ClQueue.antt =====
-- conqueue.h, class `CLQueue`: a queue of cache lines that are filled in turn, run one call at a
-- time. A slot is `some x` while an object is alive in it. Alone, the compare-exchange of a push
-- sees the value that it has just loaded.
pub mod Layout
pub mod Turns
pub mod Represents
pub mod Pushes
pub mod Pops
pub mod Init
pub mod Clear
pub mod Build
pub mod Wrap
mod Tests
use usable_lib.Prelude.{
  ℕ, zero, suc, ◌+◌, ◌-◌, ◌*◌, ◌/◌, ◌%◌, ◌^◌, bit_and, Bool, true, false, Option, none, some,
  if◌then◌else◌, ◌==◌, add32, sub32, has_bit, ◌>>=◌, Result, ok, throw,
}
use usable_lib.Threads.{update}
use usable_lib.ConQueue.Flags.{sp_enq, mp_enq, sc_deq, mc_deq}

-- `cache_line_t`; the four counters have 16 bits
pub record Line (A : Type 0) : Type 0 where
  pub hf1 : ℕ
  pub tf1 : ℕ
  pub hf2 : ℕ
  pub tf2 : ℕ
  pub slots : ℕ → Option A

pub record ClQueue (A : Type 0) : Type 0 where
  pub flags : ℕ
  pub cls : ℕ → Line A
  pub max_line : ℕ
  pub max_size : ℕ
  pub max_line_mask : ℕ
  pub max_line_mask_bits : ℕ
  pub dequeue_overcommit : ℕ
  pub overcommit : ℕ
  pub head : ℕ
  pub tail : ℕ

-- `LINE_SIZE` and `SLOT_MAX_INLINE`, for objects of `t` bytes: the header has 8 bytes, and a line is
-- a multiple of 64 with room for 7 objects.
unfoldable pub line_size : ℕ → ℕ
line_size t = let need : ℕ = 7 * t + 8 in if need % 64 == 0 then need else need / 64 * 64 + 64

unfoldable pub slot_max_inline : ℕ → ℕ
unfolding line_size
slot_max_inline t = (line_size t - 8) / t

-- what `push_unsafe` throws
pub data Full : Type 0 where
  queue_full : Full

-- `++` on a counter
abbrev pub next16 : ℕ → ℕ
next16 c = (c + 1) % 2 ^ 16

-- `s` is `SLOT_MAX_INLINE` and `block` is `USE_BLOCK`. In `line_of` the sum is at most `n`.
unfoldable pub line_of : ℕ → Bool → ℕ → ℕ → ℕ
line_of s block mask n = bit_and (if block then n % 64 + n / (s * 64) * 64 else n) mask

unfoldable pub slot_of : ℕ → Bool → ℕ → ℕ → ℕ
slot_of s block bits n = if block then n % (s * 64) / 64 else n / 2 ^ bits % s

module _ {A : Type 0} (s : ℕ) (block : Bool) where
  abbrev pub get_li : ClQueue A → ℕ → ℕ
  get_li q n = line_of s block q.max_line_mask n

  abbrev pub get_si : ClQueue A → ℕ → ℕ
  get_si q n = slot_of s block q.max_line_mask_bits n

  abbrev pub capacity : ClQueue A → ℕ
  capacity q = q.max_size

  abbrev pub size : ClQueue A → ℕ
  size q = sub32 q.head q.tail

  abbrev pub empty : ClQueue A → Bool
  empty q = q.head == q.tail

  abbrev pub full : ClQueue A → Bool
  full q = sub32 q.head q.tail == capacity q

  -- `none` is a read of raw memory.
  abbrev pub top : ClQueue A → Option A
  top q = (q.cls (get_li q q.tail)).slots (get_si q q.tail)

  -- one slot of the line of a position
  abbrev pub set_slot : ClQueue A → ℕ → Option A → ℕ → Line A
  set_slot q n cell =
      let cl : Line A = q.cls (get_li q n) in
      update q.cls (get_li q n) (record cl { slots = update cl.slots (get_si q n) cell })

  abbrev pub bump_hf1 : ℕ → (ℕ → Line A) → ℕ → Line A
  bump_hf1 li cls = update cls li (record (cls li) { hf1 = next16 (cls li).hf1 })

  abbrev pub bump_tf1 : ℕ → (ℕ → Line A) → ℕ → Line A
  bump_tf1 li cls = update cls li (record (cls li) { tf1 = next16 (cls li).tf1 })

  abbrev pub bump_hf2 : ℕ → (ℕ → Line A) → ℕ → Line A
  bump_hf2 li cls = update cls li (record (cls li) { hf2 = next16 (cls li).hf2 })

  abbrev pub bump_tf2 : ℕ → (ℕ → Line A) → ℕ → Line A
  bump_tf2 li cls = update cls li (record (cls li) { tf2 = next16 (cls li).tf2 })

  -- the test of a line before a push: the counters are promoted to `int`
  abbrev pub line_full : Line A → Bool
  line_full cl = cl.hf2 == cl.tf2 + s

  -- From the construction of the object on, at position `oh` of line `li`. `none` is a wait that
  -- never ends.
  unfoldable pub commit : ClQueue A → ℕ → A → Option (ClQueue A)
  commit q oh x =
      let li : ℕ = get_li q oh in
      let q₁ : ClQueue A = record q { cls = set_slot q oh (some x) } in
      if has_bit q.flags sp_enq
      then some (record q₁ { cls = bump_hf2 li q₁.cls })
      else if has_bit q.flags mp_enq
      then if (q₁.cls li).hf1 == (q₁.cls li).hf2
        then some (record q₁ { cls = bump_hf2 li (bump_hf1 (get_li q (add32 oh 1)) q₁.cls) })
        else none
      else some (record q₁ { cls = bump_hf2 li q₁.cls })

  -- `emplace_impl<TF>`: `unsafe` is `TF`.
  unfoldable pub emplace_impl : Bool → ClQueue A → A → Option (Result Full Bool × ClQueue A)
  emplace_impl unsafe q x =
      let oh : ℕ = q.head in
      let q₁ : ClQueue A = record q { head = add32 oh 1 } in
      let done : Option (Result Full Bool × ClQueue A) = (do
        q₂ ← commit q₁ oh x
        some (ok true, q₂)) in
      if line_full (q.cls (get_li q oh))
      then if has_bit q.flags sp_enq
        then some (ok false, q)
        else if unsafe
        then some (throw queue_full, q₁)
        else some (ok false, q)
      else done

  abbrev pub push : ClQueue A → A → Option (Result Full Bool × ClQueue A)
  push = emplace_impl false

  abbrev pub push_unsafe : ClQueue A → A → Option (Result Full Bool × ClQueue A)
  push_unsafe = emplace_impl true

  -- From the move out of the object on, at position `ot` of line `li`.
  unfoldable pub release : ClQueue A → ℕ → Option (A × ClQueue A)
  release q ot =
      let li : ℕ = get_li q ot in
      let q₁ : ClQueue A = record q { cls = set_slot q ot none } in
      elim ((q.cls li).slots (get_si q ot)) [
        | none ↦ none
        | some x ↦
            if has_bit q.flags sc_deq
            then some (x, record q₁ { cls = bump_tf2 li q₁.cls })
            else if has_bit q.flags mc_deq
            then if (q₁.cls li).tf1 == (q₁.cls li).tf2
              then some
                  (x, record q₁ { cls = bump_tf2 li (bump_tf1 (get_li q (add32 ot 1)) q₁.cls) })
              else none
            else some (x, record q₁ { cls = bump_tf2 li q₁.cls })
      ]

  abbrev pub line_empty : Line A → Bool
  line_empty cl = cl.hf2 == cl.tf2

  unfoldable pub pop : ClQueue A → Option (Option A × ClQueue A)
  pop q =
      let taken : ClQueue A → Option (Option A × ClQueue A) =
        λ q'. (do (x, q₂) ← release q' q.tail; some (some x, q₂)) in
      if has_bit q.flags sc_deq
      then if line_empty (q.cls (get_li q q.tail))
        then some (none, q)
        else taken (record q { tail = add32 q.tail 1 })
      else let doc : ℕ = q.dequeue_overcommit in
        let q₁ : ClQueue A = record q { dequeue_overcommit = add32 doc 1 } in
        if line_empty (q.cls (get_li q (sub32 doc q.overcommit)))
        then some (none, record q₁ { overcommit = add32 q.overcommit 1 })
        else if line_empty (q.cls (get_li q q.tail))
        then none
        else taken (record q₁ { tail = add32 q.tail 1 })

  -- The loop of `clear` over the objects, `n` of them from position `i`, each of which is there or has a
  -- destructor that does nothing; `init` says what is undefined otherwise.
  unfoldable pub destroy_from : ClQueue A → ℕ → ℕ → ClQueue A
  destroy_from q i zero = q
  destroy_from q i (suc n) = destroy_from (record q { cls = set_slot q i none }) (add32 i 1) n

  -- the loop of `clear` over the lines below `n`
  unfoldable pub reset_lines : ℕ → (ℕ → Line A) → ℕ → Line A
  reset_lines zero cls = cls
  reset_lines (suc n) cls =
      let rest = reset_lines n cls in
      update rest n (record { hf1 = 0; tf1 = 0; hf2 = 1; tf2 = 1; slots = (rest n).slots })

  unfoldable pub clear : ClQueue A → ClQueue A
  clear q =
      let q₁ : ClQueue A = destroy_from q q.tail (sub32 q.head q.tail) in
      let cls : ℕ → Line A = reset_lines q.max_line q₁.cls in
      record q₁ { head = 0; tail = 0; cls = update cls 0 (record (cls 0) { hf1 = 1; tf1 = 1 }) }
