-- ===== src/Heap.antt =====
-- The binary heap of src/container/heap.c, on which the scheduler keeps its timers.
-- `elements` is a block of `block` bytes that holds pointers of `elem_size` bytes; what its slots
-- hold past those written is whatever the function says. An access past the block is a fault.
-- `malloc` and `realloc`, whose results the source does not test, succeed here. The destructor,
-- which only frees, is left out.
pub mod Order
pub mod SiftDown
pub mod SiftUp
pub mod Queue
pub mod Push
pub mod Pop
pub mod Drain
mod Tests
use treasure_house.Base.{
  ℕ, zero, suc, ◌+◌, ◌-◌, ◌*◌, ◌/◌, ◌%◌, ◌^◌, Bool, ◌&&◌, Option, none, some, ltb, leb, ◌==◌,
  if◌then◌else◌,
}
use treasure_house.Base.Int.{ℤ, le_zero, lt_zero, ge_zero}
use treasure_house.Base.Memory.{update}
use treasure_house.Base.Run.{Run, ok, fault, out_of_fuel, ◌>>=◌}

abbrev pub heap_init_cap : ℕ
heap_init_cap = 16

-- sizeof(void *)
abbrev pub pointer_size : ℕ
pointer_size = 8

pub record HeapT {ℓ} (A : Type ℓ) : Type ℓ where
  pub elements : ℕ → A
  pub block : ℕ
  pub cmp_fn : A → A → ℤ
  pub elem_size : ℕ
  pub elem_num : ℕ
  pub cap : ℕ

-- Slot `i` lies inside a block of `block` bytes.
abbrev pub inside : ℕ → ℕ → Bool
inside block i = leb (pointer_size * i + pointer_size) block

abbrev pub parent : ℕ → ℕ
parent i = (i - 1) / 2

module _ {ℓ} {A : Type ℓ} where
  unfoldable pub load : ℕ → (ℕ → A) → ℕ → Run A
  load block els i = if inside block i then ok (els i) else fault

  unfoldable pub store : ℕ → (ℕ → A) → ℕ → A → Run (ℕ → A)
  store block els i v = if inside block i then ok (update els i v) else fault

  -- tmp = elements[i]; elements[i] = elements[j]; elements[j] = tmp;
  pub swap : ℕ → (ℕ → A) → ℕ → ℕ → Run (ℕ → A)
  unfolding load store
  swap block els i j = do
    tmp ← load block els i
    other ← load block els j
    els' ← store block els i other
    store block els' j tmp

  pub heap_create : (A → A → ℤ) → (ℕ → A) → HeapT A
  heap_create cmp_fn fresh = record {
    elements = fresh;
    block = pointer_size * heap_init_cap;
    cmp_fn = cmp_fn;
    elem_size = pointer_size;
    elem_num = 0;
    cap = heap_init_cap;
  }

  -- The `while` of sift_down. In the source's words the entry at `last` sinks towards the root.
  pub sift_down_loop : ℕ → ℕ → (A → A → ℤ) → (ℕ → A) → ℕ → Run (ℕ → A)
  sift_down_loop zero block cmp els last = out_of_fuel
  sift_down_loop (suc fuel) block cmp els last =
      let rise = swap block els last (parent last) >>= λ els'.
      sift_down_loop fuel block cmp els' (parent last) in
      let round : Run (ℕ → A) = do
        above ← load block els (parent last)
        moved ← load block els last
        if le_zero (cmp above moved) then ok els else rise
      in if ltb 0 last then round else ok els

  pub sift_down : HeapT A → ℕ → Run (HeapT A)
  unfolding sift_down_loop
  sift_down ht last = do
    els ← sift_down_loop (last + 1) ht.block ht.cmp_fn ht.elements last
    ok (record ht { elements = els })

  -- `cap` is a uint32_t, and so is the product that sizes the new block. The old entries are kept.
  pub grow : HeapT A → HeapT A
  grow ht =
      if ht.cap == ht.elem_num
      then record ht {
        cap = (ht.cap + heap_init_cap) % 2 ^ 32;
        block = ht.elem_size * ((ht.cap + heap_init_cap) % 2 ^ 32) % 2 ^ 32;
      }
      else ht

  -- What heap_push does once there is room.
  pub push_last : HeapT A → A → Run (HeapT A)
  unfolding sift_down
  push_last ht elem = do
    els ← store ht.block ht.elements ht.elem_num elem
    let num = (ht.elem_num + 1) % 2 ^ 32
    sift_down (record ht { elements = els; elem_num = num }) (num - 1)

  pub heap_push : HeapT A → A → Run (HeapT A)
  heap_push ht elem = push_last (grow ht) elem

  -- The left child, or the right one if it exists and comes first.
  pub pick_child : ℕ → (A → A → ℤ) → (ℕ → A) → ℕ → ℕ → Run ℕ
  pick_child block cmp els last child_pos =
      let right_pos = child_pos + 1 in
      if ltb right_pos last
      then (do
        right ← load block els right_pos
        left ← load block els child_pos
        ok (if lt_zero (cmp right left) then right_pos else child_pos))
      else ok child_pos

  -- The `while` of sift_up, from `parent_pos`, whose left child the source keeps in `child_pos`.
  pub sift_up_loop : ℕ → ℕ → (A → A → ℤ) → ℕ → (ℕ → A) → ℕ → Run (ℕ → A)
  sift_up_loop zero block cmp last els parent_pos = out_of_fuel
  sift_up_loop (suc fuel) block cmp last els parent_pos =
      let round : Run (ℕ → A) = do
        child_pos ← pick_child block cmp els last (2 * parent_pos + 1)
        child ← load block els child_pos
        above ← load block els parent_pos
        let sink = swap block els child_pos parent_pos >>= λ els'.
            sift_up_loop fuel block cmp last els' child_pos
        if ge_zero (cmp child above) then ok els else sink
      in if ltb (2 * parent_pos + 1) last then round else ok els

  pub sift_up : HeapT A → ℕ → Run (HeapT A)
  unfolding sift_up_loop pick_child swap
  sift_up ht last = if last == 0 then ok ht else do
    moved ← load ht.block ht.elements last
    els ← store ht.block ht.elements 0 moved
    els' ← sift_up_loop (last + 1) ht.block ht.cmp_fn last els 0
    ok (record ht { elements = els' })

  -- `none` is NULL. elem_num stays below 2^31, since the size of the block wraps before, so that it is
  -- the same as the int that the loop takes.
  pub heap_pop : HeapT A → Run (Option A × HeapT A)
  unfolding load
  heap_pop ht = if ht.elem_num == 0 then ok (none, ht) else do
    top ← load ht.block ht.elements 0
    let num = ht.elem_num - 1
    ht' ← sift_up (record ht { elem_num = num }) num
    ok (some top, ht')

  pub heap_top : HeapT A → Run (Option A)
  heap_top ht =
      if ht.elem_num == 0 then ok none else do top ← load ht.block ht.elements 0; ok (some top)
