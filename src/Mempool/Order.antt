-- ===== src/Mempool/Order.antt =====
-- mempool_estimate and calculate_slab_order: how many objects a slab holds, and its size.
-- A division by zero is a fault. `align`, an int that is not negative, widens to size_t.
pub mod Fits
use treasure_house.Base.{ℕ, zero, suc, ◌+◌, ◌-◌, ◌*◌, ◌/◌, ◌%◌, ◌^◌, ltb, leb, ◌==◌, if◌then◌else◌}
use treasure_house.Base.Run.{Run, ok, fault, ◌>>=◌}
use treasure_house.Mempool.Align.{word_mod}

abbrev pub page_size : ℕ
page_size = 4096

abbrev pub malloc_max_order : ℕ
malloc_max_order = 6

abbrev pub slab_obj_min_num : ℕ
slab_obj_min_num = 8

-- PAGE_SIZE << order
unfoldable pub slab_size : ℕ → ℕ
slab_size order = page_size * 2 ^ order

-- What calculate_slab_order sets in the pool, and what it returns.
pub record Fit : Type 0 where
  pub num_per_slab : ℕ
  pub order : ℕ
  pub left_over : ℕ

-- The number of objects, cut to an unsigned int, and the bytes that are left over.
unfoldable pub mempool_estimate : ℕ → ℕ → ℕ → Run (ℕ × ℕ)
mempool_estimate order buffer_size align =
    let sub_align_size = (slab_size order + word_mod - align) % word_mod in
    if buffer_size == 0
    then fault
    else ok (sub_align_size / buffer_size % 2 ^ 32, sub_align_size % buffer_size)

-- The `for`, with the rounds that are left.
unfoldable pub order_loop : ℕ → ℕ → ℕ → ℕ → Fit → Run Fit
order_loop zero order size align best = ok best
order_loop (suc rounds) order size align best = do
  (num, remainder) ← mempool_estimate order size align
  let fit : Fit = record { num_per_slab = num; order = order; left_over = remainder }
  let skip = order_loop rounds (order + 1) size align best
  let try_larger = order_loop rounds (order + 1) size align fit
  if num == 0
      then skip
      else if ltb num slab_obj_min_num
      then skip
      else if leb (remainder * 8) (slab_size order)
      then ok fit
      else try_larger

-- set_off_slab_mempool clears num_per_slab first.
unfoldable pub calculate_slab_order : ℕ → ℕ → Run Fit
unfolding order_loop
calculate_slab_order size align =
    order_loop (malloc_max_order + 1) 0 size align
      (record { num_per_slab = 0; order = 0; left_over = 0 })
