-- ===== src/Mempool/Tests.antt =====
-- A pool of eight objects to a slab: runs of the allocator, and the theorems at them.
pub mod Frees
pub mod Lending
use treasure_house.Base.{
  ℕ, zero, suc, ◌+◌, ◌-◌, ◌*◌, ◌/◌, ◌^◌, ◌<◌, ◌≤◌, ◌≡◌, ◌≢◌, refl, Bool, true, false, Option, none,
  some, List, [], ◌∷◌, arith,
}
use treasure_house.Base.Run.{Run, ok, fault, Ends, ◌>>=◌}
use treasure_house.Lists.{ListLib}
use treasure_house.Lists.Plain.{plain}
use treasure_house.Mempool.Align.{align_up, align_up_power, calculate_alignment}
use treasure_house.Mempool.Order.{
  Fit, slab_size, mempool_estimate, order_loop, calculate_slab_order,
}
use treasure_house.Mempool.Order.Fits.{Fits, Outcome, calculate_slab_order-Outcome}
use treasure_house.Mempool.Slab.{Slab, init_freelist, take_free, put_free}
use treasure_house.Mempool.Slab.Freelist.{FreeIndices, indices_from, take_free-FreeIndices}
use treasure_house.Mempool.Pool.{Pool, load}
use treasure_house.Mempool.Alloc.{
  new_slab, slab_alloc, first_free, load_slab, find_slab, alloc_obj_from_slab, construct,
  mempool_alloc,
}
use treasure_house.Mempool.Alloc.FromSlab.{Taken, new_slab-FreeIndices, alloc_obj_from_slab-Taken}
use treasure_house.Mempool.Free.{
  holder_in, find_obj_slab, free_object, free_objects, free_one_slab, settle, free_obj2slab,
  mempool_free, free_each, free_all_slabs,
}
use treasure_house.Mempool.Free.PutBack.{Returned, free_obj2slab-use_after_free}
use treasure_house.Mempool.Free.Reclaim.{IsWords, free_one_slab-Dropped}
use treasure_house.Mempool.Create.{
  find_mempool_by_name, fresh_pool, mempool_create, mempool_destory,
}
use treasure_house.Mempool.Geometry.{object_at, object_inside, mempool_create_zero_align}

abbrev pub pool : Pool plain
pool = record {
  name = "p";
  size = 504;
  obj_size = 500;
  align = 8;
  num_per_slab = 8;
  order = 0;
  ops = none;
  partial = [];
  full = [];
  empty = [];
  cur = none;
  slab_nums = 0;
  total_objs = 0;
  used_objs = 0;
  free_objs = 0;
  slabs = λ _. none;
  calls = [];
}

pub create_result : mempool_create {L = plain} true (some "p") 500 8 none [] ≡ ok (some pool)
unfolding mempool_create find_mempool_by_name fresh_pool calculate_alignment align_up
    calculate_slab_order order_loop mempool_estimate slab_size
create_result = refl

align_up_power_example : align_up 500 (2 ^ 3) ≡ (500 + 2 ^ 3 - 1) / 2 ^ 3 * 2 ^ 3
align_up_power_example = align_up_power 3 61 500 refl (omega arith)

pool-Fits : Fits 504 8 (record { num_per_slab = 8; order = 0; left_over = 0 })
unfolding slab_size
pool-Fits = record { enough = omega arith; small = omega arith; inside = omega arith }

object_inside_example :
    (8192 ≤ object_at pool 8192 5)
    × (object_at pool 8192 5 + 504 ≤ 8192 + slab_size 0)
    × ((y : ℕ) → y < 5 → object_at pool 8192 y + 504 ≤ object_at pool 8192 5)
unfolding slab_size
object_inside_example =
    object_inside pool 3 61 8192 5 refl refl pool-Fits (omega arith) (omega arith)

abbrev pub slab : Slab
slab = new_slab pool 8192

new_slab-FreeIndices_example : FreeIndices 8 slab (indices_from 0 8)
new_slab-FreeIndices_example = new_slab-FreeIndices pool 8192 (omega arith) (omega arith)

pub slab-FreeIndices : FreeIndices 8 slab (indices_from 0 8)
slab-FreeIndices = new_slab-FreeIndices pool 8192 (omega arith) (omega arith)

-- The same slab with its first two objects in use.
abbrev pub two_used : Slab
two_used = take_free (take_free slab)

pub two_used-FreeIndices : FreeIndices 8 two_used (indices_from 2 6)
two_used-FreeIndices = (take_free-FreeIndices 1 _ (take_free-FreeIndices 0 _ slab-FreeIndices).0).0

abbrev pub busy : Pool plain
busy = record pool {
  slabs = λ _. some two_used;
  cur = some 600;
  partial = 600 ∷ [];
  slab_nums = 1;
  total_objs = 8;
  used_objs = 2;
  free_objs = 6;
}

abbrev filled : Slab
filled = record slab { free = 0; used = 8 }
