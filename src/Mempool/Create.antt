-- ===== src/Mempool/Create.antt =====
-- mempool_create and mempool_destory, over the pools that stand on mempool_list.
use Prim.Native.String.{String}
use text.Mathlib.Text.{◌==◌ as str_eq}
use treasure_house.Base.{
  ℕ, ◌+◌, ◌-◌, ◌%◌, ◌^◌, Bool, Option, none, some, List, [], ◌∷◌, ◌==◌, ltb, if◌then◌else◌,
}
use treasure_house.Base.Run.{Run, ok, ◌>>=◌}
use treasure_house.Lists.{ListLib}
use treasure_house.Mempool.Align.{align_up, calculate_alignment}
use treasure_house.Mempool.Order.{Fit, calculate_slab_order}
use treasure_house.Mempool.Pool.{Pool, MempoolOps}
use treasure_house.Mempool.Free.{free_all_slabs}

-- An `int`, as its 32-bit pattern, widened to size_t with its sign.
abbrev pub sign_extend : ℕ → ℕ
sign_extend v = if ltb v (2 ^ 31) then v else v + 2 ^ 64 - 2 ^ 32

module _ {L : ListLib} where
  unfoldable pub find_mempool_by_name : String → List (Pool L) → Option (Pool L)
  find_mempool_by_name name [] = none
  find_mempool_by_name name (pool ∷ pools) =
      if str_eq pool.name name then some pool else find_mempool_by_name name pools

  -- A pool with no slab, whose slabs the fit describes.
  unfoldable pub fresh_pool : String → ℕ → ℕ → ℕ → Option MempoolOps → Fit → Pool L
  fresh_pool name obj_size align size ops fit = record {
    name = name;
    size = size;
    obj_size = obj_size % 2 ^ 32;
    align = align;
    num_per_slab = fit.num_per_slab;
    order = fit.order;
    ops = ops;
    partial = L.init_list_head;
    full = L.init_list_head;
    empty = L.init_list_head;
    cur = none;
    slab_nums = 0;
    total_objs = 0;
    used_objs = 0;
    free_objs = 0;
    slabs = λ _. none;
    calls = [];
  }

  -- `memory` says whether `calloc` finds room for the pool. The result is the new pool, or NULL;
  -- a new pool goes to the front of mempool_list.
  unfoldable pub mempool_create :
      Bool → Option String → ℕ → ℕ → Option MempoolOps → List (Pool L) → Run (Option (Pool L))
  mempool_create memory none obj_size align ops pools = ok none
  mempool_create memory (some name) obj_size align ops pools =
      let int_align = calculate_alignment align % 2 ^ 32 in
      let size = align_up obj_size (sign_extend int_align) % 2 ^ 32 in
      let build : Run (Option (Pool L)) = do
        fit ← calculate_slab_order size (sign_extend int_align)
        ok (
            if fit.num_per_slab == 0
            then none
            else some (fresh_pool name obj_size int_align size ops fit))
      in elim (find_mempool_by_name name pools) [
        | some pool ↦ ok none
        | none ↦ if memory then build else ok none
      ]

  -- The pool that leaves mempool_list, with its slabs freed.
  unfoldable pub mempool_destory : Option (Pool L) → Run (Option (Pool L))
  mempool_destory none = ok none
  mempool_destory (some pool) = do freed ← free_all_slabs pool; ok (some freed)
