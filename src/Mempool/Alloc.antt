-- ===== src/Mempool/Alloc.antt =====
-- slab_alloc, load_slab, find_slab, alloc_obj_from_slab and mempool_alloc.
-- What `calloc` and `malloc` return for a new slab are arguments; `none` is NULL. The slab's
-- address is then one that holds no slab.
pub mod FromSlab
pub mod Listed
pub mod Search
use treasure_house.Base.{
  ℕ, ◌+◌, ◌-◌, ◌*◌, ◌%◌, ◌^◌, Option, none, some, List, [], ◌∷◌, ◌++◌, ◌==◌, ltb, if◌then◌else◌,
}
use treasure_house.Base.Run.{Run, ok, fault, ◌>>=◌}
use treasure_house.Lists.{ListLib}
use treasure_house.Mempool.Align.{align_up}
use treasure_house.Mempool.Slab.{Slab, short_is_minus_one, init_freelist, take_free}
use treasure_house.Mempool.Pool.{Pool, ctor_of, sub64, add64, load, store, move_partial, move_full}

module _ {L : ListLib} where
  open L use {entries, list_add}

  -- The slab that slab_alloc sets up at `base`.
  unfoldable pub new_slab : Pool L → ℕ → Slab
  new_slab pool base =
      let obj_base = align_up base pool.align in
      record {
        s_base = base;
        obj_base = obj_base;
        obj_end = obj_base + pool.num_per_slab * pool.size;
        free_idx = 0;
        last_free_idx = (pool.num_per_slab + 2 ^ 16 - 1) % 2 ^ 16;
        used = 0;
        free = pool.num_per_slab % 2 ^ 16;
        freelist = init_freelist (λ _. 0) pool.num_per_slab;
      }

  -- The new slab's address with the pool, or NULL.
  unfoldable pub slab_alloc : Option ℕ → Option ℕ → Pool L → Option ℕ × Pool L
  slab_alloc none base pool = (none, pool)
  slab_alloc (some a) none pool = (none, pool)
  slab_alloc (some a) (some base) pool = (
    some a,
    record pool {
      slabs = (store a (some (new_slab pool base)) pool).slabs;
      empty = list_add a pool.empty;
      slab_nums = add64 pool.slab_nums 1;
      free_objs = add64 pool.free_objs pool.num_per_slab;
      total_objs = add64 pool.total_objs pool.num_per_slab;
      cur = some a;
    },
  )

  -- A loop of load_slab: the first slab of a list with a free object.
  unfoldable pub first_free : Pool L → List ℕ → Run (Option ℕ)
  first_free pool [] = ok none
  first_free pool (a ∷ more) = do
    s ← load pool a
    let rest = first_free pool more
    if ltb 0 s.free then ok (some a) else rest

  unfoldable pub load_slab : Pool L → Run (Option ℕ × Pool L)
  unfolding first_free
  load_slab pool = do
    in_partial ← first_free pool (entries pool.partial)
    elim in_partial [
      | some a ↦ ok (some a, record pool { cur = some a })
      | none ↦ do
        in_empty ← first_free pool (entries pool.empty)
        elim in_empty [
          | some a ↦ ok (some a, record pool { cur = some a })
          | none ↦ ok (none, pool)
        ]
    ]

  unfoldable pub find_slab : Pool L → Run (Option ℕ × Pool L)
  find_slab pool = elim pool.cur [
    | none ↦ load_slab pool
    | some a ↦ do s ← load pool a; if s.free == 0 then load_slab pool else ok (some a, pool)
  ]

  -- `slab->last_free_idx == -1;` in the source is a comparison, and changes nothing.
  unfoldable pub alloc_obj_from_slab : ℕ → Pool L → Run (ℕ × Pool L)
  alloc_obj_from_slab a pool = do
    s ← load pool a
    let taken = store a (some (take_free s)) pool
    let filled = if s.free_idx == s.last_free_idx then move_full a taken else taken
    let moved = if (take_free s).used == 1 then move_partial a filled else filled
    let counted = record moved {
      free_objs = sub64 moved.free_objs 1;
      used_objs = add64 moved.used_objs 1;
    }
    if short_is_minus_one s.free_idx
        then fault
        else ok (s.obj_base + s.free_idx * pool.size, counted)

  -- ctor is called if the pool has one.
  unfoldable pub construct : ℕ → Pool L → Pool L
  construct obj pool = elim pool.ops [
    | none ↦ pool
    | some o ↦ if o.ctor then record pool { calls = pool.calls ++ ctor_of obj ∷ [] } else pool
  ]

  unfoldable pub alloc_from : Option ℕ × Pool L → Run (Option ℕ × Pool L)
  alloc_from (none, pool) = ok (none, pool)
  alloc_from (some a, pool) = do
    (obj, pool') ← alloc_obj_from_slab a pool
    ok (some obj, construct obj pool')

  unfoldable pub mempool_alloc : Option ℕ → Option ℕ → Pool L → Run (Option ℕ × Pool L)
  unfolding alloc_from
  mempool_alloc fresh base pool =
      if pool.free_objs == 0
      then alloc_from (slab_alloc fresh base pool)
      else find_slab pool >>= alloc_from
