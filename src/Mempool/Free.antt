-- ===== src/Mempool/Free.antt =====
-- find_obj_slab, free_obj2slab, mempool_free, free_all_slabs and mempool_destory.
pub mod PutBack
pub mod Reclaim
pub mod Holder
use treasure_house.Base.{
  ℕ, zero, suc, ◌+◌, ◌-◌, ◌*◌, ◌/◌, ◌%◌, ◌^◌, Bool, not, ◌&&◌, ◌||◌, Option, none, some, List, [],
  ◌∷◌, ◌++◌, ◌==◌, ltb, leb, if◌then◌else◌,
}
use treasure_house.Base.Run.{Run, ok, ◌>>=◌}
use treasure_house.Lists.{ListLib}
use treasure_house.Mempool.Slab.{Slab, short_is_minus_one, ushort_is_minus_one, put_free}
use treasure_house.Mempool.Pool.{
  Pool, dctor_of, sub64, add64, load, store, unlink, move_partial, move_empty,
}

-- ADDR_IN_SLAB
abbrev pub addr_in_slab : Slab → ℕ → Bool
addr_in_slab s obj = leb s.obj_base obj && leb obj s.obj_end

-- The test of free_all_objs_one_slab for an object in use.
abbrev pub counts_as_used : Slab → ℕ → Bool
counts_as_used s i =
    ushort_is_minus_one s.free_idx
    || (ushort_is_minus_one (s.freelist i) && not (i == s.last_free_idx))

module _ {L : ListLib} where
  open L use {entries, list_empty}

  -- A loop of find_obj_slab.
  unfoldable pub holder_in : Pool L → ℕ → List ℕ → Run (Option ℕ)
  holder_in pool obj [] = ok none
  holder_in pool obj (a ∷ more) = do
    s ← load pool a
    let rest = holder_in pool obj more
    if ltb 0 s.used && addr_in_slab s obj then ok (some a) else rest

  unfoldable pub find_obj_slab : Pool L → ℕ → Run (Option ℕ)
  unfolding holder_in
  find_obj_slab pool obj = if pool.used_objs == 0 then ok none else do
    in_partial ← holder_in pool obj (entries pool.partial)
    elim in_partial [ some a ↦ ok (some a) | none ↦ holder_in pool obj (entries pool.full) ]

  destruct : ℕ → Pool L → Pool L
  destruct obj pool = elim pool.ops [
    | none ↦ pool
    | some o ↦ if o.dctor then record pool { calls = pool.calls ++ dctor_of obj ∷ [] } else pool
  ]

  -- One round of free_all_objs_one_slab.
  unfoldable pub free_object : Slab → ℕ → Pool L → Pool L
  unfolding destruct
  free_object s i pool =
      let p = destruct (s.obj_base + i * pool.size) pool in
      let q =
        if counts_as_used s i
        then record p { used_objs = sub64 p.used_objs 1 }
        else record pool { free_objs = sub64 pool.free_objs 1 } in
      record q { total_objs = sub64 q.total_objs 1 }

  -- The rounds 0, …, n - 1.
  unfoldable pub free_objects : Slab → ℕ → Pool L → Pool L
  unfolding free_object
  free_objects s zero pool = pool
  free_objects s (suc n) pool = free_object s n (free_objects s n pool)

  unfoldable pub free_one_slab : ℕ → Pool L → Run (Pool L)
  unfolding free_objects
  free_one_slab a pool = do
    s ← load pool a
    let cleared = store a none (unlink a (free_objects s pool.num_per_slab pool))
    ok (record cleared { slab_nums = sub64 cleared.slab_nums 1 })

  -- The list that a slab with no object in use moves to: one empty slab is kept.
  unfoldable pub settle : ℕ → Pool L → Run (Pool L)
  unfolding free_one_slab
  settle a pool =
      if not (list_empty pool.empty) then free_one_slab a pool else ok (move_empty a pool)

  unfoldable pub free_obj2slab : ℕ → ℕ → Pool L → Run (Pool L)
  free_obj2slab obj a pool = do
    s ← load pool a
    let free_idx = (obj - s.obj_base) / pool.size % 2 ^ 16
    let s' = put_free free_idx s
    let put = store a (some s') pool
    settled ← if s'.used == 0 then settle a put else ok put
    -- the slab is read again
    t ← load settled a
    let reset = store a (some (record t { last_free_idx = free_idx })) settled
    let moved = if short_is_minus_one t.last_free_idx then move_partial a reset else settled
    ok (record moved { free_objs = add64 moved.free_objs 1; used_objs = sub64 moved.used_objs 1 })

  -- The pool is not NULL here: for NULL nothing is done.
  unfoldable pub mempool_free : ℕ → Pool L → Run (Pool L)
  mempool_free obj pool = do
    slab ← find_obj_slab pool obj
    elim slab [ none ↦ ok pool | some a ↦ free_obj2slab obj a pool ]

  -- A loop of free_all_slabs, over the entries that the list has when the loop begins.
  unfoldable pub free_each : List ℕ → Pool L → Run (Pool L)
  unfolding free_one_slab
  free_each [] pool = ok pool
  free_each (a ∷ more) pool = free_one_slab a pool >>= free_each more

  unfoldable pub free_all_slabs : Pool L → Run (Pool L)
  unfolding free_each
  free_all_slabs pool = if pool.slab_nums == 0 then ok pool else do
    p ← free_each (entries pool.partial) pool
    q ← free_each (entries p.full) p
    free_each (entries q.empty) q
