-- ===== src/Mempool/Free/Reclaim.antt =====
-- free_one_slab takes every object for a free one: an `unsigned short` is never equal to -1.
use treasure_house.Base.{ℕ, zero, suc, ◌+◌, ◌^◌, ◌≤◌, ◌<◌, ◌≡◌, refl, false, none, some, arith}
use treasure_house.Base.Run.{Ends, ends}
use treasure_house.Lists.{ListLib}
use treasure_house.Mempool.Slab.{Slab}
use treasure_house.Mempool.Pool.{Pool, load-ok}
use treasure_house.Mempool.Free.{free_objects, counts_as_used, free_one_slab}

-- The patterns in a slab's fields are those of 16-bit words.
pub record IsWords (s : Slab) : Type 0 where
  pub first : s.free_idx < 2 ^ 16
  pub links : (i : ℕ) → s.freelist i < 2 ^ 16

never_used : (s : Slab) (i : ℕ) → IsWords s → counts_as_used s i ≡ false
never_used s i w = ground (arith, w.first, w.links i)

module _ {L : ListLib} where
  -- `n` objects leave the books of `p`, all as free ones, and no destructor was called.
  pub record Dropped (p : Pool L) (n : ℕ) (q : Pool L) : Type 0 where
    pub calls : q.calls ≡ p.calls
    pub used : q.used_objs ≡ p.used_objs
    pub free : q.free_objs + n ≡ p.free_objs
    pub total : q.total_objs + n ≡ p.total_objs
    pub memory : q.slabs ≡ p.slabs

  free_objects-Dropped :
      (s : Slab) (n : ℕ) (p : Pool L)
      → IsWords s
      → n ≤ p.free_objs
      → n ≤ p.total_objs
      → p.free_objs < 2 ^ 64
      → p.total_objs < 2 ^ 64
      → Dropped p n (free_objects s n p)
  unfolding free_objects
  free_objects-Dropped s zero p w f t bf bt = record {
    calls = refl;
    used = refl;
    free = omega arith;
    total = omega arith;
    memory = refl;
  }
  free_objects-Dropped s (suc n) p w f t bf bt =
      let before = free_objects-Dropped s n p w (omega arith) (omega arith) bf bt in
      let idle = never_used s n w in
      record {
        calls = rw idle before.calls;
        used = rw idle before.used;
        free = rw idle (omega (arith, before.free));
        total = rw idle (omega (arith, before.total));
        memory = rw idle before.memory;
      }

  -- Whatever objects of the slab are in use, free_one_slab calls no destructor, leaves used_objs as
  -- it was, and takes all the slab's objects off free_objs and total_objs.
  pub free_one_slab-Dropped :
      (pool : Pool L) (a : ℕ) (s : Slab)
      → pool.slabs a ≡ some s
      → IsWords s
      → pool.num_per_slab ≤ pool.free_objs
      → pool.num_per_slab ≤ pool.total_objs
      → pool.free_objs < 2 ^ 64
      → pool.total_objs < 2 ^ 64
      → Ends
          (λ p.
            (p.calls ≡ pool.calls)
            × (p.used_objs ≡ pool.used_objs)
            × (p.free_objs + pool.num_per_slab ≡ pool.free_objs)
            × (p.total_objs + pool.num_per_slab ≡ pool.total_objs)
            × (p.slabs a ≡ none))
          (free_one_slab a pool)
  unfolding free_one_slab
  free_one_slab-Dropped pool a s at w f t bf bt =
      let d = free_objects-Dropped s pool.num_per_slab pool w f t bf bt in
      rw (load-ok pool at) (ends (d.calls, d.used, d.free, d.total, ground arith))
