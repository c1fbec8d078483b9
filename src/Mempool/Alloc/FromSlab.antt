-- ===== src/Mempool/Alloc/FromSlab.antt =====
-- alloc_obj_from_slab hands out the next free object of a slab.
use treasure_house.Base.{
  ℕ, zero, suc, ◌+◌, ◌*◌, ◌^◌, ◌<◌, ◌≡◌, ◌≢◌, false, some, List, ◌∷◌, arith, ◌==◌,
}
use treasure_house.Base.Run.{Ends, ends}
use treasure_house.Lists.{ListLib, has}
use treasure_house.Mempool.Slab.{Slab, no_idx, take_free}
use treasure_house.Mempool.Slab.Freelist.{
  Chain, FreeIndices, take_free-FreeIndices, init_freelist-Chain, Distinct-indices_from,
  length-indices_from, indices_from,
}
use treasure_house.Mempool.Pool.{load-ok, Pool}
use treasure_house.Mempool.Alloc.{init_freelist, new_slab, alloc_obj_from_slab}

module _ {L : ListLib} where
  open L use {entries, entries-list_add, entries-list_del}

  -- All the objects of a new slab are free.
  pub new_slab-FreeIndices :
      (pool : Pool L) (base : ℕ)
      → 0 < pool.num_per_slab
      → pool.num_per_slab < 2 ^ 15
      → FreeIndices pool.num_per_slab (new_slab pool base) (indices_from 0 pool.num_per_slab)
  unfolding new_slab
  new_slab-FreeIndices pool base pos small =
      let n = pool.num_per_slab in
      record {
        chain = whole pool.num_per_slab pos small;
        distinct = Distinct-indices_from n 0 n (omega arith);
        counted = omega (arith, length-indices_from n 0);
        total = omega arith;
        small = small;
      }
    where
      whole : (n : ℕ) → 0 < n → n < 2 ^ 15 → Chain (init_freelist (λ _. 0) n) 0 (indices_from 0 n)
      whole zero p q = absurd (omega arith)
      whole (suc n) p q = init_freelist-Chain (λ _. 0) (suc n) q n 0 (omega arith)

  -- Object `x` of slab `a`, the next free one, was handed out.
  pub record Taken (pool : Pool L) (a : ℕ) (s : Slab) (x : ℕ) (xs : List ℕ) (r : ℕ × Pool L)
      : Type 0 where
    pub address : r.0 ≡ s.obj_base + x * pool.size
    pub slab : r.1.slabs a ≡ some (take_free s)
    pub rest_free : FreeIndices pool.num_per_slab (take_free s) xs
    pub not_free : has x xs ≡ false
    pub others : (b : ℕ) → b ≢ a → r.1.slabs b ≡ pool.slabs b
    pub free_less : r.1.free_objs + 1 ≡ pool.free_objs
    pub used_more : r.1.used_objs ≡ pool.used_objs + 1

  -- On a slab with the free list `x ∷ xs`, in a pool that counts a free object, the call returns
  -- the address of object `x`, leaves the free list `xs`, which lacks `x`, touches no other slab,
  -- and moves one object from free_objs to used_objs.
  pub alloc_obj_from_slab-Taken :
      (pool : Pool L) (a : ℕ) (s : Slab) (x : ℕ) (xs : List ℕ)
      → pool.slabs a ≡ some s
      → FreeIndices pool.num_per_slab s (x ∷ xs)
      → 0 < pool.free_objs
      → pool.free_objs + pool.used_objs < 2 ^ 63
      → Ends (Taken pool a s x xs) (alloc_obj_from_slab a pool)
  unfolding alloc_obj_from_slab
  alloc_obj_from_slab-Taken pool a s x xs at v pos small =
      let (rest_free, first, below, out) = take_free-FreeIndices x xs v in
      let valid : (s.free_idx == no_idx) ≡ false = ground (arith, first, v.small) in
      rw (load-ok pool at, valid)
        (ends (record {
          address = ground arith;
          slab = ground arith;
          rest_free = rest_free;
          not_free = out;
          others = λ b h. ground arith;
          free_less = ground arith;
          used_more = ground arith;
        }))
