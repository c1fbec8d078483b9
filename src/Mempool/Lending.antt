-- ===== src/Mempool/Lending.antt =====
-- The life of a pool: any sequence of mempool_alloc and mempool_free, each object going back once.
-- malloc and calloc give blocks that are apart from those that the pool has.
pub mod Sound
pub mod Apart
pub mod Changes
pub mod Takes
pub mod Grows
pub mod Allocates
pub mod Frees
pub mod Created
pub mod Kept
use treasure_house.Base.{
  ℕ, ◌+◌, ◌*◌, ◌^◌, ◌≤◌, ◌<◌, ◌≡◌, ◌⊎◌, true, Option, none, some, List, [], ◌∷◌,
}
use treasure_house.Base.Run.{ok}
use treasure_house.Lists.{ListLib, has, remove}
use treasure_house.Mempool.Align.{word_mod}
use treasure_house.Mempool.Order.{slab_size}
use treasure_house.Mempool.Slab.{Slab}
use treasure_house.Mempool.Pool.{Pool}
use treasure_house.Mempool.Alloc.{mempool_alloc}
use treasure_house.Mempool.Free.{mempool_free}

-- A pool with the objects that its callers have.
pub record State (L : ListLib) : Type 0 where
  pub pool : Pool L
  pub lent : List ℕ

module _ {L : ListLib} where
  -- What calloc and malloc may answer: NULL, or a slab's address that is not in use with a block
  -- that is apart from the others. The pool's objects stay below 2^63.
  abbrev pub MayGive : Option ℕ → Option ℕ → Pool L → Type 0
  MayGive (some a) (some base) p =
      (p.slabs a ≡ none)
      × (base + slab_size p.order ≤ word_mod)
      × (p.total_objs + p.num_per_slab < 2 ^ 63)
      × ((b : ℕ) (t : Slab)
          → p.slabs b ≡ some t
          → (t.s_base + slab_size p.order ≤ base) ⊎ (base + slab_size p.order ≤ t.s_base))
  MayGive _ _ p = Unit {0}

  pub data Step (s : State L) : State L → Type 0 where
    lends :
        (fresh base : Option ℕ) (obj : ℕ) (pool : Pool L)
        → MayGive fresh base s.pool
        → mempool_alloc fresh base s.pool ≡ ok (some obj, pool)
        → Step s (record { pool = pool; lent = obj ∷ s.lent })
    fails :
        (fresh base : Option ℕ) (pool : Pool L)
        → MayGive fresh base s.pool
        → mempool_alloc fresh base s.pool ≡ ok (none, pool)
        → Step s (record { pool = pool; lent = s.lent })
    takes_back :
        (obj : ℕ) (pool : Pool L)
        → has obj s.lent ≡ true
        → mempool_free obj s.pool ≡ ok pool
        → Step s (record { pool = pool; lent = remove obj s.lent })

  pub data Reach (s : State L) : State L → Type 0 where
    here : Reach s s
    next : {t u : State L} → Reach s t → Step t u → Reach s u
