-- ===== src/Mempool/Lending/Sound.antt =====
-- The invariant of a pool: its slabs, their blocks and lists, its books, and the objects lent.
use treasure_house.Base.{
  ℕ, ◌+◌, ◌*◌, ◌^◌, ◌≤◌, ◌<◌, ◌≡◌, ◌≢◌, ◌⊎◌, true, false, ◌||◌, ◌==◌, some, List, length,
}
use treasure_house.Lists.{ListLib, has}
use treasure_house.Lists.Counts.{NoRepeats}
use treasure_house.Mempool.Order.{slab_size}
use treasure_house.Mempool.Order.Fits.{Fits}
use treasure_house.Mempool.Slab.{Slab, no_idx}
use treasure_house.Mempool.Slab.Freelist.{FreeIndices}
use treasure_house.Mempool.Pool.{Pool}
use treasure_house.Mempool.Alloc.Listed.{IsListed, on_partial, on_full, on_empty}

-- The sizes of a pool: its slabs of 4096 * 2^order bytes hold `num` objects of `size` bytes each,
-- aligned to 2^k.
pub record Geometry : Type 0 where
  pub num : ℕ
  pub size : ℕ
  pub order : ℕ
  pub k : ℕ
  pub w : ℕ
  pub word : w + k ≡ 64
  pub wide : 8 ≤ size
  pub fit : Fits size (2 ^ k) (record { num_per_slab = num; order = order; left_over = 0 })

-- The blocks of two slabs.
abbrev pub Clear : Geometry → Slab → Slab → Type 0
Clear g s t = (s.s_base + slab_size g.order ≤ t.s_base) ⊎ (t.s_base + slab_size g.order ≤ s.s_base)

module _ {L : ListLib} (g : Geometry) where
  -- A slab at `a` whose objects `xs` are free.
  pub record Held (p : Pool L) (xs : List ℕ) (a : ℕ) (s : Slab) : Type 0 where
    pub indices : FreeIndices g.num s xs
    pub last : s.last_free_idx ≢ no_idx
    pub reach : s.obj_end ≡ s.obj_base + g.num * g.size
    pub lower : s.s_base ≤ s.obj_base
    pub upper : s.obj_end < s.s_base + slab_size g.order
    pub listed : IsListed a s p

  -- An object in use: object `i` of a slab.
  pub record Lent (frees : ℕ → List ℕ) (p : Pool L) (obj : ℕ) : Type 0 where
    pub slab : ℕ
    pub s : Slab
    pub at : p.slabs slab ≡ some s
    pub i : ℕ
    pub below : i < g.num
    pub taken : has i (frees slab) ≡ false
    pub address : obj ≡ s.obj_base + i * g.size

  -- `frees` are the free objects of each slab, and `lent` the objects that the callers have.
  pub record Sound (frees : ℕ → List ℕ) (p : Pool L) (lent : List ℕ) : Type 0 where
    pub shape :
        (p.size ≡ g.size) × (p.align ≡ 2 ^ g.k) × (p.num_per_slab ≡ g.num) × (p.order ≡ g.order)
    pub held : (a : ℕ) (s : Slab) → p.slabs a ≡ some s → Held p (frees a) a s
    pub clear :
        (a b : ℕ) (s t : Slab)
        → (a == b) ≡ false
        → p.slabs a ≡ some s
        → p.slabs b ≡ some t
        → Clear g s t
    pub listed :
        (a : ℕ)
        → (on_partial a p || on_full a p || on_empty a p) ≡ true
        → (s : Slab) × (p.slabs a ≡ some s)
    pub current : (a : ℕ) → p.cur ≡ some a → (s : Slab) × (p.slabs a ≡ some s)
    pub objects : (obj : ℕ) → has obj lent ≡ true → Lent frees p obj
    pub once : NoRepeats lent
    pub used : p.used_objs ≡ length lent
    pub books : p.free_objs + p.used_objs ≡ p.total_objs
    pub room : p.total_objs < 2 ^ 63
