-- ===== src/Mempool/Geometry.antt =====
-- Where the objects of a slab lie, and what mempool_create does.
use Prim.Native.String.{String}
use native.Mathlib.Nat.{one-le-pow, div-add-mod', mod-lt}
use treasure_house.Base.{
  ℕ, ◌+◌, ◌-◌, ◌*◌, ◌^◌, ◌≤◌, ◌<◌, ◌≡◌, refl, true, Option, none, some, List, arith,
}
use treasure_house.Base.Bits.{bit_and-zero}
use treasure_house.Base.Run.{fault}
use treasure_house.Lists.{ListLib}
use treasure_house.Mempool.Align.{word_mod, align_up, align_up_power, calculate_alignment}
use treasure_house.Mempool.Order.{slab_size, calculate_slab_order, order_loop, mempool_estimate}
use treasure_house.Mempool.Order.Fits.{Fits}
use treasure_house.Mempool.Pool.{Pool, MempoolOps}
use treasure_house.Mempool.Alloc.{new_slab}
use treasure_house.Mempool.Create.{mempool_create, find_mempool_by_name}

-- ALIGN to a power of two: not below x, less than one unit above it.
pub align_up_bounds :
    (k w x : ℕ)
    → w + k ≡ 64
    → x + 2 ^ k ≤ word_mod
    → (x ≤ align_up x (2 ^ k)) × (align_up x (2 ^ k) < x + 2 ^ k)
align_up_bounds k w x h small =
    let p = one-le-pow k 2 (omega arith) in
    let whole = div-add-mod' (x + 2 ^ k - 1) (2 ^ k) in
    let rest = mod-lt (x + 2 ^ k - 1) p in
    rw (align_up_power k w x h small) (omega (arith, whole, rest, p), omega (arith, whole, rest, p))

align_up-zero : (x : ℕ) → align_up x 0 ≡ 0
unfolding align_up
align_up-zero x = bit_and-zero _

no_align : calculate_alignment 0 ≡ 0
unfolding calculate_alignment
no_align = refl

no_size : calculate_slab_order 0 0 ≡ fault
unfolding calculate_slab_order order_loop mempool_estimate
no_size = refl

pub row : (x n z : ℕ) → x < n → x * z + z ≤ n * z
row x n z h = grind arith

module _ {L : ListLib} where
  -- The address of object `x`.
  pub object_at : Pool L → ℕ → ℕ → ℕ
  unfolding new_slab
  object_at pool base x = (new_slab pool base).obj_base + x * pool.size

  -- In the slab of a pool whose sizes calculate_slab_order chose, for an alignment 2^k, each object
  -- lies inside the block that malloc returned at `base`, and behind the objects before it.
  pub object_inside :
      (pool : Pool L) (k w base x : ℕ)
      → w + k ≡ 64
      → pool.align ≡ 2 ^ k
      → Fits pool.size pool.align
          (record { num_per_slab = pool.num_per_slab; order = pool.order; left_over = 0 })
      → base + slab_size pool.order ≤ word_mod
      → x < pool.num_per_slab
      → (base ≤ object_at pool base x)
        × (object_at pool base x + pool.size ≤ base + slab_size pool.order)
        × ((y : ℕ) → y < x → object_at pool base y + pool.size ≤ object_at pool base x)
  unfolding object_at
  object_inside pool k w base x h e fit room below =
      let inside = fit.inside in
      let fits : base + 2 ^ k ≤ word_mod = omega (arith, inside) in
      let bounds = align_up_bounds k w base h fits in
      let last = row x pool.num_per_slab pool.size below in
      rw e (
        omega (arith, bounds.0),
        omega (arith, bounds.1, last, inside),
        λ y l. omega (arith, row y x pool.size l),
      )

  -- An alignment of 0 passes through calculate_alignment, makes the objects 0 bytes wide, and
  -- mempool_create divides by that size, for every name that is not taken.
  pub mempool_create_zero_align :
      (name : String) (obj_size : ℕ) (ops : Option MempoolOps) (pools : List (Pool L))
      → find_mempool_by_name name pools ≡ none
      → mempool_create true (some name) obj_size 0 ops pools ≡ fault
  unfolding mempool_create
  mempool_create_zero_align name obj_size ops pools free =
      rw (free, mempool_create, no_align, align_up-zero obj_size, no_size)
