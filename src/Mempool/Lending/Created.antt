-- ===== src/Mempool/Lending/Created.antt =====
-- A pool that mempool_create returns is sound, with nothing lent.
use native.Mathlib.Nat.{one-le-pow}
use treasure_house.Base.{
  if◌then◌else◌, ℕ, ◌+◌, ◌-◌, ◌*◌, ◌/◌, ◌%◌, ◌^◌, ◌≤◌, ◌<◌, ◌≡◌, ◌≢◌, ◌⊎◌, inl, inr, refl, sym, ap,
  ◌∙◌, Bool, true, false, ◌==◌, Option, none, some, List, [], arith,
}
use Prim.Native.String.{String}
use treasure_house.Base.Run.{Run, ◌>>=◌, Run, ok, Ends, ends, Ends-bind}
use treasure_house.Lists.{ListLib}
use treasure_house.Mempool.Align.{align_up, align_up_power, calculate_alignment, two_pow_add}
use treasure_house.Mempool.Order.{Fit, calculate_slab_order}
use treasure_house.Mempool.Order.Fits.{Cramped, Outcome, calculate_slab_order-Outcome}
use treasure_house.Mempool.Pool.{Pool, MempoolOps}
use treasure_house.Mempool.Geometry.{align_up_bounds}
use treasure_house.Mempool.Create.{mempool_create, find_mempool_by_name, fresh_pool, sign_extend}
use treasure_house.Mempool.Lending.Sound.{Geometry, Sound}

module _ {L : ListLib} where
  fresh-Sound :
      (g : Geometry) (name : String) (obj_size align size : ℕ) (ops : Option MempoolOps) (fit : Fit)
      → size ≡ g.size
      → align ≡ 2 ^ g.k
      → fit.num_per_slab ≡ g.num
      → fit.order ≡ g.order
      → Sound g (λ _. []) (fresh_pool {L = L} name obj_size align size ops fit) []
  unfolding fresh_pool
  fresh-Sound g name obj_size align size ops fit e_size e_align e_num e_order =
      let nothing = L.entries-init in
      record {
        shape = (e_size, e_align, e_num, e_order);
        held = λ a s at. absurd (ground (arith, at));
        clear = λ a b s t other at. absurd (ground (arith, at));
        listed = λ a there. absurd (ground (arith, there, nothing));
        current = λ a is. absurd (ground (arith, is));
        objects = λ obj there. absurd (ground (arith, there));
        once = tt;
        used = refl;
        books = refl;
        room = omega arith;
      }

-- The alignments 8, 16, …, 4096.
abbrev pub power : ℕ → ℕ
power j = 2 ^ (3 + j)

power_bounds : (j : ℕ) → j ≤ 9 → (8 ≤ power j) × (power j ≤ 4096)
power_bounds j h =
    let rest : 3 + j + (9 - j) ≡ 12 = omega arith in
    let whole : power j * 2 ^ (9 - j) ≡ 4096 =
      sym (two_pow_add (3 + j) (9 - j)) ∙ ap (λ n. 2 ^ n) rest in
    let one : 1 ≤ 2 ^ (9 - j) = one-le-pow (9 - j) 2 (omega arith) in
    let upper : power j * 1 ≤ power j * 2 ^ (9 - j) = grind arith in
    (omega (arith, two_pow_add 3 j, one-le-pow j 2 (omega arith)), omega (arith, whole, upper))

calculate_alignment-power : (j : ℕ) → j ≤ 9 → calculate_alignment (power j) ≡ power j
unfolding calculate_alignment
calculate_alignment-power j h =
    let (low, high) = power_bounds j h in
    align_up_power 3 61 (power j) refl (omega arith) ∙ omega (arith, two_pow_add 3 j)

eights : (q z : ℕ) → q * (z * 8) ≡ q * z * 8
eights q z = grind arith

-- The size of an object: a multiple of the alignment.
size_bounds :
    (obj_size j : ℕ)
    → j ≤ 9
    → 0 < obj_size
    → obj_size + power j ≤ 2 ^ 31
    → (8 ≤ align_up obj_size (power j))
      × (obj_size ≤ align_up obj_size (power j))
      × (align_up obj_size (power j) < 2 ^ 31)
size_bounds obj_size j h some_size small =
    let (low, high) = power_bounds j h in
    let (least, most) = align_up_bounds (3 + j) (61 - j) obj_size (omega arith) (omega arith) in
    let whole = align_up_power (3 + j) (61 - j) obj_size (omega arith) (omega arith) in
    let q = (obj_size + power j - 1) / power j in
    let eight : power j ≡ 2 ^ j * 8 = omega (arith, two_pow_add 3 j) in
    let factor : q * power j ≡ q * 2 ^ j * 8 = ap (λ z. q * z) eight ∙ eights q (2 ^ j) in
    (omega (arith, least, whole, factor), least, omega (arith, most))

-- Nothing, since the name is taken, there is no memory, or eight objects do not fit; or a sound
-- pool of objects of that size and alignment.
abbrev pub Made : {L : ListLib} → Bool → String → ℕ → ℕ → List (Pool L) → Option (Pool L) → Type 0
Made memory name obj_size align pools none =
    (find_mempool_by_name name pools ≢ none)
    ⊎ (memory ≡ false)
    ⊎ Cramped (align_up obj_size align) align
Made memory name obj_size align pools (some p) =
    (obj_size ≤ p.size) × (p.align ≡ align) × ((g : Geometry) × Sound g (λ _. []) p [])

module _ {L : ListLib} (name : String) (obj_size j : ℕ) (ops : Option MempoolOps)
    (pools : List (Pool L)) (h : j ≤ 9) (some_size : 0 < obj_size)
    (small : obj_size + power j ≤ 2 ^ 31) where
  size : ℕ
  size = align_up obj_size (power j)

  from_fit :
      (fit : Fit)
      → Outcome size (power j) fit
      → Made true name obj_size (power j) pools (
          if fit.num_per_slab == 0
          then none
          else some (fresh_pool name obj_size (power j) size ops fit))
  unfolding size fresh_pool
  from_fit fit (inr (zero_num, cramped)) = rw zero_num (inr (inr cramped))
  from_fit fit (inl fits) =
      let (wide, least, most) = size_bounds obj_size j h some_size small in
      let some_num : (fit.num_per_slab == 0) ≡ false = ground (arith, fits.enough) in
      let g : Geometry = record {
        num = fit.num_per_slab;
        size = size;
        order = fit.order;
        k = 3 + j;
        w = 61 - j;
        word = omega arith;
        wide = wide;
        fit = record { enough = fits.enough; small = fits.small; inside = fits.inside };
      } in
      rw some_num
        (least, refl, (g, fresh-Sound g name obj_size (power j) size ops fit refl refl refl refl))

  build : ℕ → ℕ → Run (Option (Pool L))
  build align width = do
    fit ← calculate_slab_order width (sign_extend align)
    ok (if fit.num_per_slab == 0 then none else some (fresh_pool name obj_size align width ops fit))

  build-Made : Ends (Made true name obj_size (power j) pools) (build (power j) size)
  unfolding build size
  build-Made =
      let (low, high) = power_bounds j h in
      let (wide, least, most) = size_bounds obj_size j h some_size small in
      let extended : sign_extend (power j) ≡ power j = ground arith in
      rw extended (
        Ends-bind (calculate_slab_order-Outcome size (power j) (omega arith) high)
          (λ fit found. ends (from_fit fit found)))

  by_name :
      (memory : Bool) (taken : Option (Pool L)) (align width : ℕ)
      → find_mempool_by_name name pools ≡ taken
      → align ≡ power j
      → width ≡ size
      → Ends (Made memory name obj_size (power j) pools) (elim taken [
        | some pool ↦ ok none
        | none ↦ if memory then build align width else ok none
      ])
  by_name memory (some pool) align width e e_align e_width = ends (inl (ground (arith, e)))
  by_name true none align width e e_align e_width = rw (e_align, e_width) build-Made
  by_name false none align width e e_align e_width = ends (inr (inl refl))

  -- For an alignment of 8, 16, …, 4096 and a size of at least one byte and at most 2^31 less the
  -- alignment, mempool_create ends. It returns NULL, and then the name is taken, there is no memory,
  -- or the largest slab has no room for eight objects; or a pool of that alignment and of objects no
  -- smaller than was asked for, which satisfies the invariant of pools with nothing lent.
  pub mempool_create-Made :
      (memory : Bool)
      → Ends
          (Made memory name obj_size (power j) pools)
          (mempool_create memory (some name) obj_size (power j) ops pools)
  unfolding mempool_create size build
  mempool_create-Made memory =
      let (low, high) = power_bounds j h in
      let (wide, least, most) = size_bounds obj_size j h some_size small in
      let align : calculate_alignment (power j) % 2 ^ 32 ≡ power j =
        ap (λ a. a % 2 ^ 32) (calculate_alignment-power j h) ∙ omega arith in
      let extended : sign_extend (power j) ≡ power j = ground arith in
      let narrow : align_up obj_size (power j) % 2 ^ 32 ≡ align_up obj_size (power j) =
        omega arith in
      by_name memory (find_mempool_by_name name pools) (calculate_alignment (power j) % 2 ^ 32)
        (align_up obj_size (sign_extend (calculate_alignment (power j) % 2 ^ 32)) % 2 ^ 32) refl
        align (rw (align, extended) narrow)
