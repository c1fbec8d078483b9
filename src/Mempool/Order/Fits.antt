-- ===== src/Mempool/Order/Fits.antt =====
-- The slab that calculate_slab_order chooses holds its objects.
use native.Mathlib.Nat.{div-mul-le_self, div-le_self}
use treasure_house.Base.{
  ℕ, zero, suc, ◌+◌, ◌-◌, ◌*◌, ◌/◌, ◌%◌, ◌^◌, ◌≤◌, ◌<◌, ◌≡◌, ◌⊎◌, inl, inr, refl, arith, ltb, leb,
  ◌==◌, false,
}
use mathlib.Core.Path.{subst}
use treasure_house.Base.Run.{ok, Ends, ends, Ends-test}
use treasure_house.Mempool.Order.{
  Fit, slab_size, mempool_estimate, order_loop, calculate_slab_order, word_mod,
}

-- At least eight objects, and they fit behind any alignment of the slab's first byte.
pub record Fits (size align : ℕ) (f : Fit) : Type 0 where
  pub enough : 8 ≤ f.num_per_slab
  pub small : f.order ≤ 6
  pub inside : f.num_per_slab * size + align ≤ slab_size f.order

-- Not even the largest slab holds eight objects.
abbrev pub Cramped : ℕ → ℕ → Type 0
Cramped size align = (slab_size 6 - align) / size < 8

-- A fit was found, or there is none.
abbrev pub Outcome : ℕ → ℕ → Fit → Type 0
Outcome size align f = Fits size align f ⊎ ((f.num_per_slab ≡ 0) × Cramped size align)

pub slab_size_bounds : (o : ℕ) → o ≤ 6 → (4096 ≤ slab_size o) × (slab_size o ≤ 2 ^ 18)
unfolding slab_size
slab_size_bounds zero h = omega arith
slab_size_bounds (suc zero) h = omega arith
slab_size_bounds (suc (suc zero)) h = omega arith
slab_size_bounds (suc (suc (suc zero))) h = omega arith
slab_size_bounds (suc (suc (suc (suc zero)))) h = omega arith
slab_size_bounds (suc (suc (suc (suc (suc zero))))) h = omega arith
slab_size_bounds (suc (suc (suc (suc (suc (suc zero)))))) h = omega arith
slab_size_bounds (suc (suc (suc (suc (suc (suc (suc n))))))) h = absurd (omega arith)

module _ (size align : ℕ) (pos : 0 < size) (narrow : align ≤ 4096) where
  -- Under these bounds neither the subtraction nor the cast changes a value.
  estimate_lem :
      (o : ℕ)
      → o ≤ 6
      → mempool_estimate o size align
        ≡ ok ((slab_size o - align) / size, (slab_size o - align) % size)
  unfolding mempool_estimate
  estimate_lem o h =
      let (low, high) = slab_size_bounds o h in
      let sub : (slab_size o + word_mod - align) % word_mod ≡ slab_size o - align = omega arith in
      let whole : (slab_size o - align) / size % 2 ^ 32 ≡ (slab_size o - align) / size =
        omega (arith, div-le_self (slab_size o - align) size) in
      let nonzero : (size == 0) ≡ false = ground arith in rw (nonzero, sub, whole)

  estimate-Fits :
      (o : ℕ)
      → o ≤ 6
      → 8 ≤ (slab_size o - align) / size
      → Fits size align (record {
        num_per_slab = (slab_size o - align) / size;
        order = o;
        left_over = (slab_size o - align) % size;
      })
  estimate-Fits o h many = record {
    enough = many;
    small = h;
    inside = omega (arith, div-mul-le_self (slab_size o - align) size, (slab_size_bounds o h).0);
  }

  -- So far either a fit was found or none, and then not in the last round either.
  order_loop-Outcome :
      (rounds o : ℕ) (best : Fit)
      → rounds + o ≡ 7
      → Fits size align best ⊎ ((best.num_per_slab ≡ 0) × (rounds ≡ 0 → Cramped size align))
      → Ends (Outcome size align) (order_loop rounds o size align best)
  unfolding order_loop
  order_loop-Outcome zero o best h (inl fit) = ends (inl fit)
  order_loop-Outcome zero o best h (inr (e, c)) = ends (inr (e, c refl))
  order_loop-Outcome (suc rounds) o best h was =
      let num = (slab_size o - align) / size in
      let still : num < 8
          → Fits size align best ⊎ ((best.num_per_slab ≡ 0) × (rounds ≡ 0 → Cramped size align)) =
        λ few. elim was [
          | inl fit ↦ inl fit
          | inr (e, _) ↦ inr (
            e,
            λ over.
                let six : o ≡ 6 = omega arith in
                subst (λ k. (slab_size k - align) / size < 8) six few,
          )
        ] in
      let skip : num < 8 → Ends (Outcome size align) (order_loop rounds (o + 1) size align best) =
        λ few. order_loop-Outcome rounds (o + 1) best (omega arith) (still few) in
      rw (estimate_lem o (omega arith)) (
        Ends-test (num == 0) (λ e. skip (ground arith))
          λ _.
            Ends-test (ltb num 8) (λ e. skip (ground arith))
              λ many.
                let fit = estimate-Fits o (omega arith) (ground arith) in
                Ends-test (leb ((slab_size o - align) % size * 8) (slab_size o))
                  (λ _. ends (inl fit))
                  λ _. order_loop-Outcome rounds (o + 1) _ (omega arith) (inl fit))

  -- For objects of at least one byte and an alignment of at most a page, calculate_slab_order ends
  -- without a division by zero: either with a slab that has room for its objects, eight or more,
  -- or with none, and then not even the largest slab has room for eight.
  pub calculate_slab_order-Outcome : Ends (Outcome size align) (calculate_slab_order size align)
  unfolding calculate_slab_order
  calculate_slab_order-Outcome =
      order_loop-Outcome 7 0 (record { num_per_slab = 0; order = 0; left_over = 0 }) (omega arith)
        (inr (refl, λ over. absurd (omega arith)))
