-- ===== src/Heap/SiftUp.antt =====
-- sift_up, which closes the gap at the root with the last entry.
use treasure_house.Base.{
  ℕ, zero, suc, ◌+◌, ◌*◌, ◌≤◌, ◌<◌, ◌≡◌, refl, ◌∙◌, ◌≢◌, arith, ltb, Bool-cases, inl, inr, ◌⊎◌,
}
use treasure_house.Base.Int.{ℤ, lt_zero, ge_zero}
use treasure_house.Base.Memory.{swapped, count-swapped}
use treasure_house.Base.Run.{Ends, ends, Ends-bind, Ends-weaken, Ends-test}
use treasure_house.Heap.{pointer_size, parent, pick_child, sift_up_loop}
use treasure_house.Heap.Order.{IsComparison, Before, Before-refl, load-ok, swap-ok}
use treasure_house.Heap.SiftDown.{Ordered}

module _ {ℓ} {A : Type ℓ} (cmp : A → A → ℤ) (valid : IsComparison cmp) where
  -- Only the edges below `i` may be out of order, and the entries below `i` fit its parent.
  pub record FallsAt (els : ℕ → A) (n i : ℕ) : Type ℓ where
    pub edges : (c : ℕ) → 0 < c → c < n → parent c ≢ i → Before cmp (els (parent c)) (els c)
    pub bridged :
        (c : ℕ) → 0 < c → c < n → parent c ≡ i → 0 < i → Before cmp (els (parent i)) (els c)

  -- `child` is a child of `i` that comes first.
  record IsFirstChild (els : ℕ → A) (n i child : ℕ) : Type ℓ where
    inside : child < n
    below : parent child ≡ i
    positive : 0 < child
    first : (c : ℕ) → 0 < c → c < n → parent c ≡ i → Before cmp (els child) (els c)

  children : (i c : ℕ) → 0 < c → parent c ≡ i → (c ≡ 2 * i + 1) ⊎ (c ≡ 2 * i + 1 + 1)
  children i c p r = grind arith

  first_of_two :
      (els : ℕ → A) (n i child : ℕ)
      → Before cmp (els child) (els (2 * i + 1))
      → (2 * i + 1 + 1 < n → Before cmp (els child) (els (2 * i + 1 + 1)))
      → (c : ℕ) → 0 < c
      → c < n
      → parent c ≡ i
      → Before cmp (els child) (els c)
  first_of_two els n i child l r c p q e = elim (children i c p e) [
    | inl is ↦ rw is l
    | inr is ↦ rw is (r (omega arith))
  ]

  pick_child-IsFirstChild :
      (block n : ℕ)
      → pointer_size * n ≤ block
      → (els : ℕ → A) (i : ℕ) → 2 * i + 1 < n
      → Ends (IsFirstChild els n i) (pick_child block cmp els n (2 * i + 1))
  unfolding pick_child
  pick_child-IsFirstChild block n fits els i h =
      let left = 2 * i + 1 in
      let refl_left = Before-refl cmp valid (els left) in
      Ends-test (ltb (left + 1) n)
        (λ two.
          let refl_right = Before-refl cmp valid (els (left + 1)) in
          let flips = valid.flips (els (left + 1)) (els left) in
          rw (load-ok block els n fits (left + 1) (ground arith), load-ok block els n fits left h)
            (ends (elim (Bool-cases (lt_zero (cmp (els (left + 1)) (els left)))) [
              | inl right ↦ rw right (record {
                inside = ground arith;
                below = omega arith;
                positive = omega arith;
                first = first_of_two els n i (left + 1) (ground arith) (λ _. refl_right);
              })
              | inr stay ↦ rw stay (record {
                inside = h;
                below = omega arith;
                positive = omega arith;
                first = first_of_two els n i left refl_left (λ _. ground (arith, flips));
              })
            ])))
        (λ one. ends (record {
          inside = h;
          below = omega arith;
          positive = omega arith;
          first = first_of_two els n i left refl_left (λ l. absurd (ground arith));
        }))

  swapped-FallsAt :
      (els : ℕ → A) (n i child : ℕ)
      → FallsAt els n i
      → IsFirstChild els n i child
      → Before cmp (els child) (els i)
      → FallsAt (swapped els child i) n child
  swapped-FallsAt els n i child v w turned = record {
    edges = λ c p q r. ground (arith, turned, w.below, v.edges c, v.bridged child, w.first c);
    bridged = λ c p q r s. ground (arith, w.below, v.edges c);
  }

  pub sift_up_loop-Ordered :
      (block n : ℕ)
      → pointer_size * n ≤ block
      → (fuel : ℕ) (els : ℕ → A) (i : ℕ) → n < fuel + i
      → i < n
      → FallsAt els n i
      → Ends (Ordered cmp valid els n) (sift_up_loop fuel block cmp n els i)
  unfolding sift_up_loop
  sift_up_loop-Ordered block n fits zero els i f hi v = absurd (omega arith)
  sift_up_loop-Ordered block n fits (suc fuel) els i f hi v =
      Ends-test (ltb (2 * i + 1) n)
        (λ more. Ends-bind (pick_child-IsFirstChild block n fits els i (ground arith)) λ child w.
          rw
            (
              load-ok block els n fits child w.inside,
              load-ok block els n fits i hi,
              swap-ok block els n fits child i w.inside hi,
            )
            (Ends-test (ge_zero (cmp (els child) (els i)))
              (λ settled. ends (
                (λ c p q. ground (
                  arith,
                  v.edges c,
                  w.first c,
                  valid.flips (els child) (els i),
                  valid.chains (els i) (els child) (els c),
                )),
                λ p. refl,
              ))
              λ below.
                Ends-weaken
                  (sift_up_loop-Ordered block n fits fuel (swapped els child i) child
                    (omega (arith, w.below, w.positive)) w.inside
                    (swapped-FallsAt els n i child v w (ground arith)))
                  λ g s. (s.0, λ p. s.1 p ∙ count-swapped els n child i w.inside hi p)))
        λ leaf. ends ((λ c p q. ground (arith, v.edges c)), λ p. refl)
