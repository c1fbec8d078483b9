-- ===== src/Heap/SiftDown.antt =====
-- sift_down, which restores the order after a new entry was put last.
use treasure_house.Base.{ℕ, zero, suc, ◌*◌, ◌≤◌, ◌<◌, ◌≡◌, refl, ◌∙◌, ◌≢◌, false, arith, ltb}
use treasure_house.Base.Int.{ℤ, le_zero}
use treasure_house.Base.Memory.{swapped, SameItems, count-swapped}
use treasure_house.Base.Run.{Ends, ends, Ends-weaken, Ends-test}
use treasure_house.Heap.{pointer_size, parent, sift_down_loop}
use treasure_house.Heap.Order.{IsComparison, Before, IsHeap, Before-total, load-ok, swap-ok}

module _ {ℓ} {A : Type ℓ} (cmp : A → A → ℤ) (valid : IsComparison cmp) where
  -- Only the edge above `i` may be out of order, and the entries below `i` fit its parent.
  pub record RisesAt (els : ℕ → A) (n i : ℕ) : Type ℓ where
    pub inside : i < n
    pub edges : (c : ℕ) → 0 < c → c < n → c ≢ i → Before cmp (els (parent c)) (els c)
    pub bridged :
        (c : ℕ) → 0 < c → c < n → parent c ≡ i → 0 < i → Before cmp (els (parent i)) (els c)

  -- `g` holds the entries of `f`, in heap order.
  abbrev pub Ordered : (ℕ → A) → ℕ → (ℕ → A) → Type ℓ
  Ordered f n g = IsHeap cmp g n × SameItems g f n

  swapped-RisesAt :
      (els : ℕ → A) (n i : ℕ)
      → RisesAt els n i
      → 0 < i
      → le_zero (cmp (els (parent i)) (els i)) ≡ false
      → RisesAt (swapped els i (parent i)) n (parent i)
  swapped-RisesAt els n i v pos below =
      let turned = Before-total cmp valid (els (parent i)) (els i) below in
      record {
        inside = omega (arith, v.inside);
        edges = λ c p q r.
            ground (
              arith,
              turned,
              v.edges c,
              v.bridged c,
              valid.chains (els i) (els (parent i)) (els c),
            );
        bridged = λ c p q r s. ground (
          arith,
          v.edges c,
          v.edges (parent i),
          valid.chains (els (parent (parent i))) (els (parent i)) (els c),
        );
      }

  pub sift_down_loop-Ordered :
      (block n : ℕ)
      → pointer_size * n ≤ block
      → (fuel : ℕ) (els : ℕ → A) (last : ℕ) → last < fuel
      → RisesAt els n last
      → Ends (Ordered els n) (sift_down_loop fuel block cmp els last)
  unfolding sift_down_loop
  sift_down_loop-Ordered block n fits zero els last f v = absurd (omega arith)
  sift_down_loop-Ordered block n fits (suc fuel) els last f v =
      let above : parent last < n = omega (arith, v.inside) in
      Ends-test (ltb 0 last)
        (λ pos.
          rw
            (
              load-ok block els n fits (parent last) above,
              load-ok block els n fits last v.inside,
              swap-ok block els n fits last (parent last) v.inside above,
            )
            (Ends-test (le_zero (cmp (els (parent last)) (els last)))
              (λ settled. ends (λ c p q. ground (arith, v.edges c), λ p. refl))
              (λ below.
                Ends-weaken
                  (sift_down_loop-Ordered block n fits fuel (swapped els last (parent last))
                    (parent last) (ground arith)
                    (swapped-RisesAt els n last v (ground arith) below))
                  λ g s.
                    (s.0, λ p. s.1 p ∙ count-swapped els n last (parent last) v.inside above p))))
        λ root. ends (λ c p q. ground (arith, v.edges c), λ p. refl)
