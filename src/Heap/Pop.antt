-- ===== src/Heap/Pop.antt =====
-- heap_pop.
use treasure_house.Base.{
  none, some, zero, ℕ, suc, ◌+◌, ◌-◌, ◌*◌, ◌<◌, ◌≡◌, refl, ◌∙◌, ap, sym, Bool, true, false, arith,
  ◌==◌,
}
use treasure_house.Base.Int.{ℤ}
use treasure_house.Base.Memory.{bit, count, update, count-update}
use treasure_house.Base.Run.{ok, Ends, ends, Ends-bind, Ends-test}
use treasure_house.Heap.{HeapT, inside, pointer_size, sift_up, heap_pop, heap_top, load}
use treasure_house.Heap.Order.{IsComparison, IsHeap, root_first-below}
use treasure_house.Heap.SiftUp.{FallsAt, sift_up_loop-Ordered}
use treasure_house.Heap.Queue.{IsValid, Popped}

module _ {ℓ} {A : Type ℓ} where
  FallsAt-update :
      (cmp : A → A → ℤ) (compares : IsComparison cmp) (els : ℕ → A) (m : ℕ)
      → IsHeap cmp els (suc m)
      → FallsAt cmp compares (update els 0 (els m)) m 0
  FallsAt-update cmp compares els m h = record {
    edges = λ c p q r. ground (arith, h c);
    bridged = λ c p q r s. absurd (omega arith);
  }

  -- The last entry takes the place of the first.
  count-replaced :
      (p : A → Bool) (els : ℕ → A) (m : ℕ)
      → 0 < m
      → count p els (suc m) ≡ bit (p (els 0)) + count p (update els 0 (els m)) m
  unfolding count
  count-replaced p els m h = omega (arith, count-update p els m 0 (els m) h)

  count-single :
      (p : A → Bool) (els : ℕ → A) (m : ℕ)
      → m ≡ 0
      → count p els (suc m) ≡ bit (p (els 0)) + count p els m
  unfolding count
  count-single p els m h = rw h

  -- The entries of `ht` and the one past them, less the first, in heap order.
  record Closed (ht ht' : HeapT A) : Type ℓ where
    valid : IsValid ht'
    number : ht'.elem_num ≡ ht.elem_num
    same :
        (p : A → Bool)
        → count p ht.elements (suc ht.elem_num)
          ≡ bit (p (ht.elements 0)) + count p ht'.elements ht.elem_num
    kept : ht'.cmp_fn ≡ ht.cmp_fn

  sift_up-Closed :
      (ht : HeapT A)
      → IsComparison ht.cmp_fn
      → IsHeap ht.cmp_fn ht.elements (suc ht.elem_num)
      → ht.elem_num < ht.cap
      → ht.block ≡ pointer_size * ht.cap
      → ht.elem_size ≡ pointer_size
      → Ends (Closed ht) (sift_up ht ht.elem_num)
  unfolding sift_up
  sift_up-Closed ht compares h room sized width =
      let m = ht.elem_num in
      let fits : inside ht.block m ≡ true = ground arith in
      let fits_top : inside ht.block 0 ≡ true = ground arith in
      Ends-test (m == 0)
        (λ last. ends (record {
          valid = record {
            ordered = λ c p q. absurd (ground arith);
            bounded = omega arith;
            sized = sized;
            width = width;
          };
          number = refl;
          same = λ p. count-single p ht.elements m (ground arith);
          kept = refl;
        }))
        λ more.
          rw (fits, fits_top)
            (Ends-bind
              (sift_up_loop-Ordered ht.cmp_fn compares ht.block m (omega arith) (m + 1)
                (update ht.elements 0 (ht.elements m)) 0 (omega arith) (ground arith)
                (FallsAt-update ht.cmp_fn compares ht.elements m h))
              λ g s. ends (record {
                valid = record {
                  ordered = s.0;
                  bounded = omega arith;
                  sized = sized;
                  width = width;
                };
                number = refl;
                same = λ p. omega (arith, count-replaced p ht.elements m (ground arith), s.1 p);
                kept = refl;
              }))

  pub heap_top-root :
      (ht : HeapT A)
      → IsValid ht
      → (ht.elem_num == 0) ≡ false
      → heap_top ht ≡ ok (some (ht.elements 0))
  unfolding heap_top load
  heap_top-root ht v some_left =
      let fits_top : inside ht.block 0 ≡ true = ground (arith, v.sized, v.bounded) in
      rw (some_left, fits_top) refl

  pub heap_top-empty : (ht : HeapT A) → (ht.elem_num == 0) ≡ true → heap_top ht ≡ ok none
  unfolding heap_top
  heap_top-empty ht empty = rw empty refl

  -- heap_pop on a valid heap that is not empty runs inside its block and ends; it returns an entry
  -- that no other entry comes before, and leaves a valid heap of exactly the other entries.
  pub heap_pop-Popped :
      (ht : HeapT A)
      → IsComparison ht.cmp_fn
      → IsValid ht
      → 0 < ht.elem_num
      → Ends (Popped ht) (heap_pop ht)
  unfolding heap_pop
  heap_pop-Popped ht compares v h =
      let m = ht.elem_num - 1 in
      let e : ht.elem_num ≡ suc m = omega arith in
      let some_left : (ht.elem_num == 0) ≡ false = ground arith in
      let fits_top : inside ht.block 0 ≡ true = ground (arith, v.sized, v.bounded) in
      let low = record ht { elem_num = m } in
      rw (some_left, fits_top)
        (Ends-bind
          (sift_up-Closed low compares (rw e at v.ordered) (omega (arith, v.bounded)) v.sized
            v.width)
          λ ht' s. ends (record {
            top = ht.elements 0;
            returned = refl;
            root = refl;
            valid = s.valid;
            number = omega (arith, s.number);
            first = λ i l.
                root_first-below ht.cmp_fn compares (suc i) ht.elements ht.elem_num i v.ordered
                  (omega arith) l;
            same = λ p.
                ap (count p ht.elements) e
                ∙ s.same p
                ∙ ap (λ k. bit (p (ht.elements 0)) + count p ht'.elements k) (sym s.number);
            kept = s.kept;
          }))

  pub none_ahead :
      (p : A → Bool) (els : ℕ → A) (n : ℕ)
      → ((i : ℕ) → i < n → p (els i) ≡ false)
      → count p els n ≡ 0
  unfolding count
  none_ahead p els zero h = refl
  none_ahead p els (suc n) h =
      ground (arith, h n (omega arith), none_ahead p els n (λ i l. h i (omega arith)))
