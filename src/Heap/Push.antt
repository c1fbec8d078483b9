-- ===== src/Heap/Push.antt =====
-- heap_push.
use treasure_house.Base.{
  ℕ, ◌+◌, ◌-◌, ◌*◌, ◌%◌, ◌^◌, ◌<◌, ◌≡◌, refl, ◌∙◌, true, arith, ◌==◌, Bool-cases, inl, inr,
}
use treasure_house.Base.Int.{ℤ}
use treasure_house.Base.Memory.{update, count-update_end}
use treasure_house.Base.Run.{Ends, ends, Ends-bind, Ends-weaken}
use treasure_house.Heap.{HeapT, inside, heap_init_cap, store, grow, push_last, heap_push}
use treasure_house.Heap.Order.{IsComparison, IsHeap}
use treasure_house.Heap.SiftDown.{RisesAt, sift_down_loop-Ordered}
use treasure_house.Heap.Queue.{IsValid, Pushed}

module _ {ℓ} {A : Type ℓ} where
  RisesAt-update :
      (cmp : A → A → ℤ) (compares : IsComparison cmp) (els : ℕ → A) (n : ℕ) (x : A)
      → IsHeap cmp els n
      → RisesAt cmp compares (update els n x) (n + 1) n
  RisesAt-update cmp compares els n x h = record {
    inside = omega arith;
    edges = λ c p q r. ground (arith, h c);
    bridged = λ c p q r s. absurd (omega arith);
  }

  push_last-Pushed :
      (ht : HeapT A)
      → IsComparison ht.cmp_fn
      → IsValid ht
      → ht.elem_num < ht.cap
      → ht.cap < 2 ^ 29
      → (x : A) → Ends (Pushed x ht) (push_last ht x)
  unfolding push_last store
  push_last-Pushed ht compares v room small x =
      let n = ht.elem_num in
      let els = update ht.elements n x in
      let wide : (n + 1) % 2 ^ 32 ≡ n + 1 = omega arith in
      let before : n + 1 - 1 ≡ n = omega arith in
      let fits : inside ht.block n ≡ true = ground (arith, v.sized) in
      let starts = RisesAt-update ht.cmp_fn compares ht.elements n x v.ordered in
      rw (fits, wide, before)
        (Ends-bind
          (sift_down_loop-Ordered ht.cmp_fn compares ht.block (n + 1) (omega (arith, v.sized))
            (n + 1) els n (omega arith) starts)
          λ g s. ends (record {
            valid = record {
              ordered = s.0;
              bounded = omega arith;
              sized = v.sized;
              width = v.width;
            };
            number = refl;
            same = λ p. s.1 p ∙ count-update_end p ht.elements n x;
            kept = refl;
          }))

  -- Under a comparison whose sign flips when its arguments are swapped, and that chains, heap_push on a
  -- valid heap with a capacity under 2^29 - 16 runs inside its block and ends, with
  -- a valid heap of the old entries and the new one.
  pub heap_push-Pushed :
      (ht : HeapT A)
      → IsComparison ht.cmp_fn
      → IsValid ht
      → ht.cap + heap_init_cap < 2 ^ 29
      → (x : A) → Ends (Pushed x ht) (heap_push ht x)
  unfolding heap_push grow
  heap_push-Pushed ht compares v small x = elim (Bool-cases (ht.cap == ht.elem_num)) [
    | inl full ↦
        let roomy = record ht {
          cap = (ht.cap + heap_init_cap) % 2 ^ 32;
          block = ht.elem_size * ((ht.cap + heap_init_cap) % 2 ^ 32) % 2 ^ 32;
        } in
        rw full (
          Ends-weaken
            (push_last-Pushed roomy compares
              (record {
                ordered = v.ordered;
                bounded = omega arith;
                sized = rw v.width (omega arith);
                width = v.width;
              })
              (ground arith) (omega arith) x)
            (λ r p. record { valid = p.valid; number = p.number; same = p.same; kept = p.kept }))
    | inr room ↦ rw room (push_last-Pushed ht compares v (ground arith) (omega arith) x)
  ]
