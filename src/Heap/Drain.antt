-- ===== src/Heap/Drain.antt =====
-- Calls of heap_pop one after the other, as the scheduler makes them while timers are due.
use treasure_house.Base.{
  ℕ, zero, suc, ◌+◌, ◌≡◌, refl, Bool, not, List, [], ◌∷◌, Option, none, some, arith, subst,
}
use treasure_house.Base.Int.{le_zero, ℤ}
use treasure_house.Base.Memory.{bit, count}
use treasure_house.Base.Run.{Run, ok, Ends, ends, Ends-bind, ◌>>=◌}
use treasure_house.Heap.{HeapT, heap_pop}
use treasure_house.Heap.Order.{Before, IsComparison}
use treasure_house.Heap.Queue.{IsValid}
use treasure_house.Heap.Pop.{heap_pop-Popped, none_ahead}

module _ {ℓ} {A : Type ℓ} where
  abbrev pub add_to : Option A → List A → List A
  add_to none xs = xs
  add_to (some x) xs = x ∷ xs

  -- What `n` calls return, in order.
  abbrev pub pops : ℕ → HeapT A → Run (List A)
  pops zero ht = ok []
  pops (suc n) ht = heap_pop ht >>= λ (x, left). pops n left >>= λ xs. ok (add_to x xs)

  -- How many of the list satisfy `p`.
  abbrev pub tally : (A → Bool) → List A → ℕ
  tally p [] = 0
  tally p (x ∷ xs) = bit (p x) + tally p xs

  abbrev pub Ahead : (A → A → ℤ) → A → List A → Type 0
  Ahead cmp a [] = Unit {0}
  Ahead cmp a (x ∷ xs) = Before cmp a x × Ahead cmp a xs

  abbrev pub Sorted : (A → A → ℤ) → List A → Type 0
  Sorted cmp [] = Unit {0}
  Sorted cmp (x ∷ xs) = Ahead cmp x xs × Sorted cmp xs

  pub Ahead-tally :
      (cmp : A → A → ℤ) (a : A) (xs : List A)
      → tally (λ b. not (le_zero (cmp a b))) xs ≡ 0
      → Ahead cmp a xs
  Ahead-tally cmp a [] e = tt
  Ahead-tally cmp a (x ∷ xs) e = (ground arith, Ahead-tally cmp a xs (ground arith))

  -- From a valid heap, under a comparison whose sign flips and chains, as many calls of heap_pop as
  -- it has entries end, and return exactly its entries, each after all that come before it.
  pub pops-Sorted :
      (n : ℕ) (ht : HeapT A)
      → IsComparison ht.cmp_fn
      → IsValid ht
      → ht.elem_num ≡ n
      → Ends
          (λ xs.
            Sorted ht.cmp_fn xs × ((p : A → Bool) → tally p xs ≡ count p ht.elements ht.elem_num))
          (pops n ht)
  unfolding count
  pops-Sorted zero ht compares v e = ends (tt, λ p. rw e refl)
  pops-Sorted (suc n) ht compares v e =
      Ends-bind (heap_pop-Popped ht compares v (omega arith)) λ r s.
        Ends-bind (pops-Sorted n r.1 (rw s.kept compares) s.valid (omega (arith, s.number)))
          λ xs (sorted, same). rw s.returned (
            let late : A → Bool = λ b. not (le_zero (ht.cmp_fn s.top b)) in
            let none_late =
              none_ahead late ht.elements ht.elem_num (λ i l. ground (arith, s.first i l)) in
            ends (
              (
                Ahead-tally ht.cmp_fn s.top xs (ground (arith, none_late, same late, s.same late)),
                subst (λ c. Sorted c xs) s.kept sorted,
              ),
              λ p. omega (arith, same p, s.same p),
            ))
