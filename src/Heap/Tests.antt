-- ===== src/Heap/Tests.antt =====
-- A small heap of numbers: runs of the operations, and the theorems at it.
use treasure_house.Base.{
  Bool, ℕ, ◌+◌, ◌-◌, ◌≡◌, refl, Option, none, some, arith, leb, if◌then◌else◌,
}
use treasure_house.Base.Int.{ℤ, pos, negsuc}
use treasure_house.Base.Run.{Run, ok, Ends, ◌>>=◌}
use treasure_house.Heap.{
  HeapT, load, store, swap, sift_down, sift_up, grow, push_last, heap_create, heap_push, heap_pop,
  heap_top,
}
use treasure_house.Heap.Order.{IsComparison}
use treasure_house.Heap.Queue.{IsValid, Pushed, Popped}
use treasure_house.Heap.Push.{heap_push-Pushed}
use treasure_house.Heap.Pop.{heap_pop-Popped}
use treasure_house.Base.Memory.{count}
use treasure_house.Heap.Drain.{pops, tally, Sorted, pops-Sorted}

by_size : ℕ → ℕ → ℤ
by_size a b = if leb b a then pos (a - b) else negsuc (b - a - 1)

by_size-IsComparison : IsComparison by_size
unfolding by_size
by_size-IsComparison = record { flips = λ a b. ground arith; chains = λ a b c p q. ground arith }

-- Five numbers in order, with room for sixteen.
abbrev sample : HeapT ℕ
sample = record {
  elements = λ i. i + 3;
  block = 128;
  cmp_fn = by_size;
  elem_size = 8;
  elem_num = 5;
  cap = 16;
}

sample-IsValid : IsValid sample
unfolding by_size
sample-IsValid = record {
  ordered = λ c p q. ground arith;
  bounded = omega arith;
  sized = refl;
  width = refl;
}

heap_push-Pushed_example : Ends (Pushed 1 sample) (heap_push sample 1)
heap_push-Pushed_example =
    heap_push-Pushed sample by_size-IsComparison sample-IsValid (omega arith) 1

heap_pop-Popped_example : Ends (Popped sample) (heap_pop sample)
heap_pop-Popped_example = heap_pop-Popped sample by_size-IsComparison sample-IsValid (omega arith)

pops-Sorted_example :
    Ends
      (λ xs.
        Sorted by_size xs × ((p : ℕ → Bool) → tally p xs ≡ count p sample.elements sample.elem_num))
      (pops sample.elem_num sample)
pops-Sorted_example = pops-Sorted sample.elem_num sample by_size-IsComparison sample-IsValid refl

-- The number that a run returns.
abbrev popped : {A : Type 0} → Run (Option A × HeapT A) → Run (Option A)
popped r = r >>= λ (x, _). ok x

-- Three numbers come out by size, then NULL.
session : Run (Option ℕ)
unfolding heap_create heap_push push_last grow store swap sift_down
session = do
  a ← heap_push (heap_create by_size (λ _. 0)) 7
  b ← heap_push a 2
  c ← heap_push b 5
  heap_top c

session_result : session ≡ ok (some 2)
unfolding session heap_top load by_size
session_result = refl

drained : Run (Option ℕ)
unfolding session
drained = do
  a ← heap_push (heap_create by_size (λ _. 0)) 7
  b ← heap_push a 2
  (_, c) ← heap_pop b
  (_, d) ← heap_pop c
  (x, _) ← heap_pop d
  ok x

drained_result : drained ≡ ok none
unfolding drained heap_pop sift_up load by_size
drained_result = refl
