-- ===== src/Heap/Queue.antt =====
-- What the heap promises as a priority queue: its invariant, and what a push and a pop achieve.
use treasure_house.Base.{ℕ, ◌+◌, ◌*◌, ◌≤◌, ◌<◌, ◌≡◌, Bool, Option, some}
use treasure_house.Base.Memory.{bit, count}
use treasure_house.Heap.{HeapT, pointer_size}
use treasure_house.Heap.Order.{Before, IsHeap}

-- The heap holds as many entries as it counts, in a block that has room for `cap` pointers.
pub record IsValid {ℓ} {A : Type ℓ} (ht : HeapT A) : Type ℓ where
  pub ordered : IsHeap ht.cmp_fn ht.elements ht.elem_num
  pub bounded : ht.elem_num ≤ ht.cap
  pub sized : ht.block ≡ pointer_size * ht.cap
  pub width : ht.elem_size ≡ pointer_size

-- `ht'` is valid and holds one `x` more than `ht`.
pub record Pushed {ℓ} {A : Type ℓ} (x : A) (ht ht' : HeapT A) : Type ℓ where
  pub valid : IsValid ht'
  pub number : ht'.elem_num ≡ ht.elem_num + 1
  pub same :
      (p : A → Bool)
      → count p ht'.elements ht'.elem_num ≡ bit (p x) + count p ht.elements ht.elem_num
  pub kept : ht'.cmp_fn ≡ ht.cmp_fn

-- `top`, the root, came out of `ht`, ahead of all that it held, and `ht'` is valid and holds the rest.
pub record Popped {ℓ} {A : Type ℓ} (ht : HeapT A) (r : Option A × HeapT A) : Type ℓ where
  pub top : A
  pub returned : r.0 ≡ some top
  pub root : top ≡ ht.elements 0
  pub valid : IsValid r.1
  pub number : ht.elem_num ≡ r.1.elem_num + 1
  pub first : (i : ℕ) → i < ht.elem_num → Before ht.cmp_fn top (ht.elements i)
  pub same :
      (p : A → Bool)
      → count p ht.elements ht.elem_num ≡ bit (p top) + count p r.1.elements r.1.elem_num
  pub kept : r.1.cmp_fn ≡ ht.cmp_fn
