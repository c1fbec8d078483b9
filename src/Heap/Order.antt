-- ===== src/Heap/Order.antt =====
-- The heap order, what a comparison function has to satisfy, and the accesses that stay inside.
use treasure_house.Base.{ℕ, zero, suc, ◌*◌, ◌≤◌, ◌<◌, ◌≡◌, true, false, arith}
use treasure_house.Base.Int.{ℤ, le_zero, ge_zero}
use treasure_house.Base.Memory.{swapped}
use treasure_house.Base.Run.{ok}
use treasure_house.Heap.{pointer_size, parent, load, swap}

-- The sign of a comparison flips with its arguments, and "not after" is transitive.
pub record IsComparison {ℓ} {A : Type ℓ} (cmp : A → A → ℤ) : Type ℓ where
  pub flips : (a b : A) → ge_zero (cmp a b) ≡ le_zero (cmp b a)
  pub chains :
      (a b c : A) → le_zero (cmp a b) ≡ true → le_zero (cmp b c) ≡ true → le_zero (cmp a c) ≡ true

module _ {ℓ} {A : Type ℓ} (cmp : A → A → ℤ) where
  -- `a` need not come after `b`.
  abbrev pub Before : A → A → Type 0
  Before a b = le_zero (cmp a b) ≡ true

  -- No entry comes before its parent.
  abbrev pub IsHeap : (ℕ → A) → ℕ → Type 0
  IsHeap els n = (c : ℕ) → 0 < c → c < n → Before (els (parent c)) (els c)

  pub Before-refl : IsComparison cmp → (a : A) → Before a a
  Before-refl v a = ground (arith, v.flips a a)

  -- What does not come first comes after.
  pub Before-total : IsComparison cmp → (a b : A) → le_zero (cmp a b) ≡ false → Before b a
  Before-total v a b h = ground (arith, v.flips a b)

  pub root_first-below :
      IsComparison cmp
      → (k : ℕ) (els : ℕ → A) (n i : ℕ) → IsHeap els n
      → i < k
      → i < n
      → Before (els 0) (els i)
  root_first-below v zero els n i h f p = absurd (omega arith)
  root_first-below v (suc k) els n zero h f p = Before-refl v (els 0)
  root_first-below v (suc k) els n (suc i) h f p =
      v.chains (els 0) (els (parent (suc i))) (els (suc i))
        (root_first-below v k els n (parent (suc i)) h (omega arith) (omega arith))
        (h (suc i) (omega arith) p)

module _ {ℓ} {A : Type ℓ} (block : ℕ) (els : ℕ → A) (n : ℕ) (fits : pointer_size * n ≤ block) where
  pub load-ok : (i : ℕ) → i < n → load block els i ≡ ok (els i)
  unfolding load
  load-ok i h = ground arith

  pub swap-ok : (i j : ℕ) → i < n → j < n → swap block els i j ≡ ok (swapped els i j)
  unfolding swap
  swap-ok i j hi hj = ground arith
