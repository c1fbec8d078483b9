-- ===== src/Base/Memory.antt =====
-- Arrays as functions from the index, and how often a property holds among their first entries.
use Prim.Native.Nat.{ℕ, zero, suc, ◌+◌, ◌<◌}
use mathlib.Core.Path.{◌≡◌, refl}
use mathlib.Core.Bool.{Bool, true, false}
use native.Mathlib.Omega.{arith}
use native.Mathlib.Numerals.{add-one}
use treasure_house.Base.Tests.{◌==◌, if◌then◌else◌}

abbrev pub bit : Bool → ℕ
bit true = 1
bit false = 0

module _ {ℓ} {A : Type ℓ} where
  -- a[i] = v
  abbrev pub update : (ℕ → A) → ℕ → A → ℕ → A
  update f i v j = if i == j then v else f j

  pub update-same : (f : ℕ → A) (i : ℕ) (v : A) → update f i v i ≡ v
  update-same f i v = ground arith

  pub update-other : (f : ℕ → A) (i : ℕ) (v : A) (j : ℕ) → (i == j) ≡ false → update f i v j ≡ f j
  update-other f i v j other = ground arith

  -- Entries `i` and `j` trade places.
  abbrev pub swapped : (ℕ → A) → ℕ → ℕ → ℕ → A
  swapped f i j = update (update f i (f j)) j (f i)

  -- How many of the entries 0, …, n - 1 satisfy `p`.
  unfoldable pub count : (A → Bool) → (ℕ → A) → ℕ → ℕ
  count p f zero = 0
  count p f (suc n) = bit (p (f n)) + count p f n

  -- Two arrays hold the same entries, each as often.
  abbrev pub SameItems : (ℕ → A) → (ℕ → A) → ℕ → Type ℓ
  SameItems f g n = (p : A → Bool) → count p f n ≡ count p g n

  pub count-update_outside :
      (p : A → Bool) (f : ℕ → A) (n i : ℕ) (v : A)
      → (i < n → ⊥)
      → count p (update f i v) n ≡ count p f n
  unfolding count
  count-update_outside p f zero i v h = refl
  count-update_outside p f (suc n) i v h =
      ground (arith, count-update_outside p f n i v (λ l. h (omega arith)))

  pub count-update :
      (p : A → Bool) (f : ℕ → A) (n i : ℕ) (v : A)
      → i < n
      → count p (update f i v) n + bit (p (f i)) ≡ count p f n + bit (p v)
  unfolding count
  count-update p f zero i v h = absurd (omega arith)
  count-update p f (suc n) i v h =
      ground (arith, count-update p f n i v, count-update_outside p f n i v)

  pub count-swapped : (f : ℕ → A) (n i j : ℕ) → i < n → j < n → SameItems (swapped f i j) f n
  count-swapped f n i j hi hj p =
      ground (arith, count-update p (update f i (f j)) n j (f i) hj, count-update p f n i (f j) hi)

  -- Writing at the end adds one entry.
  pub count-update_end :
      (p : A → Bool) (f : ℕ → A) (n : ℕ) (v : A)
      → count p (update f n v) (n + 1) ≡ bit (p v) + count p f n
  unfolding count
  count-update_end p f n v =
      ground (arith, add-one n, count-update_outside p f n n v (λ l. omega arith))
