-- ===== src/Mempool/Slab/Freelist.antt =====
-- The free list of a slab is a stack of distinct indices.
use treasure_house.Base.{
  ℕ, zero, suc, ◌+◌, ◌-◌, ◌^◌, ◌≤◌, ◌<◌, ◌≡◌, refl, ap, false, List, [], ◌∷◌, arith, ◌==◌, length,
  if◌then◌else◌,
}
use treasure_house.Base.Memory.{update}
use treasure_house.Base.{Bool-cases, inl, inr, ◌∙◌}
use treasure_house.Lists.{has, remove}
use treasure_house.Lists.Remove.{has-remove_other, remove-absent}
use treasure_house.Mempool.Slab.{Slab, no_idx, chain_indices, init_freelist, take_free, put_free}

-- From `i` the links of `freelist` lead through `xs` to -1.
abbrev pub Chain : (ℕ → ℕ) → ℕ → List ℕ → Type 0
Chain freelist i [] = i ≡ no_idx
Chain freelist i (x ∷ xs) = (i ≡ x) × Chain freelist (freelist x) xs

-- The entries are distinct and below `n`.
abbrev pub Distinct : ℕ → List ℕ → Type 0
Distinct n [] = Unit {0}
Distinct n (x ∷ xs) = (x < n) × (has x xs ≡ false) × Distinct n xs

-- The free objects of a slab of `num` are those of the indices `xs`, the next one first.
pub record FreeIndices (num : ℕ) (s : Slab) (xs : List ℕ) : Type 0 where
  pub chain : Chain s.freelist s.free_idx xs
  pub distinct : Distinct num xs
  pub counted : s.free ≡ length xs
  pub total : s.used + s.free ≡ num
  pub small : num < 2 ^ 15

pub Chain-update :
    (fl : ℕ → ℕ) (i j v : ℕ) (xs : List ℕ)
    → has j xs ≡ false
    → Chain fl i xs
    → Chain (update fl j v) i xs
Chain-update fl i j v [] out c = c
Chain-update fl i j v (x ∷ xs) out c = ground (arith, Chain-update fl (fl x) j v xs)

-- i, i + 1, …, of which there are n
abbrev pub indices_from : ℕ → ℕ → List ℕ
indices_from i zero = []
indices_from i (suc n) = i ∷ indices_from (suc i) n

module _ {num : ℕ} {s : Slab} where
  -- Taking an object pops its index.
  pub take_free-FreeIndices :
      (x : ℕ) (xs : List ℕ)
      → FreeIndices num s (x ∷ xs)
      → FreeIndices num (take_free s) xs × (s.free_idx ≡ x) × (x < num) × (has x xs ≡ false)
  unfolding take_free
  take_free-FreeIndices x xs v =
      let (at, c) = v.chain in
      let (below, out, d) = v.distinct in
      (
        record {
          chain = rw at (Chain-update s.freelist (s.freelist x) x no_idx xs out c);
          distinct = d;
          counted = omega (arith, v.counted, v.total, v.small);
          total = omega (arith, v.counted, v.total, v.small);
          small = v.small;
        },
        at,
        below,
        out,
      )

  pub take_free-used :
      (x : ℕ) (xs : List ℕ) → FreeIndices num s (x ∷ xs) → (take_free s).used ≡ s.used + 1
  unfolding take_free
  take_free-used x xs v = omega (arith, v.counted, v.total, v.small)

  -- Putting an object back that is not free pushes its index.
  pub put_free-FreeIndices :
      (i : ℕ) (xs : List ℕ)
      → FreeIndices num s xs
      → i < num
      → has i xs ≡ false
      → 0 < s.used
      → FreeIndices num (put_free i s) (i ∷ xs)
  unfolding put_free
  put_free-FreeIndices i xs v below out used = record {
    chain = (refl, rw same (Chain-update s.freelist s.free_idx i s.free_idx xs out v.chain));
    distinct = (below, out, v.distinct);
    counted = omega (arith, v.counted, v.total, v.small);
    total = omega (arith, v.counted, v.total, v.small);
    small = v.small;
  }
    where
      same : update s.freelist i s.free_idx i ≡ s.free_idx
      same = ground arith

chain_indices-at : (n : ℕ) (fl : ℕ → ℕ) (j : ℕ) → j < n → n < 2 ^ 15 → chain_indices n fl j ≡ j + 1
unfolding chain_indices
chain_indices-at zero fl j h small = absurd (omega arith)
chain_indices-at (suc n) fl j h small = ground (arith, chain_indices-at n fl j)

module _ (fl : ℕ → ℕ) (num : ℕ) (small : num < 2 ^ 15) where
  init_freelist-at :
      (j : ℕ) → j < num → init_freelist fl num j ≡ (if j + 1 == num then no_idx else j + 1)
  unfolding init_freelist
  init_freelist-at j h = ground (arith, chain_indices-at (num - 1) fl j)

  pub init_freelist-Chain :
      (n i : ℕ) → i + suc n ≡ num → Chain (init_freelist fl num) i (indices_from i (suc n))
  init_freelist-Chain zero i h = (refl, ground (arith, init_freelist-at i))
  init_freelist-Chain (suc n) i h =
      let next : init_freelist fl num i ≡ suc i = ground (arith, init_freelist-at i) in
      (refl, rw next (init_freelist-Chain n (suc i) (omega arith)))

has-indices_from : (n i j : ℕ) → j < i → has j (indices_from i n) ≡ false
has-indices_from zero i j h = refl
has-indices_from (suc n) i j h = ground (arith, has-indices_from n (suc i) j)

pub Distinct-indices_from : (n i m : ℕ) → i + n ≤ m → Distinct m (indices_from i n)
Distinct-indices_from zero i m h = tt
Distinct-indices_from (suc n) i m h = (
  omega arith,
  has-indices_from n (suc i) i (omega arith),
  Distinct-indices_from n (suc i) m (omega arith),
)

pub length-indices_from : (n i : ℕ) → length (indices_from i n) ≡ n
length-indices_from zero i = refl
length-indices_from (suc n) i = ap suc (length-indices_from n (suc i))

-- Distinct entries below `n` are no more than `n`.
Distinct-remove : (n : ℕ) (xs : List ℕ) → Distinct (suc n) xs → Distinct n (remove n xs)
Distinct-remove n [] d = tt
Distinct-remove n (x ∷ xs) d = elim (Bool-cases (n == x)) [
  | inl same ↦ rw same (Distinct-remove n xs d.2)
  | inr other ↦
      rw other
        (ground arith, has-remove_other x n xs (ground arith) ∙ d.1, Distinct-remove n xs d.2)
]

length-remove_fewer : (e n : ℕ) (xs : List ℕ) → Distinct n xs → length xs ≤ length (remove e xs) + 1
length-remove_fewer e n [] d = omega arith
length-remove_fewer e n (x ∷ xs) d = elim (Bool-cases (e == x)) [
  | inl same ↦
      let out : has e xs ≡ false = ground (arith, d.1) in
      rw (same, remove-absent e xs out) (omega arith)
  | inr other ↦ rw other (omega (arith, length-remove_fewer e n xs d.2))
]

length-Distinct : (n : ℕ) (xs : List ℕ) → Distinct n xs → length xs ≤ n
length-Distinct zero [] d = omega arith
length-Distinct zero (x ∷ xs) d = absurd (omega (arith, d.0))
length-Distinct (suc n) xs d = omega (
  arith,
  length-remove_fewer n (suc n) xs d,
  length-Distinct n (remove n xs) (Distinct-remove n xs d),
)

-- A slab with an object that is not free has objects in use.
pub FreeIndices-used :
    {num : ℕ} {s : Slab} (i : ℕ) (xs : List ℕ)
    → FreeIndices num s xs
    → i < num
    → has i xs ≡ false
    → 0 < s.used
FreeIndices-used {num} i xs v below out =
    omega (arith, length-Distinct num (i ∷ xs) (below, out, v.distinct), v.counted, v.total)
