-- ===== src/Lists/Counts.antt =====
-- How often an entry stands in a list, and lists without repetitions.
use treasure_house.Base.{
  inr, inl, Bool-cases, ℕ, ◌+◌, ◌≤◌, ◌≡◌, refl, true, false, List, [], ◌∷◌, ◌++◌, arith, ltb, ◌==◌,
  if◌then◌else◌, length,
}
use treasure_house.Lists.{remove, has}
use treasure_house.Lists.Remove.{remove-absent, has-append, has-remove_other}

unfoldable pub occurs : ℕ → List ℕ → ℕ
occurs w [] = 0
occurs w (x ∷ xs) = (if w == x then 1 else 0) + occurs w xs

pub occurs-append : (w : ℕ) (xs ys : List ℕ) → occurs w (xs ++ ys) ≡ occurs w xs + occurs w ys
unfolding occurs
occurs-append w [] ys = omega arith
occurs-append w (x ∷ xs) ys = omega (arith, occurs-append w xs ys)

pub occurs-remove :
    (w e : ℕ) (xs : List ℕ) → occurs w (remove e xs) ≡ (if w == e then 0 else occurs w xs)
unfolding occurs
occurs-remove w e [] = ground arith
occurs-remove w e (x ∷ xs) = ground (arith, occurs-remove w e xs)

pub has-occurs : (w : ℕ) (xs : List ℕ) → has w xs ≡ ltb 0 (occurs w xs)
unfolding occurs
has-occurs w [] = refl
has-occurs w (x ∷ xs) = ground (arith, has-occurs w xs)

pub occurs-le-length : (w : ℕ) (xs : List ℕ) → occurs w xs ≤ length xs
unfolding occurs
occurs-le-length w [] = omega arith
occurs-le-length w (x ∷ xs) = ground (arith, occurs-le-length w xs)

abbrev pub NoRepeats : List ℕ → Type 0
NoRepeats [] = Unit {0}
NoRepeats (x ∷ xs) = (has x xs ≡ false) × NoRepeats xs

pub NoRepeats-snoc :
    (x : ℕ) (xs : List ℕ) → NoRepeats xs → has x xs ≡ false → NoRepeats (xs ++ x ∷ [])
NoRepeats-snoc x [] v h = (refl, tt)
NoRepeats-snoc x (y ∷ xs) v h =
    (ground (arith, has-append y xs (x ∷ []), v.0), NoRepeats-snoc x xs v.1 (ground arith))

pub remove-first : (x : ℕ) (xs : List ℕ) → has x xs ≡ false → remove x (x ∷ xs) ≡ xs
remove-first x xs h = ground (arith, remove-absent x xs)

pub NoRepeats-occurs : (w : ℕ) (xs : List ℕ) → NoRepeats xs → occurs w xs ≤ 1
unfolding occurs
NoRepeats-occurs w [] v = omega arith
NoRepeats-occurs w (x ∷ xs) v = ground (arith, NoRepeats-occurs w xs v.1, has-occurs x xs, v.0)

pub NoRepeats-remove : (e : ℕ) (xs : List ℕ) → NoRepeats xs → NoRepeats (remove e xs)
NoRepeats-remove e [] v = tt
NoRepeats-remove e (x ∷ xs) v = elim (Bool-cases (e == x)) [
  | inl same ↦ rw same (NoRepeats-remove e xs v.1)
  | inr other ↦ rw other (ground (arith, has-remove_other x e xs, v.0), NoRepeats-remove e xs v.1)
]

pub length-remove :
    (e : ℕ) (xs : List ℕ) → NoRepeats xs → has e xs ≡ true → length (remove e xs) + 1 ≡ length xs
length-remove e [] v h = ground arith
length-remove e (x ∷ xs) v h = elim (Bool-cases (e == x)) [
  | inl same ↦ ground (arith, remove-absent x xs, remove-absent e xs, v.0)
  | inr other ↦ ground (arith, length-remove e xs v.1)
]
