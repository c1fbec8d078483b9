-- ===== src/Lists/Remove.antt =====
-- Removing an entry from a list.
use treasure_house.Base.{ℕ, ◌≡◌, refl, false, List, [], ◌∷◌, ◌++◌, ◌||◌, arith, ◌==◌}
use treasure_house.Lists.{has, remove}

pub has-remove : (e : ℕ) (xs : List ℕ) → has e (remove e xs) ≡ false
has-remove e [] = refl
has-remove e (x ∷ xs) = ground (arith, has-remove e xs)

pub has-remove_other : (e f : ℕ) (xs : List ℕ) → (e == f) ≡ false → has e (remove f xs) ≡ has e xs
has-remove_other e f [] h = refl
has-remove_other e f (x ∷ xs) h = ground (arith, has-remove_other e f xs)

pub remove-absent : (e : ℕ) (xs : List ℕ) → has e xs ≡ false → remove e xs ≡ xs
remove-absent e [] h = refl
remove-absent e (x ∷ xs) h = ground (arith, remove-absent e xs)

pub has-append : (e : ℕ) (xs ys : List ℕ) → has e (xs ++ ys) ≡ (has e xs || has e ys)
has-append e [] ys = refl
has-append e (x ∷ xs) ys = ground (arith, has-append e xs ys)
