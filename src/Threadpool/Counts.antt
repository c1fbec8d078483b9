-- ===== src/Threadpool/Counts.antt =====
-- Sums over the threads.
use treasure_house.Base.{ℕ, ◌≡◌, ◌+◌, List, [], ◌∷◌, ◌++◌, arith, ◌==◌, if◌then◌else◌}
use treasure_house.Threadpool.Steps.{Phase, working, leaving, done}

-- The sum of `f` over the threads.
unfoldable pub total : (Phase → ℕ) → List Phase → ℕ
total f [] = 0
total f (p ∷ ps) = f p + total f ps

pub total-append :
    (f : Phase → ℕ) (xs ys : List Phase) → total f (xs ++ ys) ≡ total f xs + total f ys
unfolding total
total-append f [] ys = omega arith
total-append f (x ∷ xs) ys = omega (arith, total-append f xs ys)

-- One thread among others.
pub total-at :
    (f : Phase → ℕ) (xs ys : List Phase) (p : Phase)
    → total f (xs ++ p ∷ ys) ≡ total f xs + f p + total f ys
unfolding total
total-at f xs ys p = omega (arith, total-append f xs (p ∷ ys))

abbrev pub live : Phase → ℕ
live done = 0
live _ = 1

-- Threads that found the end of the queue.
abbrev pub gone : Phase → ℕ
gone leaving = 1
gone done = 1
gone _ = 0

abbrev pub in_hand : ℕ → Phase → ℕ
in_hand w (working x) = if w == x then 1 else 0
in_hand w _ = 0
