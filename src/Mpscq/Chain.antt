-- ===== src/Mpscq/Chain.antt =====
-- The nodes from the tail to the head, in the order of the exchanges.
use treasure_house.Base.{ℕ, ◌≡◌, ◌≢◌, refl, true, false, List, [], ◌∷◌, ◌++◌, arith, ◌⊎◌}
use treasure_house.Base.Memory.{update}
use treasure_house.Lists.{has}
use treasure_house.Lists.Counts.{NoRepeats}

-- `b` is linked behind `a`, or its producer, whose number is `waits a`, has yet to link it.
abbrev pub Edge : (ℕ → ℕ) → (ℕ → ℕ) → ℕ → ℕ → Type 0
Edge next waits a b = ((waits a ≡ 0) × (next a ≡ b)) ⊎ ((waits a ≡ b) × (next a ≡ 0))

-- From `a` through the nodes to `head`, which is the last.
abbrev pub Seg : (ℕ → ℕ) → (ℕ → ℕ) → ℕ → List ℕ → ℕ → Type 0
Seg next waits a [] head = (a ≡ head) × (next a ≡ 0) × (waits a ≡ 0)
Seg next waits a (b ∷ bs) head = (b ≢ 0) × Edge next waits a b × Seg next waits b bs head

pub head-mem :
    (next waits : ℕ → ℕ) (a : ℕ) (bs : List ℕ) (head : ℕ)
    → Seg next waits a bs head
    → has head (a ∷ bs) ≡ true
head-mem next waits a [] head s = ground arith
head-mem next waits a (b ∷ bs) head s = ground (arith, head-mem next waits b bs head s.2)

-- A node that is not on the way may change.
pub Seg-outside :
    (next waits : ℕ → ℕ) (x v w a : ℕ) (bs : List ℕ) (head : ℕ)
    → has x (a ∷ bs) ≡ false
    → Seg next waits a bs head
    → Seg (update next x v) (update waits x w) a bs head
Seg-outside next waits x v w a [] head out s = ground arith
Seg-outside next waits x v w a (b ∷ bs) head out s =
    (s.0, ground arith, Seg-outside next waits x v w b bs head (ground arith) s.2)

-- The exchange puts `n` behind the head, to be linked later.
pub Seg-swap :
    (next waits : ℕ → ℕ) (n a : ℕ) (bs : List ℕ) (head : ℕ)
    → n ≢ 0
    → waits n ≡ 0
    → has n (a ∷ bs) ≡ false
    → NoRepeats (a ∷ bs)
    → Seg next waits a bs head
    → Seg (update next n 0) (update waits head n) a (bs ++ n ∷ []) n
Seg-swap next waits n a [] head pos quiet new d s =
    (pos, ground arith, (refl, ground arith, ground arith))
Seg-swap next waits n a (b ∷ bs) head pos quiet new d s =
    let last = head-mem next waits b bs head s.2 in
    (s.0, ground (arith, last), Seg-swap next waits n b bs head pos quiet (ground arith) d.1 s.2)

-- The link that a producer still owes.
pub Seg-link :
    (next waits : ℕ → ℕ) (x a : ℕ) (bs : List ℕ) (head : ℕ)
    → waits x ≢ 0
    → NoRepeats (a ∷ bs)
    → Seg next waits a bs head
    → Seg (update next x (waits x)) (update waits x 0) a bs head
Seg-link next waits x a [] head owes d s = ground arith
Seg-link next waits x a (b ∷ bs) head owes d s =
    (s.0, ground arith, Seg-link next waits x b bs head owes d.1 s.2)
