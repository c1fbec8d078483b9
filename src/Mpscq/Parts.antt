-- ===== src/Mpscq/Parts.antt =====
-- The consumer's steps in mpscq_pop: what holds between them, whatever the producers do.
use treasure_house.Base.{
  subst, ◌==◌, inl, inr, ℕ, ◌≡◌, ◌≢◌, refl, false, true, List, [], ◌∷◌, arith, ◌⊎◌,
}
use treasure_house.Base.Memory.{update}
use treasure_house.Lists.{has, remove}
use treasure_house.Lists.Remove.{has-remove_other}
use treasure_house.Mpscq.{
  Mpscq, Consumer, enters, goes_on, tests, exchanges_stub, links_stub, looks_again, returned,
}
use treasure_house.Lists.Counts.{NoRepeats}
use treasure_house.Mpscq.Chain.{Seg}
use treasure_house.Mpscq.Held.{Holds}

-- `tail` is the queue's, and not the stub.
abbrev pub AtNode : ℕ → Mpscq → Type 0
AtNode tail q = (tail ≡ q.tail) × (tail ≢ q.stub)

-- The queue holds what is left of `xs` when `node` is returned, or all where that is NULL.
abbrev pub Gave : ℕ → Mpscq → (ℕ → ℕ) → List ℕ → Type 0
Gave node q waits xs =
    ((node ≡ 0) × Holds q waits xs)
    ⊎ ((rest : List ℕ) × (xs ≡ node ∷ rest)
        × (node ≢ 0)
        × (has node rest ≡ false)
        × Holds q waits rest)

-- What holds where the consumer stands, when the nodes `xs` were exchanged and not yet returned.
abbrev pub Stands : Consumer → Mpscq → (ℕ → ℕ) → List ℕ → Type 0
Stands enters q waits xs = Holds q waits xs
Stands (goes_on tail) q waits xs = Holds q waits xs × AtNode tail q
Stands (tests tail next) q waits xs =
    Holds q waits xs × AtNode tail q × ((next ≡ 0) ⊎ (q.next tail ≡ next))
Stands (exchanges_stub tail) q waits xs =
    (h : Holds q waits xs) × AtNode tail q × (has q.stub (q.tail ∷ h.nodes) ≡ false)
Stands (links_stub tail prev) q waits xs = Holds q waits xs × AtNode tail q × (waits prev ≡ q.stub)
Stands (looks_again tail) q waits xs = Holds q waits xs × AtNode tail q
Stands (returned node) q waits xs = Gave node q waits xs

-- What the consumer's own push of the stub has yet to link.
abbrev pub owed : Consumer → Mpscq → (ℕ → ℕ) → (ℕ → ℕ)
owed (exchanges_stub tail) q waits = update waits q.head q.stub
owed (links_stub tail prev) q waits = update waits prev 0
owed _ q waits = waits

-- A linked tail: the way goes on with the node behind it.
pub record Onward (q : Mpscq) (waits : ℕ → ℕ) (nodes : List ℕ) : Type 0 where
  pub left : List ℕ
  pub first : nodes ≡ q.next q.tail ∷ left
  pub linked : waits q.tail ≡ 0
  pub seg : Seg q.next waits (q.next q.tail) left q.head

pub Seg-Onward :
    (q : Mpscq) (waits : ℕ → ℕ) (nodes : List ℕ)
    → Seg q.next waits q.tail nodes q.head
    → (q.next q.tail == 0) ≡ false
    → Onward q waits nodes
Seg-Onward q waits [] s goes = ground arith
Seg-Onward q waits (b ∷ bs) (pos, inr (owes, end), s) goes = ground arith
Seg-Onward q waits (b ∷ bs) (pos, inl (none, link), s) goes = record {
  left = bs;
  first = rw link refl;
  linked = none;
  seg = rw link s;
}

move_on :
    (q : Mpscq) (waits : ℕ → ℕ) (xs : List ℕ)
    → (h : Holds q waits xs) → (o : Onward q waits h.nodes) → (q.next q.tail == 0) ≡ false
    → Holds (record q { tail = q.next q.tail }) waits (remove q.stub (q.next q.tail ∷ o.left))
move_on q waits xs h o goes =
    let apart : NoRepeats (q.tail ∷ q.next q.tail ∷ o.left) =
      subst (λ ns. NoRepeats (q.tail ∷ ns)) o.first h.apart in
    record {
      nodes = o.left;
      seg = o.seg;
      apart = apart.1;
      tail_pos = ground arith;
      stub_pos = h.stub_pos;
      kept = refl;
      quiet = λ x out. ground (arith, h.quiet x, o.first, o.linked);
    }

-- From the stub, what the queue holds stays.
pub past_stub :
    (q : Mpscq) (waits : ℕ → ℕ) (xs : List ℕ)
    → Holds q waits xs
    → (q.tail == q.stub) ≡ true
    → (q.next q.tail == 0) ≡ false
    → Stands (goes_on (q.next q.tail)) (record q { tail = q.next q.tail }) waits xs
past_stub q waits xs h at goes =
    let o = Seg-Onward q waits h.nodes h.seg goes in
    let apart : NoRepeats (q.tail ∷ q.next q.tail ∷ o.left) =
      subst (λ ns. NoRepeats (q.tail ∷ ns)) o.first h.apart in
    (
      subst (λ ns. Holds (record q { tail = q.next q.tail }) waits ns)
          (ground (arith, h.kept, o.first)) (move_on q waits xs h o goes),
      (refl, ground arith),
    )

-- From a node, that one is taken.
pub take_node :
    (q : Mpscq) (waits : ℕ → ℕ) (xs : List ℕ)
    → Holds q waits xs
    → q.tail ≢ q.stub
    → (q.next q.tail == 0) ≡ false
    → Gave q.tail (record q { tail = q.next q.tail }) waits xs
take_node q waits xs h away goes =
    let o = Seg-Onward q waits h.nodes h.seg goes in
    inr (
      remove q.stub (q.next q.tail ∷ o.left),
      ground (arith, h.kept, o.first),
      h.tail_pos,
      ground (arith, h.apart.0, o.first, has-remove_other q.tail q.stub (q.next q.tail ∷ o.left)),
      move_on q waits xs h o goes,
    )
