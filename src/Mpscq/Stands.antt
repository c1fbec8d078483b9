-- ===== src/Mpscq/Stands.antt =====
-- Every step of the consumer keeps what holds where it stands.
use treasure_house.Base.{
  subst, Bool-cases, ◌==◌, inl, inr, ℕ, ◌≡◌, ◌≢◌, refl, ◌∙◌, sym, ap, false, List, [], ◌∷◌, ◌++◌,
  arith,
}
use treasure_house.Base.Memory.{update, update-same}
use treasure_house.Lists.{has, remove}
use treasure_house.Lists.Remove.{has-append}
use treasure_house.Mpscq.{
  Mpscq, push_swap, push_link, Consumer, enters, goes_on, tests, exchanges_stub, links_stub,
  looks_again, returned, consume,
}
use treasure_house.Lists.Counts.{NoRepeats, NoRepeats-snoc}
use treasure_house.Mpscq.Chain.{Seg, head-mem, Seg-swap}
use treasure_house.Mpscq.Held.{Holds, push_link-Holds}
use treasure_house.Mpscq.Alone.{
  enters-empty, enters-stub, enters-node, goes_on-lem, tests-linked, tests-pending, tests-last,
  looks_again-linked, looks_again-pending,
}
use treasure_house.Mpscq.Parts.{Stands, owed, past_stub, take_node}

remove-snoc : (e : ℕ) (xs : List ℕ) → remove e (xs ++ e ∷ []) ≡ remove e xs
remove-snoc e [] = ground arith
remove-snoc e (x ∷ xs) = ground (arith, remove-snoc e xs)

-- The stub goes in behind the nodes.
push_stub-Holds :
    (q : Mpscq) (waits : ℕ → ℕ) (xs : List ℕ)
    → (h : Holds q waits xs) → has q.stub (q.tail ∷ h.nodes) ≡ false
    → Holds (push_swap q.stub q) (update waits q.head q.stub) xs
unfolding push_swap
push_stub-Holds q waits xs h out =
    let chain = q.tail ∷ h.nodes in
    record {
      nodes = h.nodes ++ q.stub ∷ [];
      seg =
          Seg-swap q.next waits q.stub q.tail h.nodes q.head h.stub_pos (h.quiet q.stub out) out
            h.apart h.seg;
      apart = NoRepeats-snoc q.stub chain h.apart out;
      tail_pos = h.tail_pos;
      stub_pos = h.stub_pos;
      kept = remove-snoc q.stub chain ∙ h.kept;
      quiet = λ x outside. ground (
        arith,
        has-append x chain (q.stub ∷ []),
        h.quiet x,
        head-mem q.next waits q.tail h.nodes q.head h.seg,
      );
    }

-- The only node of the queue is not the stub.
last_alone :
    (q : Mpscq) (waits : ℕ → ℕ) (nodes : List ℕ)
    → Seg q.next waits q.tail nodes q.head
    → NoRepeats (q.tail ∷ nodes)
    → q.tail ≡ q.head
    → q.tail ≢ q.stub
    → has q.stub (q.tail ∷ nodes) ≡ false
last_alone q waits [] s apart alone away = ground arith
last_alone q waits (b ∷ bs) s apart alone away =
    ground (arith, head-mem q.next waits b bs q.head s.2)

exchanges_stub-Stands :
    (tail : ℕ) (q : Mpscq) (waits : ℕ → ℕ) (xs : List ℕ)
    → Stands (exchanges_stub tail) q waits xs
    → Stands (links_stub tail q.head) (push_swap q.stub q) (update waits q.head q.stub) xs
unfolding push_swap
exchanges_stub-Stands tail q waits xs (h, node, out) =
    (push_stub-Holds q waits xs h out, node, update-same waits q.head q.stub)

links_stub-Stands :
    (tail prev : ℕ) (q : Mpscq) (waits : ℕ → ℕ) (xs : List ℕ)
    → Stands (links_stub tail prev) q waits xs
    → Stands (looks_again tail) (push_link prev q.stub q) (update waits prev 0) xs
unfolding push_link
links_stub-Stands tail prev q waits xs (h, node, owes) = (
  subst (λ n. Holds (push_link prev n q) (update waits prev 0) xs) owes
      (push_link-Holds prev q waits xs (ground (arith, owes, h.stub_pos)) h),
  node,
)

tests-Stands :
    (tail next : ℕ) (q : Mpscq) (waits : ℕ → ℕ) (xs : List ℕ)
    → Stands (tests tail next) q waits xs
    → Stands (consume (tests tail next) q).0 (consume (tests tail next) q).1 waits xs
tests-Stands tail next q waits xs (h, (at, away), read) = elim (Bool-cases (next == 0)) [
  | inl none ↦ elim (Bool-cases (tail == q.head)) [
    | inl alone ↦
        rw (tests-last tail next q none alone)
          (h, (at, away), last_alone q waits h.nodes h.seg h.apart (ground arith) (ground arith))
    | inr other ↦ rw (tests-pending tail next q none other) (inl (refl, h))
  ]
  | inr more ↦ elim read [
    | inl none ↦ ground arith
    | inr e ↦
        rw (tests-linked tail next q more, sym e ∙ ap q.next at, at)
          (take_node q waits xs h (ground arith) (ground (arith, e, at)))
  ]
]

looks_again-Stands :
    (tail : ℕ) (q : Mpscq) (waits : ℕ → ℕ) (xs : List ℕ)
    → Stands (looks_again tail) q waits xs
    → Stands (consume (looks_again tail) q).0 (consume (looks_again tail) q).1 waits xs
looks_again-Stands tail q waits xs (h, (at, away)) = elim (Bool-cases (q.next tail == 0)) [
  | inl none ↦ rw (looks_again-pending tail q none) (inl (refl, h))
  | inr more ↦
      rw (looks_again-linked tail q more, at)
        (take_node q waits xs h (ground arith) (ground (arith, at)))
]

exchanges_stub-lem :
    (tail : ℕ) (q : Mpscq)
    → consume (exchanges_stub tail) q ≡ (links_stub tail q.head, push_swap q.stub q)
unfolding consume
exchanges_stub-lem tail q = refl

links_stub-lem :
    (tail prev : ℕ) (q : Mpscq)
    → consume (links_stub tail prev) q ≡ (looks_again tail, push_link prev q.stub q)
unfolding consume
links_stub-lem tail prev q = refl

returned-lem : (node : ℕ) (q : Mpscq) → consume (returned node) q ≡ (returned node, q)
unfolding consume
returned-lem node q = refl

pub consume-Stands :
    (c : Consumer) (q : Mpscq) (waits : ℕ → ℕ) (xs : List ℕ)
    → Stands c q waits xs
    → Stands (consume c q).0 (consume c q).1 (owed c q waits) xs
consume-Stands enters q waits xs h = elim (Bool-cases (q.tail == q.stub)) [
  | inr away ↦ rw (enters-node q away) (h, (refl, ground arith), inr refl)
  | inl at ↦ elim (Bool-cases (q.next q.tail == 0)) [
    | inl none ↦ rw (enters-empty q at none) (inl (refl, h))
    | inr more ↦ rw (enters-stub q at more) (past_stub q waits xs h at more)
  ]
]
consume-Stands (goes_on tail) q waits xs (h, node) = rw (goes_on-lem tail q) (h, node, inr refl)
consume-Stands (tests tail next) q waits xs v = tests-Stands tail next q waits xs v
consume-Stands (exchanges_stub tail) q waits xs v =
    rw (exchanges_stub-lem tail q) (exchanges_stub-Stands tail q waits xs v)
consume-Stands (links_stub tail prev) q waits xs v =
    rw (links_stub-lem tail prev q) (links_stub-Stands tail prev q waits xs v)
consume-Stands (looks_again tail) q waits xs v = looks_again-Stands tail q waits xs v
consume-Stands (returned node) q waits xs g = rw (returned-lem node q) g
