-- ===== src/Mpscq/Alone.antt =====
-- The consumer's steps one by one, and all of them with no other thread's in between.
use treasure_house.Base.{Bool-cases, ◌==◌, inl, inr, ℕ, ◌≡◌, refl, ◌∙◌, ap, false, true, zero, suc}
use treasure_house.Mpscq.{
  Mpscq, mpscq_push, mpscq_pop, pop_from, push_swap, push_link, enters, goes_on, tests,
  exchanges_stub, looks_again, returned, consume, consume_times,
}

pub tests-linked :
    (tail next : ℕ) (q : Mpscq)
    → (next == 0) ≡ false
    → consume (tests tail next) q ≡ (returned tail, record q { tail = next })
unfolding consume
tests-linked tail next q p = rw p refl

pub tests-pending :
    (tail next : ℕ) (q : Mpscq)
    → (next == 0) ≡ true
    → (tail == q.head) ≡ false
    → consume (tests tail next) q ≡ (returned 0, q)
unfolding consume
tests-pending tail next q p away = rw (p, away) refl

pub tests-last :
    (tail next : ℕ) (q : Mpscq)
    → (next == 0) ≡ true
    → (tail == q.head) ≡ true
    → consume (tests tail next) q ≡ (exchanges_stub tail, q)
unfolding consume
tests-last tail next q p alone = rw (p, alone) refl

pub looks_again-linked :
    (tail : ℕ) (q : Mpscq)
    → (q.next tail == 0) ≡ false
    → consume (looks_again tail) q ≡ (returned tail, record q { tail = q.next tail })
unfolding consume
looks_again-linked tail q p = rw p refl

pub looks_again-pending :
    (tail : ℕ) (q : Mpscq)
    → (q.next tail == 0) ≡ true
    → consume (looks_again tail) q ≡ (returned 0, q)
unfolding consume
looks_again-pending tail q p = rw p refl

pub enters-empty :
    (q : Mpscq)
    → (q.tail == q.stub) ≡ true
    → (q.next q.tail == 0) ≡ true
    → consume enters q ≡ (returned 0, q)
unfolding consume
enters-empty q at p = rw (at, p) refl

pub enters-stub :
    (q : Mpscq)
    → (q.tail == q.stub) ≡ true
    → (q.next q.tail == 0) ≡ false
    → consume enters q ≡ (goes_on (q.next q.tail), record q { tail = q.next q.tail })
unfolding consume
enters-stub q at p = rw (at, p) refl

pub enters-node :
    (q : Mpscq) → (q.tail == q.stub) ≡ false → consume enters q ≡ (tests q.tail (q.next q.tail), q)
unfolding consume
enters-node q away = rw away refl

pub goes_on-lem : (tail : ℕ) (q : Mpscq) → consume (goes_on tail) q ≡ (tests tail (q.next tail), q)
unfolding consume
goes_on-lem tail q = refl

consume_times-returned :
    (n node : ℕ) (q : Mpscq) → consume_times n (returned node, q) ≡ (returned node, q)
unfolding consume_times consume
consume_times-returned zero node q = refl
consume_times-returned (suc n) node q = consume_times-returned n node q

pushes_alone :
    (tail : ℕ) (q : Mpscq)
    → consume_times 3 (exchanges_stub tail, q) ≡ consume (looks_again tail) (mpscq_push q.stub q)
unfolding consume_times consume mpscq_push push_swap push_link
pushes_alone tail q = refl

tests_alone :
    (tail next : ℕ) (q : Mpscq)
    → consume_times 4 (tests tail next, q)
      ≡ (returned (pop_from tail next q).0, (pop_from tail next q).1)
unfolding consume_times pop_from
tests_alone tail next q = elim (Bool-cases (next == 0)) [
  | inr p ↦
      rw (tests-linked tail next q p, p) (consume_times-returned 3 tail (record q { tail = next }))
  | inl p ↦ elim (Bool-cases (tail == q.head)) [
    | inr away ↦ rw (tests-pending tail next q p away, p, away) (consume_times-returned 3 0 q)
    | inl alone ↦
        rw (tests-last tail next q p alone, p, alone)
          (pushes_alone tail q ∙ (elim (Bool-cases ((mpscq_push q.stub q).next tail == 0)) [
            | inr more ↦ rw (looks_again-linked tail (mpscq_push q.stub q) more, more) refl
            | inl none ↦ rw (looks_again-pending tail (mpscq_push q.stub q) none, none) refl
          ]))
  ]
]

-- Six steps of the consumer with no other thread's in between are mpscq_pop.
pub consume_alone :
    (q : Mpscq) → consume_times 6 (enters, q) ≡ (returned (mpscq_pop q).0, (mpscq_pop q).1)
unfolding consume_times mpscq_pop
consume_alone q = elim (Bool-cases (q.tail == q.stub)) [
  | inr away ↦
      rw (enters-node q away, away)
        (ap (λ at. consume at.0 at.1) (tests_alone q.tail (q.next q.tail) q)
          ∙ consume_times-returned 1 _ _)
  | inl at ↦ elim (Bool-cases (q.next q.tail == 0)) [
    | inl none ↦ rw (enters-empty q at none, at, none) (consume_times-returned 5 0 q)
    | inr more ↦
        rw (enters-stub q at more, at, more)
          (rw (goes_on-lem (q.next q.tail) (record q { tail = q.next q.tail })) (
            tests_alone (q.next q.tail) (q.next (q.next q.tail))
              (record q { tail = q.next q.tail })))
  ]
]
