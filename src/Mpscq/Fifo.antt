-- ===== src/Mpscq/Fifo.antt =====
-- mpscq_pop takes the oldest of what the queue holds.
use treasure_house.Base.{
  subst, Bool-cases, ◌==◌, inl, inr, ℕ, ◌≡◌, ◌≢◌, refl, false, List, [], ◌∷◌, arith, ◌⊎◌,
}
use treasure_house.Lists.{has, remove}
use treasure_house.Lists.Counts.{NoRepeats}
use treasure_house.Mpscq.{mpscq_pop, mpscq_push, pop_from, Mpscq, push_swap, push_link}
use treasure_house.Mpscq.Chain.{Seg, head-mem}
use treasure_house.Mpscq.Held.{Holds}

-- What a pop did: it found nothing that it could take, or it took the oldest node.
abbrev pub Popped : (ℕ → ℕ) → List ℕ → ℕ × Mpscq → Type 0
Popped waits xs (r, q) =
    ((r ≡ 0) × Holds q waits xs × ((xs ≡ []) ⊎ ((x : ℕ) × (waits x ≢ 0))))
    ⊎ ((rest : List ℕ) × (xs ≡ r ∷ rest) × (r ≢ 0) × Holds q waits rest)

-- The only node is taken: the stub goes in behind it.
take_last :
    (q : Mpscq)
    → (q.tail == q.stub) ≡ false
    → q.stub ≢ 0
    → q.tail ≡ q.head
    → q.next q.tail ≡ 0
    → pop_from q.tail (q.next q.tail) q ≡ (q.tail, record (mpscq_push q.stub q) { tail = q.stub })
unfolding pop_from mpscq_push push_swap push_link
take_last q away pos alone e = ground arith

take_linked :
    (q : Mpscq) (b : ℕ)
    → b ≢ 0
    → q.next q.tail ≡ b
    → pop_from q.tail (q.next q.tail) q ≡ (q.tail, record q { tail = b })
unfolding pop_from
take_linked q b pos e = ground arith

leave_pending :
    (q : Mpscq)
    → (q.tail == q.head) ≡ false
    → q.next q.tail ≡ 0
    → pop_from q.tail (q.next q.tail) q ≡ (0, q)
unfolding pop_from
leave_pending q away e = ground arith

last-Holds :
    (q : Mpscq) (waits : ℕ → ℕ)
    → (q.tail == q.stub) ≡ false
    → q.stub ≢ 0
    → q.tail ≡ q.head
    → waits q.tail ≡ 0
    → ((x : ℕ) → has x (q.tail ∷ []) ≡ false → waits x ≡ 0)
    → Holds (record (mpscq_push q.stub q) { tail = q.stub }) waits []
unfolding mpscq_push push_swap push_link
last-Holds q waits away pos alone none quiet = record {
  nodes = [];
  seg = (refl, ground arith, ground (arith, quiet q.stub));
  apart = (refl, tt);
  tail_pos = pos;
  stub_pos = pos;
  kept = ground arith;
  quiet = λ x out. ground (arith, quiet x);
}

pop_from-Popped :
    (q : Mpscq) (waits : ℕ → ℕ) (xs nodes : List ℕ)
    → (q.tail == q.stub) ≡ false
    → Seg q.next waits q.tail nodes q.head
    → NoRepeats (q.tail ∷ nodes)
    → q.tail ≢ 0
    → q.stub ≢ 0
    → remove q.stub (q.tail ∷ nodes) ≡ xs
    → ((x : ℕ) → has x (q.tail ∷ nodes) ≡ false → waits x ≡ 0)
    → Popped waits xs (pop_from q.tail (q.next q.tail) q)
pop_from-Popped q waits xs [] away (alone, end, none) apart pos stub kept quiet =
    rw (take_last q away stub alone end)
      (inr ([], ground arith, pos, last-Holds q waits away stub alone none quiet))
pop_from-Popped q waits xs (b ∷ bs) away (b_pos, inl (none, e), s) apart pos stub kept quiet =
    rw (take_linked q b b_pos e) (
      inr (
        remove q.stub (b ∷ bs),
        ground arith,
        pos,
        record {
          nodes = bs;
          seg = s;
          apart = apart.1;
          tail_pos = b_pos;
          stub_pos = stub;
          kept = refl;
          quiet = λ x out. ground (arith, quiet x);
        },
      ))
pop_from-Popped q waits xs (b ∷ bs) away (b_pos, inr (owes, e), s) apart pos stub kept quiet =
    rw (leave_pending q (ground (arith, head-mem q.next waits b bs q.head s)) e) (
      inl (
        refl,
        record {
          nodes = b ∷ bs;
          seg = (b_pos, inr (owes, e), s);
          apart = apart;
          tail_pos = pos;
          stub_pos = stub;
          kept = kept;
          quiet = quiet;
        },
        inr (q.tail, ground arith),
      ))

past_stub :
    (q : Mpscq) (b : ℕ)
    → b ≢ 0
    → q.tail ≡ q.stub
    → q.next q.tail ≡ b
    → mpscq_pop q ≡ pop_from b (q.next b) (record q { tail = b })
unfolding mpscq_pop
past_stub q b pos stub e = ground arith

at_stub : (q : Mpscq) → q.tail ≡ q.stub → q.next q.tail ≡ 0 → mpscq_pop q ≡ (0, q)
unfolding mpscq_pop
at_stub q stub e = ground arith

off_stub :
    (q : Mpscq) → (q.tail == q.stub) ≡ false → mpscq_pop q ≡ pop_from q.tail (q.next q.tail) q
unfolding mpscq_pop
off_stub q away = ground arith

stub_pop-Popped :
    (q : Mpscq) (waits : ℕ → ℕ) (xs nodes : List ℕ)
    → q.tail ≡ q.stub
    → Seg q.next waits q.tail nodes q.head
    → (h : Holds q waits xs) → h.nodes ≡ nodes
    → Popped waits xs (mpscq_pop q)
stub_pop-Popped q waits xs [] stub (alone, end, none) h e =
    rw (at_stub q stub end) (inl (refl, h, inl (ground (arith, h.kept, e))))
stub_pop-Popped q waits xs (b ∷ bs) stub (b_pos, inl (none, linked), s) h e =
    let apart : NoRepeats (q.tail ∷ b ∷ bs) = subst (λ ns. NoRepeats (q.tail ∷ ns)) e h.apart in
    rw (past_stub q b b_pos stub linked) (
      pop_from-Popped (record q { tail = b }) waits xs bs (ground arith) s apart.1 b_pos h.stub_pos
        (ground (arith, h.kept, e)) (λ x out. ground (arith, h.quiet x, e)))
stub_pop-Popped q waits xs (b ∷ bs) stub (b_pos, inr (owes, end), s) h e =
    rw (at_stub q stub end) (inl (refl, h, inr (q.tail, ground arith)))

-- Where the queue holds `xs`, its memory as the exchanges and links so far have left it, mpscq_pop
-- either returns the oldest of `xs` and leaves the queue holding the rest, or it returns NULL and
-- the queue holds `xs` still; then `xs` is empty or some producer has yet to link its node.
pub mpscq_pop-Popped :
    (q : Mpscq) (waits : ℕ → ℕ) (xs : List ℕ) → Holds q waits xs → Popped waits xs (mpscq_pop q)
mpscq_pop-Popped q waits xs h = elim (Bool-cases (q.tail == q.stub)) [
  | inl at ↦ stub_pop-Popped q waits xs h.nodes (ground arith) h.seg h refl
  | inr away ↦
      rw (off_stub q away)
        (pop_from-Popped q waits xs h.nodes away h.seg h.apart h.tail_pos h.stub_pos h.kept h.quiet)
]
