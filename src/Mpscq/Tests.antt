-- ===== src/Mpscq/Tests.antt =====
-- Runs of the queue, and the theorems at them: node 2 is pushed, and node 3 is exchanged and not
-- yet linked.
use treasure_house.Base.{ℕ, ◌≡◌, refl, List, [], ◌∷◌, ◌++◌, ◌⊎◌, arith}
use treasure_house.Base.Memory.{update}
use treasure_house.Mpscq.{
  enters, returned, consume, consume_times, mpscq_create, mpscq_push, push_swap, push_link,
  mpscq_pop, pop_from,
}
use treasure_house.Mpscq.Fifo.{Popped, mpscq_pop-Popped}
use treasure_house.Mpscq.Interleaved.{
  State, Reach, here, next, exchanges, links, consumes, returns, start, Reach-Ordered,
  sent_in_order, settled_pop,
}

abbrev memory : ℕ → ℕ
memory x = 9

second : (mpscq_pop (mpscq_pop (mpscq_push 3 (mpscq_push 2 (mpscq_create 1 memory)))).1).0 ≡ 3
unfolding mpscq_push push_swap push_link mpscq_pop pop_from mpscq_create
second = refl

half_done : (mpscq_pop (push_swap 3 (mpscq_push 2 (mpscq_create 1 memory)))).0 ≡ 0
unfolding mpscq_push push_swap push_link mpscq_pop pop_from mpscq_create
half_done = refl

abbrev one_sent : State
one_sent = record {
  queue = push_link 1 2 (push_swap 2 (mpscq_create 1 memory));
  pending = update (update (λ _. 0) 1 2) 1 0;
  consumer = enters;
  inside = 2 ∷ [];
  sent = 2 ∷ [];
  received = [];
}

abbrev two_sent : State
two_sent = record {
  queue = push_swap 3 one_sent.queue;
  pending = update one_sent.pending 2 3;
  consumer = enters;
  inside = 2 ∷ 3 ∷ [];
  sent = 2 ∷ 3 ∷ [];
  received = [];
}

abbrev two_linked : State
two_linked = record two_sent {
  queue = push_link 2 3 two_sent.queue;
  pending = update two_sent.pending 2 0;
}

abbrev one_left : State
one_left = record two_linked {
  queue = (consume_times 3 (enters, two_linked.queue)).1;
  inside = 3 ∷ [];
  received = 2 ∷ [];
}

Reach-two_sent : Reach (start 1 memory) two_sent
unfolding mpscq_create push_swap push_link
Reach-two_sent =
    next
      (next (next here (exchanges 2 (ground arith) (ground arith) refl))
        (links 1 (ground arith) (ground arith)))
      (exchanges 3 (ground arith) (ground arith) refl)

Reach-one_left : Reach (start 1 memory) one_left
unfolding mpscq_create push_swap push_link consume consume_times
Reach-one_left =
    next
      (next
        (next (next (next Reach-two_sent (links 2 (ground arith) (ground arith))) consumes)
          consumes)
        consumes)
      (returns 2 refl)

mpscq_pop-Popped_example : Popped two_sent.pending (2 ∷ 3 ∷ []) (mpscq_pop two_sent.queue)
mpscq_pop-Popped_example =
    mpscq_pop-Popped two_sent.queue two_sent.pending (2 ∷ 3 ∷ [])
      (Reach-Ordered 1 memory (ground arith) Reach-two_sent).held

sent_in_order_example : one_left.sent ≡ one_left.received ++ one_left.inside
sent_in_order_example = sent_in_order 1 memory one_left (ground arith) Reach-one_left

settled : (x : ℕ) → one_left.pending x ≡ 0
settled x = ground arith

settled_pop_example :
    ((one_left.inside ≡ []) × ((consume_times 6 (enters, one_left.queue)).0 ≡ returned 0))
    ⊎ ((node : ℕ) × (rest : List ℕ) × (one_left.inside ≡ node ∷ rest)
        × ((consume_times 6 (enters, one_left.queue)).0 ≡ returned node))
settled_pop_example = settled_pop 1 memory one_left (ground arith) Reach-one_left refl settled
