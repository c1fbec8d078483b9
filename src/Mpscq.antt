-- ===== src/Mpscq.antt =====
-- The queue of many producers and one consumer of src/queue/mpscq.c and mpscq.h. A node is an
-- address, 0 is NULL, and `next` is the memory of all the nodes, the stub's among them.
-- mpscq_push is two steps, the exchange of the head and the link to the node before, between which
-- other threads run; the first also writes n->next, which no other thread sees before the exchange.
-- mpscq_pop is given twice, whole and as the steps of its consumer, `consume`. Memory is sequentially
-- consistent.
pub mod Chain
pub mod Held
pub mod Fifo
pub mod Alone
pub mod Parts
pub mod Stands
pub mod Producers
pub mod Interleaved
mod Tests
use treasure_house.Base.{ℕ, zero, suc, Bool, not, ◌==◌, if◌then◌else◌}
use treasure_house.Base.Memory.{update}

-- struct mpscq, with the address of its stub
pub record Mpscq : Type 0 where
  pub head : ℕ
  pub tail : ℕ
  pub stub : ℕ
  pub next : ℕ → ℕ

unfoldable pub mpscq_create : ℕ → (ℕ → ℕ) → Mpscq
mpscq_create stub next = record { head = stub; tail = stub; stub = stub; next = update next stub 0 }

-- The first step of mpscq_push, up to the exchange; `prev` is the head before it.
unfoldable pub push_swap : ℕ → Mpscq → Mpscq
push_swap n self = record self { head = n; next = update self.next n 0 }

-- prev->next = n
unfoldable pub push_link : ℕ → ℕ → Mpscq → Mpscq
push_link prev n self = record self { next = update self.next prev n }

unfoldable pub mpscq_push : ℕ → Mpscq → Mpscq
unfolding push_swap push_link
mpscq_push n self = push_link self.head n (push_swap n self)

-- mpscq_pop from `if (next)`: the node returned, or 0, with the queue.
unfoldable pub pop_from : ℕ → ℕ → Mpscq → ℕ × Mpscq
unfolding mpscq_push
pop_from tail next self =
    if not (next == 0)
    then (tail, record self { tail = next })
    else if not (tail == self.head)
    then (0, self)
    else let pushed = mpscq_push self.stub self in
      let after = pushed.next tail in
      if not (after == 0) then (tail, record pushed { tail = after }) else (0, pushed)

unfoldable pub mpscq_pop : Mpscq → ℕ × Mpscq
unfolding pop_from
mpscq_pop self =
    let tail = self.tail in
    let next = self.next tail in
    if tail == self.stub
    then (if next == 0
        then (0, self)
        else pop_from next (self.next next) (record self { tail = next }))
    else pop_from tail next self

-- Where the consumer stands in mpscq_pop, with its variables: before the function, before it reads
-- next->next, at `if (next)`, before each of the two parts of pushing the stub, before it reads
-- tail->next again, and at the end with what is returned.
pub data Consumer : Type 0 where
  enters : Consumer
  goes_on : (tail : ℕ) → Consumer
  tests : (tail next : ℕ) → Consumer
  exchanges_stub : (tail : ℕ) → Consumer
  links_stub : (tail prev : ℕ) → Consumer
  looks_again : (tail : ℕ) → Consumer
  returned : (node : ℕ) → Consumer

-- What the consumer does next, with at most one access to what other threads write.
unfoldable pub consume : Consumer → Mpscq → Consumer × Mpscq
consume enters self =
    let next = self.next self.tail in
    if self.tail == self.stub
    then (if next == 0 then (returned 0, self) else (goes_on next, record self { tail = next }))
    else (tests self.tail next, self)
consume (goes_on tail) self = (tests tail (self.next tail), self)
consume (tests tail next) self =
    if not (next == 0)
    then (returned tail, record self { tail = next })
    else if not (tail == self.head)
    then (returned 0, self)
    else (exchanges_stub tail, self)
consume (exchanges_stub tail) self = (links_stub tail self.head, push_swap self.stub self)
consume (links_stub tail prev) self = (looks_again tail, push_link prev self.stub self)
consume (looks_again tail) self =
    let next = self.next tail in
    if not (next == 0) then (returned tail, record self { tail = next }) else (returned 0, self)
consume (returned node) self = (returned node, self)

-- So many steps of the consumer with no other thread's in between.
unfoldable pub consume_times : ℕ → Consumer × Mpscq → Consumer × Mpscq
consume_times zero at = at
consume_times (suc n) at = consume_times n (consume at.0 at.1)
