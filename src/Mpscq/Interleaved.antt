-- ===== src/Mpscq/Interleaved.antt =====
-- Producers and the consumer together, as sequences of steps: any number of producers may stand
-- between the two parts of mpscq_push, and the consumer anywhere in mpscq_pop.
use treasure_house.Base.{
  ◌∙◌, ap, subst, inl, inr, ◌⊎◌, ℕ, ◌≡◌, ◌≢◌, refl, false, List, [], ◌∷◌, ◌++◌, ◌==◌, if◌then◌else◌,
  arith,
}
use treasure_house.Base.Memory.{update}
use treasure_house.Lists.{has, remove}
use treasure_house.Lists.Remove.{remove-absent}
use treasure_house.Mpscq.{
  Mpscq, mpscq_create, push_swap, push_link, Consumer, enters, returned, consume, consume_times,
}
use treasure_house.Mpscq.Parts.{Stands, Gave, owed}
use treasure_house.Mpscq.Alone.{consume_alone}
use treasure_house.Mpscq.Stands.{consume-Stands}
use treasure_house.Mpscq.Producers.{exchange-Stands, link-Stands}
use treasure_house.Mpscq.Held.{Holds, mpscq_create-Holds}
use treasure_house.Mpscq.Fifo.{mpscq_pop-Popped}

-- `pending x` is the node that is still to be linked behind `x`, the stub by the consumer, another
-- by a producer. `consumer` is where the consumer stands in mpscq_pop. `sent` and `received` are
-- the nodes exchanged and returned so far, and `inside` are those exchanged and not yet returned.
pub record State : Type 0 where
  pub queue : Mpscq
  pub pending : ℕ → ℕ
  pub consumer : Consumer
  pub inside : List ℕ
  pub sent : List ℕ
  pub received : List ℕ

pub data Step (s : State) : State → Type 0 where
  -- A node that is not in the queue is handed to mpscq_push.
  exchanges :
      (n : ℕ)
      → n ≢ 0
      → n ≢ s.queue.stub
      → has n s.inside ≡ false
      → Step s (record s {
        queue = push_swap n s.queue;
        pending = update s.pending s.queue.head n;
        inside = s.inside ++ n ∷ [];
        sent = s.sent ++ n ∷ [];
      })
  links :
      (prev : ℕ)
      → s.pending prev ≢ 0
      → s.pending prev ≢ s.queue.stub
      → Step s (record s {
        queue = push_link prev (s.pending prev) s.queue;
        pending = update s.pending prev 0;
      })
  consumes : Step s (record s {
    queue = (consume s.consumer s.queue).1;
    consumer = (consume s.consumer s.queue).0;
    pending = owed s.consumer s.queue s.pending;
  })
  -- mpscq_pop is left, and will be called again.
  returns :
      (node : ℕ)
      → s.consumer ≡ returned node
      → Step s (record s {
        consumer = enters;
        inside = if node == 0 then s.inside else remove node s.inside;
        received = if node == 0 then s.received else s.received ++ node ∷ [];
      })

pub data Reach (s : State) : State → Type 0 where
  here : Reach s s
  next : {t u : State} → Reach s t → Step t u → Reach s u

abbrev pub start : ℕ → (ℕ → ℕ) → State
start stub memory = record {
  queue = mpscq_create stub memory;
  pending = λ _. 0;
  consumer = enters;
  inside = [];
  sent = [];
  received = [];
}

-- The queue is as the list `inside` says, and the order of arrival is kept.
pub record Ordered (s : State) : Type 0 where
  pub held : Stands s.consumer s.queue s.pending s.inside
  pub fifo : s.sent ≡ s.received ++ s.inside

append_assoc : (xs ys zs : List ℕ) → (xs ++ ys) ++ zs ≡ xs ++ (ys ++ zs)
append_assoc [] ys zs = refl
append_assoc (x ∷ xs) ys zs = ap (λ l. x ∷ l) (append_assoc xs ys zs)

Gave-Ordered :
    (s : State) (node : ℕ)
    → s.sent ≡ s.received ++ s.inside
    → Gave node s.queue s.pending s.inside
    → Ordered (record s {
      consumer = enters;
      inside = if node == 0 then s.inside else remove node s.inside;
      received = if node == 0 then s.received else s.received ++ node ∷ [];
    })
Gave-Ordered s node fifo (inl (none, h)) = rw none (record { held = h; fifo = fifo })
Gave-Ordered s node fifo (inr (rest, first, some_node, once, h)) =
    let left : remove node s.inside ≡ rest = ground (arith, first, remove-absent node rest, once) in
    record {
      held = subst (λ ns. Holds s.queue s.pending ns) (ground (arith, left)) h;
      fifo = ground (arith, fifo, first, left, append_assoc s.received (node ∷ []) rest);
    }

Step-Ordered : {s t : State} → Ordered s → Step s t → Ordered t
Step-Ordered {s} o (exchanges n pos other new) = record {
  held = exchange-Stands s.consumer n s.queue s.pending s.inside pos other new o.held;
  fifo = ground (arith, o.fifo, append_assoc s.received s.inside (n ∷ []));
}
Step-Ordered {s} o (links prev owes other) = record {
  held = link-Stands s.consumer prev s.queue s.pending s.inside owes other o.held;
  fifo = o.fifo;
}
Step-Ordered {s} o consumes = record {
  held = consume-Stands s.consumer s.queue s.pending s.inside o.held;
  fifo = o.fifo;
}
Step-Ordered {s} o (returns node e) =
    Gave-Ordered s node o.fifo (subst (λ c. Stands c s.queue s.pending s.inside) e o.held)

pub Reach-Ordered :
    (stub : ℕ) (memory : ℕ → ℕ) {s : State} → stub ≢ 0 → Reach (start stub memory) s → Ordered s
Reach-Ordered stub memory pos here = record {
  held = mpscq_create-Holds stub memory pos;
  fifo = refl;
}
Reach-Ordered stub memory pos (next r st) = Step-Ordered (Reach-Ordered stub memory pos r) st

-- However the steps of producers and consumer interleave from a new queue, each node being pushed
-- only while it is not inside, the nodes returned are those sent, in the order of the exchanges:
-- the nodes sent are the nodes returned followed by the nodes inside.
pub sent_in_order :
    (stub : ℕ) (memory : ℕ → ℕ) (s : State)
    → stub ≢ 0
    → Reach (start stub memory) s
    → s.sent ≡ s.received ++ s.inside
sent_in_order stub memory s pos r = (Reach-Ordered stub memory pos r).fifo

-- In every state reached from a new queue where no producer has a link to make and the consumer
-- calls mpscq_pop, six of its steps, with no other thread's in between, bring it to the end: it
-- returns the oldest node inside, and NULL only where none is inside.
pub settled_pop :
    (stub : ℕ) (memory : ℕ → ℕ) (s : State)
    → stub ≢ 0
    → Reach (start stub memory) s
    → s.consumer ≡ enters
    → ((x : ℕ) → s.pending x ≡ 0)
    → ((s.inside ≡ []) × ((consume_times 6 (s.consumer, s.queue)).0 ≡ returned 0))
      ⊎ ((node : ℕ) × (rest : List ℕ) × (s.inside ≡ node ∷ rest)
          × ((consume_times 6 (s.consumer, s.queue)).0 ≡ returned node))
settled_pop stub memory s pos r calls settled =
    let h =
      subst (λ c. Stands c s.queue s.pending s.inside) calls
        (Reach-Ordered stub memory pos r).held in
    let six =
      ap (λ c. (consume_times 6 (c, s.queue)).0) calls ∙ ap (λ at. at.0) (consume_alone s.queue) in
    elim (mpscq_pop-Popped s.queue s.pending s.inside h) [
      | inl (none, h, inl empty) ↦ inl (empty, six ∙ ap returned none)
      | inl (none, h, inr (x, owes)) ↦ ground (arith, owes (settled x))
      | inr (rest, first, some, h) ↦ inr (_, rest, first, six)
    ]
