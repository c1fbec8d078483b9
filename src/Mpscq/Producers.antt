-- ===== src/Mpscq/Producers.antt =====
-- The two steps of a producer keep what holds where the consumer stands.
use treasure_house.Base.{
  Bool-cases, ◌==◌, inl, inr, ℕ, ◌≡◌, ◌≢◌, refl, false, List, [], ◌∷◌, ◌++◌, arith,
}
use treasure_house.Base.Memory.{update}
use treasure_house.Lists.{has}
use treasure_house.Lists.Remove.{has-append, has-remove_other}
use treasure_house.Mpscq.{
  Mpscq, push_swap, push_link, Consumer, enters, goes_on, tests, exchanges_stub, links_stub,
  looks_again, returned,
}
use treasure_house.Mpscq.Chain.{Seg}
use treasure_house.Mpscq.Held.{
  Holds, push_swap-Holds, push_link-Holds, push_swap-nodes, push_link-nodes,
}
use treasure_house.Mpscq.Parts.{Seg-Onward, AtNode, Stands}

head-quiet :
    (next waits : ℕ → ℕ) (a : ℕ) (bs : List ℕ) (head : ℕ)
    → Seg next waits a bs head
    → waits head ≡ 0
head-quiet next waits a [] head s = ground arith
head-quiet next waits a (b ∷ bs) head s = head-quiet next waits b bs head s.2

-- A node that is not inside is not the tail, where that is a node.
apart_from_tail :
    (tail n : ℕ) (q : Mpscq) (waits : ℕ → ℕ) (xs : List ℕ)
    → Holds q waits xs
    → AtNode tail q
    → n ≢ q.stub
    → has n xs ≡ false
    → (n == tail) ≡ false
apart_from_tail tail n q waits xs h (at, away) other new =
    ground (arith, at, has-remove_other n q.stub (q.tail ∷ h.nodes), h.kept)

-- Who has yet to link a node behind the tail has left its `next` at 0.
owing_tail :
    (tail next x : ℕ) (q : Mpscq) (waits : ℕ → ℕ) (xs : List ℕ)
    → Holds q waits xs
    → tail ≡ q.tail
    → waits x ≢ 0
    → q.next tail ≡ next
    → (next == 0) ≡ false
    → (x == tail) ≡ false
owing_tail tail next x q waits xs h at owes read more =
    let o = Seg-Onward q waits h.nodes h.seg (ground (arith, read, at)) in
    ground (arith, o.linked, at)

-- A producer's exchange, of a node that is not inside.
pub exchange-Stands :
    (c : Consumer) (n : ℕ) (q : Mpscq) (waits : ℕ → ℕ) (xs : List ℕ)
    → n ≢ 0
    → n ≢ q.stub
    → has n xs ≡ false
    → Stands c q waits xs
    → Stands c (push_swap n q) (update waits q.head n) (xs ++ n ∷ [])
unfolding push_swap
exchange-Stands enters n q waits xs pos other new h = push_swap-Holds n q waits xs pos other new h
exchange-Stands (goes_on tail) n q waits xs pos other new (h, node) =
    (push_swap-Holds n q waits xs pos other new h, node)
exchange-Stands (tests tail next) n q waits xs pos other new (h, node, inl none) =
    (push_swap-Holds n q waits xs pos other new h, node, inl none)
exchange-Stands (tests tail next) n q waits xs pos other new (h, node, inr read) = (
  push_swap-Holds n q waits xs pos other new h,
  node,
  inr (rw (apart_from_tail tail n q waits xs h node other new) read),
)
exchange-Stands (exchanges_stub tail) n q waits xs pos other new (h, node, out) =
    let (g, grown) = push_swap-nodes n q waits xs pos other new h in
    let still : has q.stub (q.tail ∷ (h.nodes ++ n ∷ [])) ≡ false =
      ground (arith, has-append q.stub (q.tail ∷ h.nodes) (n ∷ [])) in
    (g, node, rw grown still)
exchange-Stands (links_stub tail prev) n q waits xs pos other new (h, node, owes) = (
  push_swap-Holds n q waits xs pos other new h,
  node,
  ground (arith, head-quiet q.next waits q.tail h.nodes q.head h.seg, h.stub_pos),
)
exchange-Stands (looks_again tail) n q waits xs pos other new (h, node) =
    (push_swap-Holds n q waits xs pos other new h, node)
exchange-Stands (returned node) n q waits xs pos other new (inl (none, h)) =
    inl (none, push_swap-Holds n q waits xs pos other new h)
exchange-Stands (returned node) n q waits xs pos other new (inr (rest, first, some_node, once, h)) =
    inr (
      rest ++ n ∷ [],
      rw first refl,
      some_node,
      ground (arith, once, has-append node rest (n ∷ []), new, first),
      push_swap-Holds n q waits rest pos other (ground (arith, first)) h,
    )

-- A producer's link, of a node that is not the stub.
pub link-Stands :
    (c : Consumer) (x : ℕ) (q : Mpscq) (waits : ℕ → ℕ) (xs : List ℕ)
    → waits x ≢ 0
    → waits x ≢ q.stub
    → Stands c q waits xs
    → Stands c (push_link x (waits x) q) (update waits x 0) xs
unfolding push_link
link-Stands enters x q waits xs owes other h = push_link-Holds x q waits xs owes h
link-Stands (goes_on tail) x q waits xs owes other (h, node) =
    (push_link-Holds x q waits xs owes h, node)
link-Stands (tests tail next) x q waits xs owes other (h, node, inl none) =
    (push_link-Holds x q waits xs owes h, node, inl none)
link-Stands (tests tail next) x q waits xs owes other (h, (at, away), inr read) = (
  push_link-Holds x q waits xs owes h,
  (at, away),
  elim (Bool-cases (next == 0)) [
    | inl none ↦ inl (ground arith)
    | inr more ↦ inr (rw (owing_tail tail next x q waits xs h at owes read more) read)
  ],
)
link-Stands (exchanges_stub tail) x q waits xs owes other (h, node, out) =
    let (g, same) = push_link-nodes x q waits xs owes h in (g, node, rw same out)
link-Stands (links_stub tail prev) x q waits xs owes other (h, node, mine) =
    (push_link-Holds x q waits xs owes h, node, ground arith)
link-Stands (looks_again tail) x q waits xs owes other (h, node) =
    (push_link-Holds x q waits xs owes h, node)
link-Stands (returned node) x q waits xs owes other (inl (none, h)) =
    inl (none, push_link-Holds x q waits xs owes h)
link-Stands (returned node) x q waits xs owes other (inr (rest, first, some_node, once, h)) =
    inr (rest, first, some_node, once, push_link-Holds x q waits rest owes h)
