-- ===== src/Mpscq/Held.antt =====
-- The queue against a list: what is inside, oldest first, and what the two parts of mpscq_push do to
-- it.
use treasure_house.Base.{ℕ, ◌≡◌, ◌≢◌, refl, false, List, [], ◌∷◌, ◌++◌, arith}
use treasure_house.Base.Memory.{update}
use treasure_house.Lists.{has, remove}
use treasure_house.Lists.Counts.{NoRepeats, NoRepeats-snoc}
use treasure_house.Lists.Remove.{has-remove_other, has-append}
use treasure_house.Mpscq.{Mpscq, mpscq_create, push_swap, push_link}
use treasure_house.Mpscq.Chain.{Seg, head-mem, Seg-swap, Seg-link}

-- The queue holds `xs`. `waits x` is the node whose producer has exchanged the head `x` for it and
-- has yet to link it, or 0.
pub record Holds (q : Mpscq) (waits : ℕ → ℕ) (xs : List ℕ) : Type 0 where
  pub nodes : List ℕ
  pub seg : Seg q.next waits q.tail nodes q.head
  pub apart : NoRepeats (q.tail ∷ nodes)
  pub tail_pos : q.tail ≢ 0
  pub stub_pos : q.stub ≢ 0
  pub kept : remove q.stub (q.tail ∷ nodes) ≡ xs
  pub quiet : (x : ℕ) → has x (q.tail ∷ nodes) ≡ false → waits x ≡ 0

pub mpscq_create-Holds :
    (stub : ℕ) (next : ℕ → ℕ) → stub ≢ 0 → Holds (mpscq_create stub next) (λ _. 0) []
unfolding mpscq_create
mpscq_create-Holds stub next pos = record {
  nodes = [];
  seg = (refl, ground arith, refl);
  apart = (refl, tt);
  tail_pos = pos;
  stub_pos = pos;
  kept = ground arith;
  quiet = λ x out. refl;
}

pub remove-append : (e : ℕ) (xs ys : List ℕ) → remove e (xs ++ ys) ≡ remove e xs ++ remove e ys
remove-append e [] ys = refl
remove-append e (x ∷ xs) ys = ground (arith, remove-append e xs ys)

-- The exchange puts the node behind the others; a link moves none.
pub push_swap-nodes :
    (n : ℕ) (q : Mpscq) (waits : ℕ → ℕ) (xs : List ℕ)
    → n ≢ 0
    → n ≢ q.stub
    → has n xs ≡ false
    → (h : Holds q waits xs)
    → (g : Holds (push_swap n q) (update waits q.head n) (xs ++ n ∷ [])) × (g.nodes
        ≡ h.nodes ++ n ∷ [])
unfolding push_swap
push_swap-nodes n q waits xs pos other new h =
    let chain = q.tail ∷ h.nodes in
    let out : has n chain ≡ false = ground (arith, has-remove_other n q.stub chain, h.kept) in
    (
      record {
        nodes = h.nodes ++ n ∷ [];
        seg = Seg-swap q.next waits n q.tail h.nodes q.head pos (h.quiet n out) out h.apart h.seg;
        apart = NoRepeats-snoc n chain h.apart out;
        tail_pos = h.tail_pos;
        stub_pos = h.stub_pos;
        kept = ground (arith, remove-append q.stub chain (n ∷ []), h.kept);
        quiet = λ x outside. ground (
          arith,
          has-append x chain (n ∷ []),
          h.quiet x,
          head-mem q.next waits q.tail h.nodes q.head h.seg,
        );
      },
      refl,
    )

pub push_swap-Holds :
    (n : ℕ) (q : Mpscq) (waits : ℕ → ℕ) (xs : List ℕ)
    → n ≢ 0
    → n ≢ q.stub
    → has n xs ≡ false
    → Holds q waits xs
    → Holds (push_swap n q) (update waits q.head n) (xs ++ n ∷ [])
push_swap-Holds n q waits xs pos other new h = (push_swap-nodes n q waits xs pos other new h).0

pub push_link-nodes :
    (x : ℕ) (q : Mpscq) (waits : ℕ → ℕ) (xs : List ℕ)
    → waits x ≢ 0
    → (h : Holds q waits xs)
    → (g : Holds (push_link x (waits x) q) (update waits x 0) xs) × (g.nodes ≡ h.nodes)
unfolding push_link
push_link-nodes x q waits xs owes h = (
  record {
    nodes = h.nodes;
    seg = Seg-link q.next waits x q.tail h.nodes q.head owes h.apart h.seg;
    apart = h.apart;
    tail_pos = h.tail_pos;
    stub_pos = h.stub_pos;
    kept = h.kept;
    quiet = λ y outside. ground (arith, h.quiet y outside);
  },
  refl,
)

pub push_link-Holds :
    (x : ℕ) (q : Mpscq) (waits : ℕ → ℕ) (xs : List ℕ)
    → waits x ≢ 0
    → Holds q waits xs
    → Holds (push_link x (waits x) q) (update waits x 0) xs
push_link-Holds x q waits xs owes h = (push_link-nodes x q waits xs owes h).0
