-- ===== src/Sched/Timers.antt =====
-- process_expired_timers over the heap of src/container/heap.c: which timers it runs, in which order,
-- and how long it says the loop may wait.
use treasure_house.Base.{
  Option, ℕ, zero, suc, ◌+◌, ◌≤◌, ◌<◌, ◌≡◌, refl, ◌⊎◌, inl, inr, ap, sym, subst, Bool, not, List,
  [], ◌∷◌, arith, ltb, ◌==◌, Bool-cases,
}
use treasure_house.Base.Int.{le_zero}
use treasure_house.Base.Memory.{bit, count}
use treasure_house.Base.Run.{Ends, ends, Ends-bind, Ends-weaken, Ends-test}
use treasure_house.Lists.{ListLib}
use treasure_house.Heap.{HeapT}
use treasure_house.Heap.Order.{Before, IsComparison, root_first-below}
use treasure_house.Heap.Queue.{IsValid, Popped}
use treasure_house.Heap.Pop.{heap_pop-Popped, none_ahead, heap_top-root, heap_top-empty}
use treasure_house.Heap.Drain.{Sorted, Ahead-tally, tally}
use treasure_house.Base.{◌^◌}
use treasure_house.Timer.Order.{Windowed, windowed_cmp, co_timer_cmp_window}
use treasure_house.Timer.{CoTimer, co_timer_run}
use treasure_house.Sched.{Board, Sched}
use treasure_house.Sched.Loop.{expire, process_expired_timers}

module _ {L : ListLib} {A : Type 0} (timer : A → CoTimer (Board L)) where
  -- The callbacks of the timers, one after the other.
  abbrev pub run_all : List A → Board L → Board L
  run_all [] board = board
  run_all (t ∷ ts) board = run_all ts (co_timer_run (timer t) board)

  abbrev pub AllDue : ℕ → List A → Type 0
  AllDue now [] = Unit {0}
  AllDue now (t ∷ ts) = ((timer t).when ≤ now) × AllDue now ts

  -- The comparison puts earlier timers first.
  abbrev pub ByTime : (HeapT A) → Type 0
  ByTime heap = (a b : A) → Before heap.cmp_fn a b → (timer a).when ≤ (timer b).when

  -- What the loop did: `due` are the timers that it ran, and `last` is its last reading of the
  -- clock.
  pub record Expired (clock : ℕ → ℕ) (heap : HeapT A) (board : Board L) (r : ℕ × HeapT A × Board L)
      : Type 0 where
    pub due : List A
    pub last : ℕ
    pub ran : r.2 ≡ run_all due board
    pub sorted : Sorted heap.cmp_fn due
    pub reached : AllDue (clock last) due
    pub valid : IsValid r.1
    pub same :
        (p : A → Bool)
        → count p heap.elements heap.elem_num ≡ tally p due + count p r.1.elements r.1.elem_num
    pub delay :
        ((r.1.elem_num ≡ 0) × (r.0 ≡ 0))
        ⊎ ((0 < r.0)
            × ((i : ℕ) → i < r.1.elem_num → clock last + r.0 ≤ (timer (r.1.elements i)).when)
            × ((timer (r.1.elements 0)).when ≡ clock last + r.0))

  -- A timer was due and was run, and the loop went on.
  Expired-next :
      (clock : ℕ → ℕ) (heap : HeapT A) (board : Board L) (r : Option A × HeapT A)
      (q : ℕ × HeapT A × Board L)
      → (timer (heap.elements 0)).when ≤ clock 0
      → ((i j : ℕ) → i ≤ j → clock i ≤ clock j)
      → Popped heap r
      → Expired (λ k. clock (k + 1)) r.1 (co_timer_run (timer (heap.elements 0)) board) q
      → Expired clock heap board q
  Expired-next clock heap board r q due forward s e =
      let late : A → Bool = λ b. not (le_zero (heap.cmp_fn (heap.elements 0) b)) in
      let none_late =
        none_ahead late heap.elements heap.elem_num (λ i l. ground (arith, s.first i l, s.root)) in
      record {
        due = heap.elements 0 ∷ e.due;
        last = e.last + 1;
        ran = e.ran;
        sorted = (
          Ahead-tally heap.cmp_fn (heap.elements 0) e.due
              (ground (arith, none_late, s.same late, e.same late)),
          subst (λ c. Sorted c e.due) s.kept e.sorted,
        );
        reached = (ground (arith, forward 0 (e.last + 1)), e.reached);
        valid = e.valid;
        same = λ p. omega (arith, s.same p, e.same p, ap (λ a. bit (p a)) s.root);
        delay = e.delay;
      }

  expire-Expired :
      (fuel : ℕ) (clock : ℕ → ℕ) (heap : HeapT A) (board : Board L)
      → IsComparison heap.cmp_fn
      → IsValid heap
      → ByTime heap
      → ((i j : ℕ) → i ≤ j → clock i ≤ clock j)
      → heap.elem_num < fuel
      → Ends (Expired clock heap board) (expire timer fuel clock heap board)
  unfolding expire
  expire-Expired zero clock heap board compares v by_time forward enough = absurd (omega arith)
  expire-Expired (suc fuel) clock heap board compares v by_time forward enough =
      elim (Bool-cases (heap.elem_num == 0)) [
        | inl empty ↦ rw (heap_top-empty heap empty) (
            ends (record {
              due = [];
              last = 0;
              ran = refl;
              sorted = tt;
              reached = tt;
              valid = v;
              same = λ p. omega arith;
              delay = inl (ground arith, refl);
            }))
        | inr filled ↦ rw (heap_top-root heap v filled) (
            Ends-test (ltb (clock 0) (timer (heap.elements 0)).when)
              (λ early. ends (record {
                due = [];
                last = 0;
                ran = refl;
                sorted = tt;
                reached = tt;
                valid = v;
                same = λ p. omega arith;
                delay = inr (
                  ground arith,
                  (λ i below.
                      let root = by_time (heap.elements 0) (heap.elements i) (
                        root_first-below heap.cmp_fn compares (suc i) heap.elements heap.elem_num i
                          v.ordered (omega arith) below) in
                      ground arith),
                  ground arith,
                );
              }))
              (λ late. Ends-bind (heap_pop-Popped heap compares v (ground arith)) (λ r s.
                Ends-weaken
                  (expire-Expired fuel (λ k. clock (k + 1)) r.1
                    (co_timer_run (timer (heap.elements 0)) board)
                    (subst (λ c. IsComparison c) (sym s.kept) compares) s.valid
                    (λ a b ahead. by_time a b (subst (λ c. Before c a b) s.kept ahead))
                    (λ i j le. forward (i + 1) (j + 1) (omega arith)) (omega (arith, s.number)))
                  (λ q. Expired-next clock heap board r q (ground arith) forward s))))
      ]

  -- On a valid heap whose comparison puts earlier timers first, and with a clock that does not go
  -- back, process_expired_timers ends. It takes timers off the heap and runs each, in the order of
  -- the comparison; all of them were due at its last reading of the clock, and the board is as their
  -- callbacks leave it. The heap is valid and holds exactly the other timers. If there are none it
  -- returns 0, and else the time, more than 0, from that reading to the first of them, with none
  -- due before.
  pub process_expired_timers-Expired :
      (clock : ℕ → ℕ) (s : Sched L A)
      → IsComparison s.co_timer_heap.cmp_fn
      → IsValid s.co_timer_heap
      → ByTime s.co_timer_heap
      → ((i j : ℕ) → i ≤ j → clock i ≤ clock j)
      → Ends
          (λ r. Expired clock s.co_timer_heap s.board (r.0, r.1.co_timer_heap, r.1.board))
          (process_expired_timers timer clock s)
  unfolding process_expired_timers
  process_expired_timers-Expired clock s compares v by_time forward =
      Ends-bind
        (expire-Expired (s.co_timer_heap.elem_num + 1) clock s.co_timer_heap s.board compares v
          by_time forward (omega arith))
        (λ (delay, heap, board) e. ends e)

-- Timers of one window under co_timer_cmp are in the order of their times.
pub timers_fit_window :
    {L : ListLib} {base : ℕ} (heap : HeapT (Windowed (Board L) base))
    → base + 2 ^ 31 ≤ 2 ^ 63
    → heap.cmp_fn ≡ windowed_cmp
    → ByTime (λ w. w.timer) heap
unfolding windowed_cmp
timers_fit_window heap small e a b ahead =
    let ahead' : Before windowed_cmp a b = subst (λ c. Before c a b) e ahead in
    ground (arith, co_timer_cmp_window a.timer b.timer, a.from, a.to, b.from, b.to)
