-- ===== src/Processors/Turns.antt =====
-- Coroutines that start and end, as sequences of steps, and how the processors share them.
use treasure_house.Base.{
  ◌⊎◌, ◌≤◌, ℕ, ◌+◌, ◌-◌, ◌%◌, ◌<◌, ◌≡◌, inl, inr, ltb, if◌then◌else◌, Option, none, some, ◌==◌,
  arith, Bool-cases, subst,
}
use native.Mathlib.Nat.{mod_self, mod-eq_of_lt}
use treasure_house.Base.{sym, ap, refl}
use treasure_house.Base.Int.{pos}
use treasure_house.Base.Run.{Ends-at, Run, fault, Ends-value, Ends-bind, ok, Ends, ends, Ends-test}
use treasure_house.Processors.{
  processors_set_maxprocs, with_ps, waiting, wait_group_open, processors_destory, processors_join,
  wait_group_done, maxprocs_or, wait_group_create, Processors, Globals, processors_create,
  processors_submit, processors_coroutine_done, submit_to, wait_group_add, plus,
}

-- The static variables, and how many coroutines are under way.
pub record State : Type 0 where
  pub globals : Globals
  pub live : ℕ

-- The calls do not overlap: processors_submit takes no lock for p_turn.
pub data Step (s : State) : State → Type 0 where
  submits :
      (g : Globals)
      → processors_submit s.globals ≡ ok g
      → Step s (record { globals = g; live = s.live + 1 })
  finishes :
      (g : Globals)
      → 0 < s.live
      → processors_coroutine_done s.globals ≡ ok g
      → Step s (record { globals = g; live = s.live - 1 })

pub data Reach (s : State) : State → Type 0 where
  here : Reach s s
  next : {t u : State} → Reach s t → Step t u → Reach s u

-- After the first call of processors_create.
abbrev pub start : ℕ → Option ℕ → State
start cpu_num maxprocs = record {
  globals = processors_create cpu_num (record { g_ps = none; g_maxprocs = maxprocs });
  live = 0;
}

-- Each processor before the turn is one coroutine ahead of the others.
pub record Even (n live : ℕ) (ps : Processors) : Type 0 where
  pub nums : ps.p_nums ≡ n
  pub turn : ps.p_turn < n
  pub counted : ps.wg ≡ pos live
  pub rounds : ℕ
  pub shares : (p : ℕ) → p < n → ps.given p ≡ rounds + (if ltb p ps.p_turn then 1 else 0)

abbrev pub EvenState : ℕ → State → Type 0
EvenState n s = (ps : Processors) × (s.globals.g_ps ≡ some ps) × Even n s.live ps

next_turn : (turn n : ℕ) → turn < n → (turn + 1) % n ≡ (if turn + 1 == n then 0 else turn + 1)
next_turn turn n below = elim (Bool-cases (turn + 1 == n)) [
  | inl last ↦
      let same : turn + 1 ≡ n = ground arith in
      rw last (subst (λ k. k % n ≡ 0) (sym same) (mod_self n))
  | inr more ↦ rw more (mod-eq_of_lt (ground arith))
]

submit_to-Even :
    (n live : ℕ) (ps : Processors) → Even n live ps → Ends (Even n (live + 1)) (submit_to ps)
unfolding submit_to wait_group_add plus
submit_to-Even n live ps v =
    let turned : (ps.p_turn + 1) % ps.p_nums ≡ (if ps.p_turn + 1 == n then 0 else ps.p_turn + 1) =
      rw v.nums (next_turn ps.p_turn n v.turn) in
    Ends-test (ltb ps.p_turn ps.p_nums)
      (λ inside. ends (record {
        nums = v.nums;
        turn = ground (arith, turned, v.turn);
        counted = ground (arith, v.counted);
        rounds = if ps.p_turn + 1 == n then v.rounds + 1 else v.rounds;
        shares = λ p below. ground (arith, turned, v.shares p below, v.shares ps.p_turn v.turn);
      }))
      (λ outside. absurd (ground (arith, v.nums, v.turn)))

done-Even :
    (n live : ℕ) (ps : Processors)
    → 0 < live
    → Even n live ps
    → Even n (live - 1) (record ps { wg = wait_group_done ps.wg })
unfolding wait_group_done plus
done-Even n live ps busy v = record {
  nums = v.nums;
  turn = v.turn;
  counted = ground (arith, v.counted);
  rounds = v.rounds;
  shares = v.shares;
}

with_ps-some :
    {A : Type 0} (f : Processors → Run A) (g : Globals) (ps : Processors)
    → g.g_ps ≡ some ps
    → with_ps f g ≡ f ps
with_ps-some f g ps there = ap (λ found. elim found [ none ↦ fault | some ps ↦ f ps ]) there

submit-EvenState :
    (n : ℕ) (s : State)
    → EvenState n s
    → Ends
        (λ g. EvenState n (record { globals = g; live = s.live + 1 }))
        (processors_submit s.globals)
unfolding processors_submit
submit-EvenState n s (ps, there, v) =
    rw (with_ps-some _ s.globals ps there)
      (Ends-bind (submit_to-Even n s.live ps v) (λ after w. ends (after, refl, w)))

coroutine_done-EvenState :
    (n : ℕ) (s : State)
    → 0 < s.live
    → EvenState n s
    → Ends
        (λ g. EvenState n (record { globals = g; live = s.live - 1 }))
        (processors_coroutine_done s.globals)
unfolding processors_coroutine_done
coroutine_done-EvenState n s busy (ps, there, v) =
    rw (with_ps-some _ s.globals ps there) (ends (_, refl, done-Even n s.live ps busy v))

Step-EvenState : (n : ℕ) (s t : State) → EvenState n s → Step s t → EvenState n t
Step-EvenState n s _ v (submits g e) =
    Ends-at (λ g. EvenState n (record { globals = g; live = s.live + 1 })) _ g e
      (submit-EvenState n s v)
Step-EvenState n s _ v (finishes g busy e) =
    Ends-at (λ g. EvenState n (record { globals = g; live = s.live - 1 })) _ g e
      (coroutine_done-EvenState n s busy v)

start-EvenState :
    (cpu_num : ℕ) (maxprocs : Option ℕ)
    → 0 < maxprocs_or cpu_num maxprocs
    → EvenState (maxprocs_or cpu_num maxprocs) (start cpu_num maxprocs)
unfolding processors_create wait_group_create
start-EvenState cpu_num maxprocs any = (
  _,
  refl,
  record { nums = refl; turn = any; counted = refl; rounds = 0; shares = λ p below. ground arith },
)

pub Reach-EvenState :
    (cpu_num : ℕ) (maxprocs : Option ℕ) (s : State)
    → 0 < maxprocs_or cpu_num maxprocs
    → Reach (start cpu_num maxprocs) s
    → EvenState (maxprocs_or cpu_num maxprocs) s
Reach-EvenState cpu_num maxprocs _ any here = start-EvenState cpu_num maxprocs any
Reach-EvenState cpu_num maxprocs _ any (next {t} {u} r st) =
    Step-EvenState (maxprocs_or cpu_num maxprocs) t u (Reach-EvenState cpu_num maxprocs t any r) st

-- In every state reached from processors_create with one processor or more, however coroutines
-- start and end, as long as no two calls of processors_submit overlap, the pool is there, a coroutine more can be submitted, and no processor was given
-- more than one coroutine more than another.
pub dealt_evenly :
    (cpu_num : ℕ) (maxprocs : Option ℕ) (s : State) (p q : ℕ)
    → 0 < maxprocs_or cpu_num maxprocs
    → Reach (start cpu_num maxprocs) s
    → p < maxprocs_or cpu_num maxprocs
    → q < maxprocs_or cpu_num maxprocs
    → (ps : Processors) × (s.globals.g_ps ≡ some ps)
      × (ps.given p ≤ ps.given q + 1)
      × ((g : Globals) × (processors_submit s.globals ≡ ok g))
dealt_evenly cpu_num maxprocs s p q any r p_below q_below =
    let v = Reach-EvenState cpu_num maxprocs s any r in
    let (after, e, w) = Ends-value (submit-EvenState (maxprocs_or cpu_num maxprocs) s v) in
    (v.0, v.1, ground (arith, v.2.shares p p_below, v.2.shares q q_below), (after, e))

-- In every state reached from processors_create with one processor or more, processors_join waits
-- as long as a coroutine is under way; when none is, it reads g_ps->executor after g_ps was set to
-- NULL, which is a fault.
pub join_waits_then_faults :
    (cpu_num : ℕ) (maxprocs : Option ℕ) (s : State)
    → 0 < maxprocs_or cpu_num maxprocs
    → Reach (start cpu_num maxprocs) s
    → ((0 < s.live) × (processors_join s.globals ≡ ok waiting))
      ⊎ ((s.live ≡ 0) × (processors_join s.globals ≡ fault))
unfolding processors_join processors_destory wait_group_open
join_waits_then_faults cpu_num maxprocs s any r =
    let (ps, there, v) = Reach-EvenState cpu_num maxprocs s any r in
    elim (Bool-cases (s.live == 0)) [
      | inl idle ↦
          inr (ground arith, rw (with_ps-some _ s.globals ps there) (ground (arith, v.counted)))
      | inr busy ↦
          inl (ground arith, rw (with_ps-some _ s.globals ps there) (ground (arith, v.counted)))
    ]

-- Before any call.
abbrev pub untouched : Globals
untouched = record { g_ps = none; g_maxprocs = none }

abbrev pub with_maxprocs : ℕ → Globals → Globals
with_maxprocs n g = (processors_set_maxprocs n g).1
