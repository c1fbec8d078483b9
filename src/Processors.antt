-- ===== src/Processors.antt =====
-- The processors of src/coroutine/processor.c and processor.h, to which coroutines are dealt out,
-- with the wait group of src/coroutine/sync/sync.c that counts the coroutines under way. Of a
-- processor the model keeps how many coroutines sched_sched was given for it; the schedulers and
-- their threads are not modelled, so that processors_join leaves out exit_all_processors, which wakes
-- and joins them. A call of processors_submit is one step: it reads and writes p_turn without a lock,
-- and calls that overlap, on two threads, are not modelled. Memory is taken to be had, as the source does not ask, a maximum
-- is not negative, and counters do not overflow.
pub mod Turns
mod Tests
use treasure_house.Base.{
  ℕ, zero, suc, ◌+◌, ◌-◌, ◌%◌, Bool, true, false, ltb, if◌then◌else◌, Option, none, some, ◌==◌,
}
use treasure_house.Base.Int.{ℤ, pos, negsuc}
use treasure_house.Base.Memory.{update}
use treasure_house.Base.Run.{Run, ok, fault, ◌>>=◌}

-- Addition of ints.
unfoldable pub plus : ℤ → ℤ → ℤ
plus (pos a) (pos b) = pos (a + b)
plus (pos a) (negsuc b) = if ltb b a then pos (a - b - 1) else negsuc (b - a)
plus (negsuc a) (pos b) = if ltb a b then pos (b - a - 1) else negsuc (a - b)
plus (negsuc a) (negsuc b) = negsuc (a + b + 1)

-- The field `val` of _wait_group_t.
unfoldable pub wait_group_create : ℤ
wait_group_create = pos 0

unfoldable pub wait_group_add : ℤ → ℤ → ℤ
wait_group_add val wg = plus wg val

unfoldable pub wait_group_done : ℤ → ℤ
wait_group_done wg = plus wg (negsuc 0)

-- wait_group_wait returns, rather than waits.
unfoldable pub wait_group_open : ℤ → Bool
wait_group_open (pos zero) = true
wait_group_open (pos (suc n)) = false
wait_group_open (negsuc n) = false

-- processors_t: `given` says how many coroutines each processor was given.
pub record Processors : Type 0 where
  pub p_nums : ℕ
  pub p_turn : ℕ
  pub wg : ℤ
  pub given : ℕ → ℕ

-- The static variables; `none` is NULL for g_ps and -1 for g_maxprocs.
pub record Globals : Type 0 where
  pub g_ps : Option Processors
  pub g_maxprocs : Option ℕ

-- The result is whether the call is accepted (0, not -1).
unfoldable pub processors_set_maxprocs : ℕ → Globals → Bool × Globals
processors_set_maxprocs max_procs g = elim g.g_maxprocs [
  | none ↦ (true, record g { g_maxprocs = some max_procs })
  | some n ↦ (false, g)
]

unfoldable pub maxprocs_or : ℕ → Option ℕ → ℕ
maxprocs_or cpu_num none = cpu_num
maxprocs_or cpu_num (some n) = n

-- For a machine of `cpu_num` processors, when each scheduler and each thread can be had.
unfoldable pub processors_create : ℕ → Globals → Globals
processors_create cpu_num g = elim g.g_ps [
  | none ↦
      let nums = maxprocs_or cpu_num g.g_maxprocs in
      record {
        g_ps = some (record { p_nums = nums; p_turn = 0; wg = wait_group_create; given = λ _. 0 });
        g_maxprocs = some nums;
      }
  | some ps ↦ g
]

-- all_p[p_turn] has to be a processor, and % to have a divisor.
unfoldable pub submit_to : Processors → Run Processors
submit_to ps =
    if ltb ps.p_turn ps.p_nums
    then ok (record ps {
      p_turn = (ps.p_turn + 1) % ps.p_nums;
      wg = wait_group_add (pos 1) ps.wg;
      given = update ps.given ps.p_turn (ps.given ps.p_turn + 1);
    })
    else fault

abbrev pub with_ps : {A : Type 0} → (Processors → Run A) → Globals → Run A
with_ps f g = elim g.g_ps [ none ↦ fault | some ps ↦ f ps ]

unfoldable pub processors_submit : Globals → Run Globals
processors_submit g =
    with_ps (λ ps. submit_to ps >>= λ after. ok (record g { g_ps = some after })) g

unfoldable pub processors_coroutine_done : Globals → Run Globals
processors_coroutine_done g =
    with_ps (λ ps. ok (record g { g_ps = some (record ps { wg = wait_group_done ps.wg }) })) g

-- g_ps = NULL; what is freed is not read again but through g_ps.
unfoldable pub processors_destory : Globals → Globals
processors_destory g = record g { g_ps = none }

-- processors_join waits still, or returns.
pub data Joined : Type 0 where
  waiting : Joined
  joined : Globals → Joined

-- The last line of processors_join reads g_ps->executor.
unfoldable pub processors_join : Globals → Run Joined
processors_join g =
    with_ps
      (λ ps.
        if wait_group_open ps.wg
        then with_ps (λ left. ok (joined (processors_destory g))) (processors_destory g)
        else ok waiting)
      g
