-- ===== src/Processors/Tests.antt =====
-- Runs of the processors, and the theorems at them: two processors and three coroutines, of which
-- one ended.
use treasure_house.Base.{ℕ, ◌≡◌, ◌+◌, ◌<◌, ◌≤◌, ◌⊎◌, refl, some, arith}
use treasure_house.Base.Int.{pos, negsuc}
use treasure_house.Base.Memory.{update}
use treasure_house.Base.Run.{ok, fault}
use treasure_house.Processors.{
  Processors, Globals, processors_create, processors_submit, processors_coroutine_done,
  processors_join, submit_to, wait_group_add, wait_group_done, wait_group_create, plus, maxprocs_or,
  waiting, wait_group_open,
}
use treasure_house.Processors.Turns.{
  Reach, here, next, submits, finishes, start, dealt_evenly, join_waits_then_faults,
}

abbrev after : ℕ → ℕ → (ℕ → ℕ) → Globals
after turn wg given = record {
  g_ps = some (record { p_nums = 2; p_turn = turn; wg = pos wg; given = given });
  g_maxprocs = some 2;
}

abbrev given_one : ℕ → ℕ
given_one = update (λ _. 0) 0 1

abbrev given_two : ℕ → ℕ
given_two = update given_one 1 1

abbrev given_three : ℕ → ℕ
given_three = update given_two 0 2

reached : Reach (start 8 (some 2)) (record { globals = after 1 2 given_three; live = 2 })
unfolding processors_create processors_submit processors_coroutine_done submit_to wait_group_add
    wait_group_done wait_group_create plus maxprocs_or
reached =
    next
      (next
        (next (next here (submits (after 1 1 given_one) refl)) (submits (after 0 2 given_two) refl))
        (submits (after 1 3 given_three) refl))
      (finishes (after 1 2 given_three) (ground arith) refl)

overdrawn : wait_group_done (wait_group_add (negsuc 1) (pos 2)) ≡ negsuc 0
unfolding wait_group_done wait_group_add plus
overdrawn = refl

still_waiting : processors_join (after 1 2 given_three) ≡ ok waiting
unfolding processors_join wait_group_open
still_waiting = refl

dealt_evenly_example :
    (ps : Processors) × ((after 1 2 given_three).g_ps ≡ some ps)
    × (ps.given 0 ≤ ps.given 1 + 1)
    × ((g : Globals) × (processors_submit (after 1 2 given_three) ≡ ok g))
unfolding maxprocs_or
dealt_evenly_example =
    dealt_evenly 8 (some 2) (record { globals = after 1 2 given_three; live = 2 }) 0 1
      (ground arith) reached (ground arith) (ground arith)

join_waits_then_faults_example :
    ((0 < 2) × (processors_join (after 1 2 given_three) ≡ ok waiting))
    ⊎ (◌≡◌ {A = ℕ} 2 0 × (processors_join (after 1 2 given_three) ≡ fault))
unfolding maxprocs_or
join_waits_then_faults_example =
    join_waits_then_faults 8 (some 2) (record { globals = after 1 2 given_three; live = 2 })
      (ground arith) reached
