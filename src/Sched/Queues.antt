-- ===== src/Sched/Queues.antt =====
-- What the calls do to the queues, seen as lists.
use treasure_house.Base.{ℕ, ◌≡◌, false, List, [], ◌∷◌, ◌++◌, ◌∙◌, ap, arith, ◌==◌}
use treasure_house.Base.Memory.{update-same, update-other}
use treasure_house.Lists.{ListLib, has, remove}
use treasure_house.Lists.Remove.{has-remove}
use treasure_house.Sched.{Board, sched_co_resume, co_queue_append, unlink, set_status}

module _ {L : ListLib} where
  open L use {
    entries, list_del, list_add_tail, list_empty, entries-list_add_tail, entries-list_del,
    list_empty-entries,
  }

  abbrev pub ready : Board L → List ℕ
  ready b = entries (b.queues b.co_ready_queue)

  abbrev pub waiting : Board L → List ℕ
  waiting b = entries (b.queues b.co_queue)

  pub entries-append :
      (q co : ℕ) (b : Board L)
      → has co (entries (b.queues q)) ≡ false
      → entries ((co_queue_append q co b).queues q) ≡ entries (b.queues q) ++ co ∷ []
  unfolding co_queue_append
  entries-append q co b new =
      ap entries (update-same b.queues q (list_add_tail co (b.queues q)))
      ∙ entries-list_add_tail co (b.queues q) new

  pub entries-append_other :
      (q co : ℕ) (b : Board L) (r : ℕ)
      → (q == r) ≡ false
      → entries ((co_queue_append q co b).queues r) ≡ entries (b.queues r)
  unfolding co_queue_append
  entries-append_other q co b r other =
      ap entries (update-other b.queues q (list_add_tail co (b.queues q)) r other)

  pub entries-unlink :
      (co : ℕ) (b : Board L) (q : ℕ)
      → entries ((unlink co b).queues q) ≡ remove co (entries (b.queues q))
  unfolding unlink
  entries-unlink co b q = entries-list_del co (b.queues q)

  pub ready-resumed :
      (co : ℕ) (b : Board L) → ready (sched_co_resume co b) ≡ remove co (ready b) ++ co ∷ []
  unfolding sched_co_resume co_queue_append set_status unlink
  ready-resumed co b =
      entries-append b.co_ready_queue co (unlink co b)
        (ap (has co) (entries-unlink co b b.co_ready_queue) ∙ has-remove co (ready b))
      ∙ ap (λ l. l ++ co ∷ []) (entries-unlink co b b.co_ready_queue)

  pub waiting-resumed :
      (co : ℕ) (b : Board L)
      → (b.co_queue == b.co_ready_queue) ≡ false
      → waiting (sched_co_resume co b) ≡ remove co (waiting b)
  unfolding sched_co_resume co_queue_append set_status unlink
  waiting-resumed co b two =
      entries-append_other b.co_ready_queue co (unlink co b) b.co_queue (ground arith)
      ∙ entries-unlink co b b.co_queue
