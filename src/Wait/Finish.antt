-- ===== src/Wait/Finish.antt =====
-- An entry of a wait queue from prepare_to_wait to finish_wait.
use treasure_house.Base.{ℕ, ◌≡◌, refl, ◌∙◌, ap, true, false, ◌∷◌}
use treasure_house.Base.Memory.{update-same}
use treasure_house.Base.Run.{ok, fault, Ends, ends}
use treasure_house.Lists.{ListLib, has, remove}
use treasure_house.Lists.Counts.{remove-first}
use treasure_house.Coroutine.{CoStatus, is_runnable}
use treasure_house.Sched.{set_status}
use treasure_house.Wait.{
  Waits, Link, alone, linked, poisoned, set_link, coroutine_set_current_state, add_wait_queue,
  prepare_to_wait, finish_wait,
}

module _ {L : ListLib} where
  open L use {entries, list_add, list_del, entries-list_add, entries-list_del}

  set_state-runnable :
      (state : CoStatus) (w : Waits L)
      → is_runnable state ≡ true
      → coroutine_set_current_state state w
        ≡ ok (record w { board = set_status w.co_curr state w.board })
  unfolding coroutine_set_current_state
  set_state-runnable state w runs = rw runs refl

  set_link-lem : (e : ℕ) (k : Link) (w : Waits L) → ((set_link e k w).entry e).link ≡ k
  unfolding set_link
  set_link-lem e k w = rw (update-same w.entry e (record (w.entry e) { link = k })) refl

  prepare-alone :
      (e : ℕ) (state : CoStatus) (w : Waits L)
      → is_runnable state ≡ true
      → (w.entry e).link ≡ alone
      → prepare_to_wait e state w
        ≡ ok (record (add_wait_queue e w) { board = set_status w.co_curr state w.board })
  unfolding prepare_to_wait add_wait_queue set_link
  prepare-alone e state w runs free =
      rw (free, set_state-runnable state (add_wait_queue e w) runs) refl

  prepare-poisoned :
      (e : ℕ) (state : CoStatus) (w : Waits L)
      → is_runnable state ≡ true
      → (w.entry e).link ≡ poisoned
      → prepare_to_wait e state w ≡ ok (record w { board = set_status w.co_curr state w.board })
  unfolding prepare_to_wait
  prepare-poisoned e state w runs gone = rw (gone, set_state-runnable state w runs) refl

  finish-linked :
      (e : ℕ) (w : Waits L)
      → (w.entry e).link ≡ linked
      → finish_wait e w ≡ ok (set_link e poisoned (record w { task_list = list_del e w.task_list }))
  unfolding finish_wait
  finish-linked e w on = rw (finish_wait, on) refl

  finish-poisoned : (e : ℕ) (w : Waits L) → (w.entry e).link ≡ poisoned → finish_wait e w ≡ fault
  unfolding finish_wait
  finish-poisoned e w gone = rw (finish_wait, gone) refl

  -- prepare_to_wait with CO_RUNNABLE of an entry that is linked to itself alone ends and puts the
  -- entry first on the wait queue; finish_wait then ends and gives back the entries that stood there
  -- before. After that the entry is of no use: finish_wait of it is a fault, and prepare_to_wait ends
  -- without putting it on the queue.
  pub prepare_then_finish :
      (e : ℕ) (state : CoStatus) (w : Waits L)
      → is_runnable state ≡ true
      → (w.entry e).link ≡ alone
      → has e (entries w.task_list) ≡ false
      → Ends
          (λ p.
            (entries p.task_list ≡ e ∷ entries w.task_list)
            × Ends
                (λ v.
                  (entries v.task_list ≡ entries w.task_list)
                  × (finish_wait e v ≡ fault)
                  × Ends
                      (λ u. entries u.task_list ≡ entries w.task_list)
                      (prepare_to_wait e state v))
                (finish_wait e p))
          (prepare_to_wait e state w)
  unfolding add_wait_queue set_link
  prepare_then_finish e state w runs free new =
      let p = record (add_wait_queue e w) { board = set_status w.co_curr state w.board } in
      let on : (p.entry e).link ≡ linked =
        set_link-lem e linked (record w { task_list = list_add e w.task_list }) in
      let v = set_link e poisoned (record p { task_list = list_del e p.task_list }) in
      let off : (v.entry e).link ≡ poisoned =
        set_link-lem e poisoned (record p { task_list = list_del e p.task_list }) in
      let first = entries-list_add e w.task_list new in
      let back : entries v.task_list ≡ entries w.task_list =
        entries-list_del e p.task_list ∙ ap (remove e) first ∙ remove-first e _ new in
      rw (prepare-alone e state w runs free) (
        ends (
          first,
          rw (finish-linked e p on) (
              ends (
                back,
                finish-poisoned e v off,
                rw (prepare-poisoned e state v runs off) (ends back),
              )),
        ))
