-- ===== src/Mempool/Tests/Frees.antt =====
-- What goes back to the pool: runs, and the theorems at a small pool.
use treasure_house.Base.{
  ◌%◌, ℕ, zero, suc, ◌+◌, ◌*◌, ◌^◌, ◌≡◌, refl, true, Option, none, some, [], ◌∷◌, arith,
}
use treasure_house.Base.Run.{Run, ok, fault, Ends, ◌>>=◌}
use treasure_house.Lists.Plain.{plain}
use treasure_house.Mempool.Align.{align_up}
use treasure_house.Mempool.Slab.{Slab, init_freelist, take_free, put_free}
use treasure_house.Mempool.Slab.Freelist.{indices_from, take_free-FreeIndices}
use treasure_house.Mempool.Pool.{Pool, load}
use treasure_house.Mempool.Alloc.{
  new_slab, slab_alloc, first_free, load_slab, find_slab, alloc_obj_from_slab, construct,
  mempool_alloc,
}
use treasure_house.Mempool.Free.{
  holder_in, find_obj_slab, free_object, free_objects, free_one_slab, settle, free_obj2slab,
  mempool_free, free_each, free_all_slabs,
}
use treasure_house.Mempool.Free.PutBack.{free_obj2slab-use_after_free}
use treasure_house.Mempool.Free.Reclaim.{IsWords, free_one_slab-Dropped}
use treasure_house.Mempool.Create.{find_mempool_by_name, mempool_create, mempool_destory}
use treasure_house.Mempool.Geometry.{mempool_create_zero_align}
use treasure_house.Mempool.Tests.{pool, slab, slab-FreeIndices, busy}

-- One object of the slab is in use, and the slab at 900 is kept empty.
abbrev last_used : Pool plain
last_used = record busy { slabs = λ _. some (take_free slab); empty = 900 ∷ []; used_objs = 1 }

free_obj2slab-use_after_free_example :
    free_obj2slab ((take_free slab).obj_base + 0 * 504) 600 last_used ≡ fault
unfolding take_free new_slab
free_obj2slab-use_after_free_example =
    free_obj2slab-use_after_free last_used 600 (take_free slab) 0 (indices_from 1 7) refl
      (take_free-FreeIndices 0 _ slab-FreeIndices).0 (omega arith) (omega arith) refl refl

words : Slab
words = record slab { free_idx = 2; used = 2; free = 6; freelist = λ i. (i + 1) % 2 ^ 16 }

words-IsWords : IsWords words
unfolding words
words-IsWords = record { first = omega arith; links = λ i. omega arith }

free_one_slab-Dropped_example :
    Ends
      (λ p.
        (p.calls ≡ [])
        × (p.used_objs ≡ 2)
        × (p.free_objs + 8 ≡ 14)
        × (p.total_objs + 8 ≡ 16)
        × (p.slabs 600 ≡ none))
      (free_one_slab 600 (record busy { slabs = λ _. some words; free_objs = 14; total_objs = 16 }))
free_one_slab-Dropped_example =
    free_one_slab-Dropped (record busy { slabs = λ _. some words; free_objs = 14; total_objs = 16 })
      600 words refl words-IsWords (omega arith) (omega arith) (omega arith) (omega arith)

no_align : mempool_create {L = plain} true (some "q") 500 0 none (pool ∷ []) ≡ fault
unfolding find_mempool_by_name
no_align = mempool_create_zero_align "q" 500 none (pool ∷ []) refl

-- `n` calls of mempool_alloc, each with memory for a slab at `at`; the last object is returned.
abbrev alloc_times : ℕ → ℕ → Option ℕ × Pool plain → Run (Option ℕ × Pool plain)
alloc_times zero at r = ok r
alloc_times (suc n) at (_, p) = mempool_alloc (some at) (some at) p >>= alloc_times n at

-- Two slabs are filled, an object of the first goes back, and no object can be had: NULL.
-- There is memory for a slab, and one object is free.
lost : Run (Option ℕ × ℕ)
unfolding mempool_alloc find_slab load_slab first_free slab_alloc alloc_obj_from_slab construct
    new_slab align_up init_freelist take_free load
lost = do
  (first, a) ← mempool_alloc (some 8192) (some 8192) pool
  (_, b) ← alloc_times 7 8192 (first, a)
  (_, c) ← alloc_times 8 65536 (none, b)
  d ← mempool_free 8192 c
  (obj, e) ← mempool_alloc (some 131072) (some 131072) d
  ok (obj, e.free_objs)

lost_result : lost ≡ ok (none, 1)
unfolding lost mempool_free find_obj_slab holder_in free_obj2slab settle put_free
lost_result = refl

-- Without frees, mempool_destory gives the slabs back.
destroyed : Run (Option ℕ)
unfolding lost
destroyed = do
  (_, a) ← mempool_alloc (some 8192) (some 8192) pool
  p ← mempool_destory (some a)
  ok (elim p [ none ↦ none | some q ↦ some q.slab_nums ])

destroyed_result : destroyed ≡ ok (some 0)
unfolding destroyed mempool_destory free_all_slabs free_each free_one_slab free_objects free_object
destroyed_result = refl
