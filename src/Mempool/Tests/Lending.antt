-- ===== src/Mempool/Tests/Lending.antt =====
-- The life of a pool: two objects of the small pool are lent, and one comes back.
use treasure_house.Base.{
  ℕ, ◌+◌, ◌≤◌, ◌≡◌, ◌⊎◌, refl, true, Option, none, some, [], ◌∷◌, arith, length,
}
use treasure_house.Base.Run.{Run, ok, fault, out_of_fuel, Ends}
use treasure_house.Lists.Counts.{NoRepeats}
use treasure_house.Lists.Plain.{plain}
use treasure_house.Mempool.Align.{align_up}
use treasure_house.Mempool.Order.{slab_size}
use treasure_house.Mempool.Slab.{Slab, init_freelist, take_free}
use treasure_house.Mempool.Pool.{Pool, load}
use treasure_house.Mempool.Alloc.{
  new_slab, slab_alloc, first_free, load_slab, find_slab, alloc_obj_from_slab, alloc_from,
  construct, mempool_alloc,
}
use treasure_house.Mempool.Free.{mempool_free}
use treasure_house.Mempool.Free.PutBack.{KeepsLists}
use treasure_house.Mempool.Create.{mempool_create}
use treasure_house.Mempool.Lending.{State, Reach, lends, here, next, MayGive}
use treasure_house.Mempool.Lending.Frees.{IsLastOfSlab}
use treasure_house.Mempool.Lending.Created.{Made, mempool_create-Made}
use treasure_house.Mempool.Lending.Kept.{
  IsNew, lent_apart, books_kept, mempool_alloc-IsNew, mempool_free_of_lent, freed_slab_stays,
}
use treasure_house.Mempool.Tests.{pool, create_result}

mempool_create-Made_example :
    Ends (Made {L = plain} true "p" 500 8 []) (mempool_create true (some "p") 500 8 none [])
mempool_create-Made_example =
    mempool_create-Made "p" 500 0 none [] (omega arith) (omega arith) (omega arith) true

abbrev pool_of : Run (Option ℕ × Pool plain) → Pool plain
pool_of (ok (obj, p)) = p
pool_of fault = pool
pool_of out_of_fuel = pool

abbrev one_lent : Pool plain
one_lent = pool_of (mempool_alloc (some 600) (some 8192) pool)

abbrev two_lent : Pool plain
two_lent = pool_of (mempool_alloc none none one_lent)

pool-MayGive : MayGive (some 600) (some 8192) pool
unfolding slab_size
pool-MayGive = (refl, omega arith, omega arith, λ b t at. absurd (ground (arith, at)))

first_lent : mempool_alloc (some 600) (some 8192) pool ≡ ok (some 8192, one_lent)
unfolding mempool_alloc find_slab load_slab first_free slab_alloc alloc_from alloc_obj_from_slab
    construct new_slab align_up init_freelist take_free load
first_lent = refl

second_lent : mempool_alloc none none one_lent ≡ ok (some 8696, two_lent)
unfolding mempool_alloc find_slab load_slab first_free slab_alloc alloc_from alloc_obj_from_slab
    construct new_slab align_up init_freelist take_free load
second_lent = refl

abbrev lent_state : State plain
lent_state = record { pool = two_lent; lent = 8696 ∷ 8192 ∷ [] }

two_are_lent : Reach (record { pool = pool; lent = [] }) lent_state
two_are_lent =
    next (next here (lends (some 600) (some 8192) 8192 one_lent pool-MayGive first_lent))
      (lends none none 8696 two_lent tt second_lent)

lent_apart_example : (8696 + two_lent.size ≤ 8192) ⊎ (8192 + two_lent.size ≤ 8696)
lent_apart_example =
    lent_apart true "p" 500 0 none [] pool lent_state (omega arith) (omega arith) (omega arith)
      create_result two_are_lent 8696 8192 refl refl (omega arith)

books_kept_example :
    (two_lent.used_objs ≡ length lent_state.lent)
    × (two_lent.free_objs + two_lent.used_objs ≡ two_lent.total_objs)
    × NoRepeats lent_state.lent
books_kept_example =
    books_kept true "p" 500 0 none [] pool lent_state (omega arith) (omega arith) (omega arith)
      create_result two_are_lent

mempool_alloc-IsNew_example : Ends (IsNew (8696 ∷ 8192 ∷ [])) (mempool_alloc none none two_lent)
mempool_alloc-IsNew_example =
    mempool_alloc-IsNew true "p" 500 0 none [] pool lent_state (omega arith) (omega arith)
      (omega arith) create_result two_are_lent none none tt

mempool_free_of_lent_example :
    ((mempool_free 8192 two_lent ≡ fault) × IsLastOfSlab two_lent 8192)
    ⊎ (Ends (λ q. q.used_objs + 1 ≡ two_lent.used_objs) (mempool_free 8192 two_lent)
        × ¬ IsLastOfSlab two_lent 8192)
mempool_free_of_lent_example =
    mempool_free_of_lent true "p" 500 0 none [] pool lent_state (omega arith) (omega arith)
      (omega arith) create_result two_are_lent 8192 refl

abbrev slab_of : Option Slab → Slab
slab_of (some s) = s
slab_of none = record {
  s_base = 0;
  obj_base = 0;
  obj_end = 0;
  free_idx = 0;
  last_free_idx = 0;
  used = 0;
  free = 0;
  freelist = λ _. 0;
}

abbrev slab_lent : Slab
slab_lent = slab_of (two_lent.slabs 600)

freed_slab_stays_example : Ends (KeepsLists two_lent 600 slab_lent) (mempool_free 8192 two_lent)
unfolding mempool_alloc find_slab load_slab first_free slab_alloc alloc_from alloc_obj_from_slab
    construct new_slab align_up init_freelist take_free load slab_size
freed_slab_stays_example =
    freed_slab_stays true "p" 500 0 none [] pool lent_state (omega arith) (omega arith)
      (omega arith) create_result two_are_lent 8192 600 slab_lent refl refl refl (omega arith)
