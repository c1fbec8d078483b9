-- ===== src/Mempool/Lending/Kept.antt =====
-- Whatever the calls on a pool that mempool_create made.
use Prim.Native.String.{String}
use treasure_house.Base.{
  ℕ, ◌+◌, ◌^◌, ◌≤◌, ◌<◌, ◌≡◌, ◌≢◌, ◌⊎◌, inl, inr, sym, ◌∙◌, true, false, Bool, Option, none, some,
  List, [], length, arith,
}
use treasure_house.Base.Run.{ok, fault, Ends, Ends-at, Ends-weaken}
use treasure_house.Lists.{ListLib, has}
use treasure_house.Lists.Counts.{NoRepeats, length-remove}
use treasure_house.Mempool.Pool.{Pool, MempoolOps}
use treasure_house.Mempool.Alloc.{mempool_alloc}
use treasure_house.Mempool.Free.{mempool_free, addr_in_slab}
use treasure_house.Mempool.Slab.{Slab}
use treasure_house.Mempool.Free.PutBack.{KeepsLists}
use treasure_house.Mempool.Create.{mempool_create}
use treasure_house.Mempool.Lending.{
  State, Step, Reach, lends, fails, takes_back, here, next, MayGive,
}
use treasure_house.Mempool.Lending.Sound.{Geometry, Sound}
use treasure_house.Mempool.Lending.Apart.{Lent-apart}
use treasure_house.Mempool.Lending.Allocates.{Outcome, mempool_alloc-Outcome}
use treasure_house.Mempool.Lending.Frees.{
  mempool_free-KeepsLists, IsLastOfSlab, TakesBack, mempool_free-Outcome,
}
use treasure_house.Mempool.Lending.Created.{power, Made, mempool_create-Made}

module _ {L : ListLib} (g : Geometry) where
  -- Sound, for some free objects.
  abbrev InOrder : State L → Type 0
  InOrder s = (frees : ℕ → List ℕ) × Sound g frees s.pool s.lent

  back-InOrder :
      (s : State L) (obj : ℕ) (q : Pool L)
      → ((mempool_free obj s.pool ≡ fault) × IsLastOfSlab s.pool obj)
        ⊎ (Ends (TakesBack g s.lent obj) (mempool_free obj s.pool) × ¬ IsLastOfSlab s.pool obj)
      → mempool_free obj s.pool ≡ ok q
      → TakesBack g s.lent obj q
  back-InOrder s obj q (inl (broken, _)) done =
      let clash : fault ≡ ok q = sym broken ∙ done in absurd (ground (arith, clash))
  back-InOrder s obj q (inr (goes, _)) done = Ends-at (TakesBack g s.lent obj) _ q done goes

  Step-InOrder : {s t : State L} → Step s t → InOrder s → InOrder t
  Step-InOrder {s} (lends fresh base obj pool may done) (frees, v) =
      (Ends-at (Outcome g frees s.lent) _ (some obj, pool) done
        (mempool_alloc-Outcome g frees s.pool s.lent fresh base v may)).1
  Step-InOrder {s} (fails fresh base pool may done) (frees, v) =
      Ends-at (Outcome g frees s.lent) _ (none, pool) done
        (mempool_alloc-Outcome g frees s.pool s.lent fresh base v may)
  Step-InOrder {s} (takes_back obj pool there done) (frees, v) =
      back-InOrder s obj pool (mempool_free-Outcome g frees s.pool s.lent obj v there) done

  Reach-InOrder : {s t : State L} → Reach s t → InOrder s → InOrder t
  Reach-InOrder here v = v
  Reach-InOrder (next r step) v = Step-InOrder step (Reach-InOrder r v)

-- An object that no caller has, or NULL.
abbrev pub IsNew : {L : ListLib} → List ℕ → Option ℕ × Pool L → Type 0
IsNew lent (none, q) = Unit {0}
IsNew lent (some obj, q) = has obj lent ≡ false

module _ {L : ListLib} (memory : Bool) (name : String) (obj_size j : ℕ) (ops : Option MempoolOps)
    (pools : List (Pool L)) (p : Pool L) (s : State L) (h : j ≤ 9) (some_size : 0 < obj_size)
    (small : obj_size + power j ≤ 2 ^ 31)
    (created : mempool_create memory (some name) obj_size (power j) ops pools ≡ ok (some p))
    (reached : Reach (record { pool = p; lent = [] }) s) where
  made : Made memory name obj_size (power j) pools (some p)
  made =
      Ends-at (Made memory name obj_size (power j) pools) _ (some p) created
        (mempool_create-Made name obj_size j ops pools h some_size small memory)

  in_order : (g : Geometry) × InOrder g s
  in_order = let (least, align, (g, v)) = made in (g, Reach-InOrder g reached (_, v))

  -- In every state that calls of mempool_alloc and mempool_free lead to, each object going back
  -- once, from a pool that mempool_create made for objects of an alignment of 8, 16, …, 4096 and of
  -- a size of at least one byte and at most 2^31 less the alignment, where what calloc
  -- and malloc give is new and lies apart from the slabs there are and the objects stay below 2^63
  -- in number: two different objects that callers have
  -- share no byte.
  pub lent_apart :
      (x y : ℕ)
      → has x s.lent ≡ true
      → has y s.lent ≡ true
      → x ≢ y
      → (x + s.pool.size ≤ y) ⊎ (y + s.pool.size ≤ x)
  lent_apart x y x_lent y_lent other =
      let (g, (frees, v)) = in_order in
      rw v.shape.0 (Lent-apart g x y v (v.objects x x_lent) (v.objects y y_lent) other)

  -- In every state that calls of mempool_alloc and mempool_free lead to, each object going back
  -- once, from a pool that mempool_create made for objects of an alignment of 8, 16, …, 4096 and of
  -- a size of at least one byte and at most 2^31 less the alignment, where what calloc
  -- and malloc give is new and lies apart from the slabs there are and the objects stay below 2^63
  -- in number: used_objs is the number of objects that
  -- callers have, used_objs and free_objs add up to total_objs, and no object is with callers twice.
  pub books_kept :
      (s.pool.used_objs ≡ length s.lent)
      × (s.pool.free_objs + s.pool.used_objs ≡ s.pool.total_objs)
      × NoRepeats s.lent
  books_kept = let (g, (frees, v)) = in_order in (v.used, v.books, v.once)

  Outcome-IsNew :
      (g : Geometry) (frees : ℕ → List ℕ) (r : Option ℕ × Pool L)
      → Outcome g frees s.lent r
      → IsNew s.lent r
  Outcome-IsNew g frees (none, q) v = tt
  Outcome-IsNew g frees (some obj, q) v = v.0

  -- In every state that calls of mempool_alloc and mempool_free lead to, each object going back
  -- once, from a pool that mempool_create made for objects of an alignment of 8, 16, …, 4096 and of
  -- a size of at least one byte and at most 2^31 less the alignment, where what calloc
  -- and malloc give is new and lies apart from the slabs there are and the objects stay below 2^63
  -- in number, mempool_alloc ends without a fault, and
  -- returns NULL or an object that no caller has.
  pub mempool_alloc-IsNew :
      (fresh base : Option ℕ)
      → MayGive fresh base s.pool
      → Ends (IsNew s.lent) (mempool_alloc fresh base s.pool)
  mempool_alloc-IsNew fresh base may =
      let (g, (frees, v)) = in_order in
      Ends-weaken (mempool_alloc-Outcome g frees s.pool s.lent fresh base v may)
        (Outcome-IsNew g frees)

  -- In every state that calls of mempool_alloc and mempool_free lead to, each object going back
  -- once, from a pool that mempool_create made for objects of an alignment of 8, 16, …, 4096 and of
  -- a size of at least one byte and at most 2^31 less the alignment, where what calloc
  -- and malloc give is new and lies apart from the slabs there are and the objects stay below 2^63
  -- in number, mempool_free of an object that a caller
  -- has ends with used_objs one less, unless a slab that covers the address has this one object in
  -- use while the list of empty slabs has an entry: then it is a fault.
  pub mempool_free_of_lent :
      (obj : ℕ)
      → has obj s.lent ≡ true
      → ((mempool_free obj s.pool ≡ fault) × IsLastOfSlab s.pool obj)
        ⊎ (Ends (λ q. q.used_objs + 1 ≡ s.pool.used_objs) (mempool_free obj s.pool)
            × ¬ IsLastOfSlab s.pool obj)
  mempool_free_of_lent obj there =
      let (g, (frees, v)) = in_order in
      elim (mempool_free-Outcome g frees s.pool s.lent obj v there) [
        | inl broken ↦ inl broken
        | inr (goes, not_last) ↦ inr (
          Ends-weaken goes
              (λ q (now, w). omega (arith, w.used, v.used, length-remove obj s.lent v.once there)),
          not_last,
        )
      ]

  -- In every state that calls of mempool_alloc and mempool_free lead to, each object going back
  -- once, from a pool that mempool_create made for objects of an alignment of 8, 16, …, 4096 and of
  -- a size of at least one byte and at most 2^31 less the alignment, where what calloc
  -- and malloc give is new and lies apart from the slabs there are and the objects stay below 2^63
  -- in number: mempool_free of an object that a caller has, from a slab with another object in use,
  -- ends with the slab on the list on which it was, also if that is the list of full slabs, where
  -- mempool_alloc does not look for free objects. It changes no list and not the current slab.
  pub freed_slab_stays :
      (obj a : ℕ) (t : Slab)
      → has obj s.lent ≡ true
      → s.pool.slabs a ≡ some t
      → addr_in_slab t obj ≡ true
      → 1 < t.used
      → Ends (KeepsLists s.pool a t) (mempool_free obj s.pool)
  freed_slab_stays obj a t there at covers more =
      let (g, (frees, v)) = in_order in
      mempool_free-KeepsLists g frees s.pool s.lent obj a t v there at covers more
