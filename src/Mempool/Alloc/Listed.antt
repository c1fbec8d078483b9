-- ===== src/Mempool/Alloc/Listed.antt =====
-- On which of the three lists the slabs of a pool stand, and what alloc_obj_from_slab does to them.
use treasure_house.Base.{
  ℕ, ◌≡◌, refl, ◌∙◌, Bool, true, false, ◌||◌, some, List, ◌∷◌, arith, ◌==◌, if◌then◌else◌, ◌⊎◌,
}
use treasure_house.Base.Run.{Ends, ends}
use treasure_house.Lists.{ListLib, has}
use treasure_house.Lists.Remove.{has-remove, has-remove_other}
use treasure_house.Mempool.Slab.{Slab, no_idx, take_free}
use treasure_house.Mempool.Slab.Freelist.{FreeIndices, take_free-FreeIndices, take_free-used}
use treasure_house.Mempool.Pool.{Pool, load-ok, store, move_partial, move_full, move_empty}
use treasure_house.Mempool.Alloc.{alloc_obj_from_slab}

has-list_del :
    (L : ListLib) (a b : ℕ) (h : L.Head)
    → (b == a) ≡ false
    → has b (L.entries (L.list_del a h)) ≡ has b (L.entries h)
has-list_del L a b h other = rw (L.entries-list_del a h) (has-remove_other b a (L.entries h) other)

has-moved :
    (L : ListLib) (a b : ℕ) (h : L.Head)
    → has b (L.entries (L.list_add a (L.list_del a h))) ≡ ((b == a) || has b (L.entries h))
has-moved L a b h =
    let gone : has a (L.entries (L.list_del a h)) ≡ false =
      rw (L.entries-list_del a h) (has-remove a (L.entries h)) in
    rw (L.entries-list_add a (L.list_del a h) gone, L.entries-list_del a h)
      (ground (arith, has-remove_other b a (L.entries h)))

module _ {L : ListLib} where
  open L use {Head, entries, list_add, list_del, entries-list_add, entries-list_del}

  abbrev pub on_partial : ℕ → Pool L → Bool
  on_partial a p = has a (entries p.partial)

  abbrev pub on_full : ℕ → Pool L → Bool
  on_full a p = has a (entries p.full)

  abbrev pub on_empty : ℕ → Pool L → Bool
  on_empty a p = has a (entries p.empty)

  -- No other slab changes its list.
  pub record Elsewhere (a : ℕ) (p q : Pool L) : Type 0 where
    pub partial : (b : ℕ) → (b == a) ≡ false → on_partial b q ≡ on_partial b p
    pub full : (b : ℕ) → (b == a) ≡ false → on_full b q ≡ on_full b p
    pub empty : (b : ℕ) → (b == a) ≡ false → on_empty b q ≡ on_empty b p

  -- What the calls never change, and what only a new slab does.
  pub record Settled (p q : Pool L) : Type 0 where
    pub shape :
        (q.size ≡ p.size)
        × (q.align ≡ p.align)
        × (q.num_per_slab ≡ p.num_per_slab)
        × (q.order ≡ p.order)
    pub cur : q.cur ≡ p.cur
    pub books : (q.slab_nums ≡ p.slab_nums) × (q.total_objs ≡ p.total_objs)

  -- A slab with objects in use stands on the list of partial or of full slabs, one without on the
  -- list of empty ones.
  abbrev pub IsListed : ℕ → Slab → Pool L → Type 0
  IsListed a s p = (if s.used == 0 then on_empty a p else on_partial a p || on_full a p) ≡ true

  pub move_partial-Elsewhere :
      (a : ℕ) (p : Pool L)
      → Elsewhere a p (move_partial a p) × (on_partial a (move_partial a p) ≡ true)
  move_partial-Elsewhere a p = (
    record {
      partial = λ b other. ground (arith, has-moved L a b p.partial);
      full = λ b other. has-list_del L a b p.full other;
      empty = λ b other. has-list_del L a b p.empty other;
    },
    ground (arith, has-moved L a a p.partial),
  )

  pub move_full-Elsewhere :
      (a : ℕ) (p : Pool L) → Elsewhere a p (move_full a p) × (on_full a (move_full a p) ≡ true)
  move_full-Elsewhere a p = (
    record {
      partial = λ b other. has-list_del L a b p.partial other;
      full = λ b other. ground (arith, has-moved L a b p.full);
      empty = λ b other. has-list_del L a b p.empty other;
    },
    ground (arith, has-moved L a a p.full),
  )

  pub move_empty-Elsewhere :
      (a : ℕ) (p : Pool L) → Elsewhere a p (move_empty a p) × (on_empty a (move_empty a p) ≡ true)
  move_empty-Elsewhere a p = (
    record {
      partial = λ b other. has-list_del L a b p.partial other;
      full = λ b other. has-list_del L a b p.full other;
      empty = λ b other. ground (arith, has-moved L a b p.empty);
    },
    ground (arith, has-moved L a a p.empty),
  )

  -- The slab at `a`, which is now `s`, stands on the list where it belongs, and no other slab
  -- changed its list.
  pub record Relisted (a : ℕ) (s : Slab) (p q : Pool L) : Type 0 where
    pub elsewhere : Elsewhere a p q
    pub settled : Settled p q
    pub listed : IsListed a s q

  pub Elsewhere-trans :
      (a : ℕ) (p q r : Pool L) → Elsewhere a p q → Elsewhere a q r → Elsewhere a p r
  Elsewhere-trans a p q r u v = record {
    partial = λ b other. v.partial b other ∙ u.partial b other;
    full = λ b other. v.full b other ∙ u.full b other;
    empty = λ b other. v.empty b other ∙ u.empty b other;
  }

  -- The lists after alloc_obj_from_slab, by its two tests.
  abbrev relist : Bool → Bool → ℕ → Pool L → Pool L
  relist last first a p =
      let filled = if last then move_full a p else p in
      if first then move_partial a filled else filled

  relist-Settled : (last first : Bool) (a : ℕ) (p : Pool L) → Settled p (relist last first a p)
  relist-Settled true true a p = record {
    shape = (refl, refl, refl, refl);
    cur = refl;
    books = (refl, refl);
  }
  relist-Settled true false a p = record {
    shape = (refl, refl, refl, refl);
    cur = refl;
    books = (refl, refl);
  }
  relist-Settled false true a p = record {
    shape = (refl, refl, refl, refl);
    cur = refl;
    books = (refl, refl);
  }
  relist-Settled false false a p = record {
    shape = (refl, refl, refl, refl);
    cur = refl;
    books = (refl, refl);
  }

  relist-Elsewhere :
      (last first : Bool) (a : ℕ) (p : Pool L)
      → first ≡ true ⊎ (on_partial a p || on_full a p) ≡ true
      → Elsewhere a p (relist last first a p)
        × ((on_partial a (relist last first a p) || on_full a (relist last first a p)) ≡ true)
  relist-Elsewhere true true a p why =
      let (u, _) = move_full-Elsewhere a p in
      let (v, there) = move_partial-Elsewhere a (move_full a p) in
      (Elsewhere-trans a p (move_full a p) _ u v, rw there refl)
  relist-Elsewhere true false a p why =
      let (u, there) = move_full-Elsewhere a p in (u, ground (arith, there))
  relist-Elsewhere false true a p why =
      let (u, there) = move_partial-Elsewhere a p in (u, rw there refl)
  relist-Elsewhere false false a p why = (
    record { partial = λ b other. refl; full = λ b other. refl; empty = λ b other. refl },
    ground (arith, why),
  )

  pub alloc_obj_from_slab-Relisted :
      (pool : Pool L) (a : ℕ) (s : Slab) (x : ℕ) (xs : List ℕ)
      → pool.slabs a ≡ some s
      → FreeIndices pool.num_per_slab s (x ∷ xs)
      → IsListed a s pool
      → Ends (λ r. Relisted a (take_free s) pool r.1) (alloc_obj_from_slab a pool)
  unfolding alloc_obj_from_slab
  alloc_obj_from_slab-Relisted pool a s x xs at v listed =
      let (rest, first, below, out) = take_free-FreeIndices x xs v in
      let more = take_free-used x xs v in
      let busy : ((take_free s).used == 0) ≡ false = ground (arith, more) in
      let valid : (s.free_idx == no_idx) ≡ false = ground (arith, first, v.small) in
      let taken = store a (some (take_free s)) pool in
      let last = s.free_idx == s.last_free_idx in
      let alone = (take_free s).used == 1 in
      let moved = relist last alone a taken in
      let (elsewhere, there) = relist-Elsewhere last alone a taken (ground (arith, more, listed)) in
      let same = relist-Settled last alone a taken in
      rw (load-ok pool at, valid)
        (ends (record {
          elsewhere = record {
            partial = elsewhere.partial;
            full = elsewhere.full;
            empty = elsewhere.empty;
          };
          settled = record { shape = same.shape; cur = same.cur; books = same.books };
          listed = rw busy there;
        }))
