-- ===== src/Mempool/Free/PutBack.antt =====
-- free_obj2slab puts an object back on its slab, or reads a slab that it has just freed.
use native.Mathlib.Nat.{mul-div_cancel}
use treasure_house.Base.{
  ℕ, ◌+◌, ◌-◌, ◌*◌, ◌/◌, ◌%◌, ◌^◌, ◌<◌, ◌≡◌, ◌≢◌, refl, true, false, none, some, List, ◌∷◌, arith,
  ◌==◌,
}
use treasure_house.Base.Run.{fault, Ends, ends, Ends-value}
use treasure_house.Lists.{ListLib, has}
use treasure_house.Mempool.Slab.{Slab, no_idx, put_free}
use treasure_house.Mempool.Slab.Freelist.{FreeIndices, put_free-FreeIndices}
use treasure_house.Mempool.Pool.{Pool, load-ok, load-fault, store}
use treasure_house.Mempool.Free.{free_obj2slab, settle, free_one_slab}
use treasure_house.Base.{ap, ◌∙◌, Bool-cases, inl, inr, ◌⊎◌}
use treasure_house.Base.Run.{ok}
use treasure_house.Mempool.Pool.{add64, sub64, move_empty}
use treasure_house.Mempool.Alloc.Listed.{Relisted, IsListed, move_empty-Elsewhere}

module _ {L : ListLib} where
  open L use {entries, list_empty}

  -- Object `i` of slab `a` is free again, and the next to be handed out.
  pub record Returned (pool : Pool L) (a : ℕ) (s : Slab) (i : ℕ) (xs : List ℕ) (p : Pool L)
      : Type 0 where
    pub slab : p.slabs a ≡ some (put_free i s)
    pub now_free : FreeIndices pool.num_per_slab (put_free i s) (i ∷ xs)
    pub others : (b : ℕ) → b ≢ a → p.slabs b ≡ pool.slabs b
    pub free_more : p.free_objs ≡ pool.free_objs + 1
    pub used_less : p.used_objs + 1 ≡ pool.used_objs

  free_one_slab-gone :
      (pool : Pool L) (a : ℕ) (s : Slab)
      → pool.slabs a ≡ some s
      → Ends (λ p. p.slabs a ≡ none) (free_one_slab a pool)
  unfolding free_one_slab
  free_one_slab-gone pool a s at = rw (load-ok pool at) (ends (ground arith))

  module _ (pool : Pool L) (a : ℕ) (s : Slab) (i : ℕ) (xs : List ℕ) (at : pool.slabs a ≡ some s)
      (v : FreeIndices pool.num_per_slab s xs) (below : i < pool.num_per_slab)
      (pos : 0 < pool.size) where
    -- The pool once the slab's own fields are updated.
    abbrev put : Pool L
    put = store a (some (put_free i s)) pool

    index : (s.obj_base + i * pool.size - s.obj_base) / pool.size % 2 ^ 16 ≡ i
    index =
        let offset : s.obj_base + i * pool.size - s.obj_base ≡ i * pool.size = omega arith in
        rw (offset, mul-div_cancel i pos) (omega (arith, v.small))

    put_at : put.slabs a ≡ some (put_free i s)
    put_at = ground arith

    one_less : 1 < s.used → ((put_free i s).used == 0) ≡ false
    unfolding put_free
    one_less used = ground (arith, v.total, v.small)

    last_one : s.used ≡ 1 → ((put_free i s).used == 0) ≡ true
    unfolding put_free
    last_one used = ground arith

    last_kept : s.last_free_idx ≢ no_idx → ((put_free i s).last_free_idx == no_idx) ≡ false
    unfolding put_free
    last_kept last = ground arith

    -- The pool at the end, with the slab on its list.
    abbrev booked : Pool L → Pool L
    booked p = record p { free_objs = add64 p.free_objs 1; used_objs = sub64 p.used_objs 1 }

    free_obj2slab-stays :
        1 < s.used
        → s.last_free_idx ≢ no_idx
        → free_obj2slab (s.obj_base + i * pool.size) a pool ≡ ok (booked put)
    unfolding free_obj2slab
    free_obj2slab-stays used last =
        let still : ((put_free i s).used == 0) ≡ false = one_less used in
        let keeps : ((put_free i s).last_free_idx == no_idx) ≡ false = last_kept last in
        rw (load-ok pool at, index, still, load-ok put {a = a} {s = put_free i s} put_at, keeps)
          refl

    free_obj2slab-empties :
        s.used ≡ 1
        → list_empty pool.empty ≡ true
        → s.last_free_idx ≢ no_idx
        → free_obj2slab (s.obj_base + i * pool.size) a pool ≡ ok (booked (move_empty a put))
    unfolding free_obj2slab settle
    free_obj2slab-empties used none_kept last =
        let none_left : ((put_free i s).used == 0) ≡ true = last_one used in
        let keeps : ((put_free i s).last_free_idx == no_idx) ≡ false = last_kept last in
        rw
          (
            load-ok pool at,
            index,
            none_left,
            none_kept,
            load-ok (move_empty a put) {a = a} {s = put_free i s} put_at,
            keeps,
          )
          refl

    -- The object is back, and its slab stands where it belongs.
    abbrev pub GoesBack : Pool L → Type 0
    GoesBack p = Returned pool a s i xs p × Relisted a (put_free i s) pool p

    booked-Returned :
        (q : Pool L)
        → q.slabs ≡ put.slabs
        → q.free_objs ≡ pool.free_objs
        → q.used_objs ≡ pool.used_objs
        → has i xs ≡ false
        → 0 < s.used
        → pool.free_objs + 1 < 2 ^ 64
        → 0 < pool.used_objs
        → pool.used_objs < 2 ^ 64
        → Returned pool a s i xs (booked q)
    booked-Returned q same free_objs used_objs out used room some_used wide = record {
      slab = ap (λ f. f a) same ∙ put_at;
      now_free = put_free-FreeIndices i xs v below out used;
      others = λ b h. ap (λ f. f b) same ∙ ground arith;
      free_more = omega arith;
      used_less = omega arith;
    }

    -- An object in use goes back, unless it is the last in use of its slab and another slab is kept
    -- empty.
    pub free_obj2slab-GoesBack :
        has i xs ≡ false
        → 0 < s.used
        → s.last_free_idx ≢ no_idx
        → IsListed a s pool
        → pool.free_objs + 1 < 2 ^ 64
        → 0 < pool.used_objs
        → pool.used_objs < 2 ^ 64
        → ((s.used ≡ 1) × (list_empty pool.empty ≡ false))
          ⊎ Ends GoesBack (free_obj2slab (s.obj_base + i * pool.size) a pool)
    free_obj2slab-GoesBack out used last listed room some_used wide =
        elim (Bool-cases (s.used == 1)) [
          | inr more ↦ inr (
              rw (free_obj2slab-stays (ground (arith, used)) last) (
                ends (
                  booked-Returned put refl refl refl out used room some_used wide,
                  record {
                    elsewhere = record {
                      partial = λ b h. refl;
                      full = λ b h. refl;
                      empty = λ b h. refl;
                    };
                    settled = record {
                      shape = (refl, refl, refl, refl);
                      cur = refl;
                      books = (refl, refl);
                    };
                    listed = rw (one_less (ground (arith, used))) (ground (arith, listed));
                  },
                )))
          | inl alone ↦ elim (Bool-cases (list_empty pool.empty)) [
            | inr kept ↦ inl (ground arith, kept)
            | inl none_kept ↦ inr (
                rw (free_obj2slab-empties (ground arith) none_kept last) (
                  ends (
                    booked-Returned (move_empty a put) refl refl refl out used room some_used wide,
                    (let (u, there) = move_empty-Elsewhere a put in
                        record {
                          elsewhere = record {
                            partial = u.partial;
                            full = u.full;
                            empty = u.empty;
                          };
                          settled = record {
                            shape = (refl, refl, refl, refl);
                            cur = refl;
                            books = (refl, refl);
                          };
                          listed = rw (last_one (ground arith)) there;
                        }),
                  )))
          ]
        ]

    -- The last object in use of a slab goes back while another slab is kept empty: the slab is
    -- freed, and then read.
    pub free_obj2slab-use_after_free :
        s.used ≡ 1
        → list_empty pool.empty ≡ false
        → free_obj2slab (s.obj_base + i * pool.size) a pool ≡ fault
    unfolding free_obj2slab settle
    free_obj2slab-use_after_free used kept =
        let none_left : ((put_free i s).used == 0) ≡ true = last_one used in
        let (p, freed, gone) = Ends-value (free_one_slab-gone put a (put_free i s) put_at) in
        rw (load-ok pool at, index, none_left, kept, freed, load-fault p gone)

  -- The lists and the current slab are as they were, and slab `a`, which was `s`, has one less in use.
  abbrev pub KeepsLists : Pool L → ℕ → Slab → Pool L → Type 0
  KeepsLists p a s q =
      (q.partial ≡ p.partial)
      × (q.full ≡ p.full)
      × (q.empty ≡ p.empty)
      × (q.cur ≡ p.cur)
      × ((t : Slab) × (q.slabs a ≡ some t) × (t.used + 1 ≡ s.used))

  pub put-KeepsLists :
      (p : Pool L) (s : Slab) (a i : ℕ) (xs : List ℕ)
      → p.slabs a ≡ some s
      → FreeIndices p.num_per_slab s xs
      → i < p.num_per_slab
      → 0 < p.size
      → 1 < s.used
      → s.last_free_idx ≢ no_idx
      → Ends (KeepsLists p a s) (free_obj2slab (s.obj_base + i * p.size) a p)
  unfolding put_free
  put-KeepsLists p s a i xs at indices below pos used last =
      rw (free_obj2slab-stays p a s i xs at indices below pos used last) (
        ends (
          refl,
          refl,
          refl,
          refl,
          (put_free i s, ground arith, ground (arith, indices.total, indices.small)),
        ))
