-- ===== src/Mempool/Lending/Frees.antt =====
-- mempool_free of an object that is lent, in a sound pool.
use mathlib.Core.Path.{subst}
use treasure_house.Base.{
  ℕ, ◌+◌, ◌*◌, ◌<◌, ◌≡◌, ◌⊎◌, inl, inr, refl, sym, ap, ◌∙◌, true, false, ◌==◌, ◌||◌, Option, none,
  some, List, ◌∷◌, arith, Bool-cases,
}
use treasure_house.Base.Memory.{update}
use treasure_house.Base.Run.{fault, ok, Ends, Ends-weaken, Ends-value}
use treasure_house.Lists.Remove.{has-remove, has-remove_other}
use treasure_house.Lists.Counts.{NoRepeats-remove, length-remove}
use treasure_house.Mempool.Slab.{Slab, put_free}
use treasure_house.Mempool.Slab.Freelist.{FreeIndices, FreeIndices-used}
use treasure_house.Mempool.Pool.{Pool}
use treasure_house.Mempool.Alloc.Listed.{Relisted, on_partial, on_full}
use treasure_house.Mempool.Free.{addr_in_slab, find_obj_slab, free_obj2slab, mempool_free}
use treasure_house.Mempool.Free.Holder.{Holder, find_obj_slab-Holder}
use treasure_house.Mempool.Free.PutBack.{
  KeepsLists, put-KeepsLists, Returned, free_obj2slab-GoesBack, free_obj2slab-use_after_free,
}
use treasure_house.Mempool.Lending.Sound.{Geometry, Lent, Sound}
use treasure_house.Mempool.Lending.Apart.{Held-inside, one_slab, same_slab}
use treasure_house.Mempool.Lending.Changes.{
  SamePlace, Changed, Changed-Held, Changed-Clear, Changed-listed, Changed-current, Changed-Lent,
}
use treasure_house.Lists.{ListLib, has, remove}

put_free-SamePlace : (i : ℕ) (s : Slab) → SamePlace s (put_free i s)
unfolding put_free
put_free-SamePlace i s = record { base = refl; first = refl; end = refl; last = refl }

-- An object in use is not where an object goes that was put back.
other_index :
    {L : ListLib} (g : Geometry) (frees : ℕ → List ℕ) (p : Pool L) (o obj : ℕ)
    → (o == obj) ≡ false
    → (k : Lent g frees p o) (l : Lent g frees p obj) → (k.slab == l.slab) ≡ true
    → has k.i (l.i ∷ frees l.slab) ≡ false
other_index g frees p o obj other k l same =
    let taken : has k.i (frees l.slab) ≡ false =
      subst (λ b. has k.i (frees b) ≡ false) (ground (arith, same)) k.taken in
    let base : k.s.obj_base ≡ l.s.obj_base = ap (λ t. t.obj_base) (one_slab p k.at l.at same) in
    elim (Bool-cases (k.i == l.i)) [
      | inr apart ↦ ground (arith, apart, taken)
      | inl together ↦
          let e : k.i ≡ l.i = ground (arith, together) in
          let where_k : o ≡ l.s.obj_base + l.i * g.size = rw (sym base, sym e) k.address in
          absurd (ground (arith, where_k, l.address, other))
    ]

module _ {L : ListLib} where
  open L use {list_empty}

  -- The object is the last in use of its slab, and another slab is kept empty.
  abbrev pub IsLastOfSlab : Pool L → ℕ → Type 0
  IsLastOfSlab p obj =
      (a : ℕ) × (s : Slab) × (p.slabs a ≡ some s)
      × (addr_in_slab s obj ≡ true)
      × (s.used ≡ 1)
      × (list_empty p.empty ≡ false)

module _ {L : ListLib} (g : Geometry) where
  open L use {entries, list_empty}

  Returned-Sound :
      (frees : ℕ → List ℕ) (p q : Pool L) (lent : List ℕ) (obj : ℕ)
      → Sound g frees p lent
      → has obj lent ≡ true
      → (l : Lent g frees p obj) → Returned p l.slab l.s l.i (frees l.slab) q
      → Relisted l.slab (put_free l.i l.s) p q
      → Sound g (update frees l.slab (l.i ∷ frees l.slab)) q (remove obj lent)
  Returned-Sound frees p q lent obj v is_lent l t m =
      let a = l.slab in
      let ys = l.i ∷ frees a in
      let c : Changed a l.s (put_free l.i l.s) p q = record {
        now = t.slab;
        others = t.others;
        place = put_free-SamePlace l.i l.s;
        relisted = m;
      } in
      let (same_size, same_align, same_num, same_order) = m.settled.shape in
      let (size, align, num, order) = v.shape in
      let fewer = length-remove obj lent v.once is_lent in
      record {
        shape = (same_size ∙ size, same_align ∙ align, same_num ∙ num, same_order ∙ order);
        held =
            Changed-Held g a l.s (put_free l.i l.s) p q l.at c frees ys
              (subst (λ n. FreeIndices n (put_free l.i l.s) ys) num t.now_free) v.held;
        clear = Changed-Clear g a l.s (put_free l.i l.s) p q l.at c v.clear;
        listed = Changed-listed g a l.s (put_free l.i l.s) p q l.at c v.listed;
        current = Changed-current g a l.s (put_free l.i l.s) p q l.at c v.current;
        objects = λ o there.
            let other : (o == obj) ≡ false = elim (Bool-cases (o == obj)) [
              | inr apart ↦ apart
              | inl same ↦
                  let e : o ≡ obj = ground (arith, same) in
                  let gone : has o (remove obj lent) ≡ false = rw e (has-remove obj lent) in
                  absurd (ground (arith, there, gone))
            ] in
            let k = v.objects o (sym (has-remove_other o obj lent other) ∙ there) in
            Changed-Lent g a l.s (put_free l.i l.s) p q l.at c frees ys o k
              (λ same. other_index g frees p o obj other k l same);
        once = NoRepeats-remove obj lent v.once;
        used = omega (arith, t.used_less, v.used, fewer);
        books = omega (arith, t.used_less, t.free_more, v.books, m.settled.books.1);
        room = omega (arith, v.room, m.settled.books.1);
      }

  -- The object is back, and the pool is sound without it.
  abbrev pub TakesBack : List ℕ → ℕ → Pool L → Type 0
  TakesBack lent obj q = (now : ℕ → List ℕ) × Sound g now q (remove obj lent)

  -- What is asked of an object that goes back.
  in_pool :
      (frees : ℕ → List ℕ) (p : Pool L) (lent : List ℕ) (obj : ℕ)
      → Sound g frees p lent
      → (l : Lent g frees p obj)
      → FreeIndices p.num_per_slab l.s (frees l.slab)
        × (l.i < p.num_per_slab)
        × (0 < p.size)
        × (0 < l.s.used)
        × (l.s.obj_base + l.i * p.size ≡ obj)
  in_pool frees p lent obj v l =
      let h = v.held l.slab l.s l.at in
      let (size, align, num, order) = v.shape in
      (
        subst (λ n. FreeIndices n l.s (frees l.slab)) (sym num) h.indices,
        rw num l.below,
        omega (arith, size, g.wide),
        FreeIndices-used l.i (frees l.slab) h.indices l.below l.taken,
        rw size (sym l.address),
      )

  last_faults :
      (frees : ℕ → List ℕ) (p : Pool L) (lent : List ℕ) (obj : ℕ)
      → Sound g frees p lent
      → (l : Lent g frees p obj) → l.s.used ≡ 1
      → list_empty p.empty ≡ false
      → free_obj2slab obj l.slab p ≡ fault
  last_faults frees p lent obj v l alone kept =
      let (indices, below, pos, used, address) = in_pool frees p lent obj v l in
      ap (λ o. free_obj2slab o l.slab p) (sym address)
      ∙ free_obj2slab-use_after_free p l.slab l.s l.i (frees l.slab) l.at indices below pos alone
          kept

  not_last :
      (frees : ℕ → List ℕ) (p : Pool L) (lent : List ℕ) (obj : ℕ)
      → Sound g frees p lent
      → (l : Lent g frees p obj) → Ends (TakesBack lent obj) (free_obj2slab obj l.slab p)
      → ¬ IsLastOfSlab p obj
  not_last frees p lent obj v l goes (a, s, at, covers, alone, kept) =
      let same = same_slab g obj a s v l at (ground (arith, covers)) (ground (arith, covers)) in
      let is : l.s ≡ s = one_slab p l.at at same in
      let broken = last_faults frees p lent obj v l (ap (λ t. t.used) is ∙ alone) kept in
      let (q, e, back) = Ends-value goes in
      let clash : fault ≡ ok q = sym broken ∙ e in ground (arith, clash)

  put_back :
      (frees : ℕ → List ℕ) (p : Pool L) (lent : List ℕ) (obj : ℕ)
      → Sound g frees p lent
      → has obj lent ≡ true
      → (l : Lent g frees p obj)
      → ((free_obj2slab obj l.slab p ≡ fault) × IsLastOfSlab p obj)
        ⊎ (Ends (TakesBack lent obj) (free_obj2slab obj l.slab p) × ¬ IsLastOfSlab p obj)
  put_back frees p lent obj v is_lent l =
      let h = v.held l.slab l.s l.at in
      let (indices, below, pos, used, address) = in_pool frees p lent obj v l in
      let some_used : 0 < p.used_objs =
        omega (arith, v.used, length-remove obj lent v.once is_lent) in
      let (low, high, inside) = Held-inside g l.i h l.below in
      elim (free_obj2slab-GoesBack p l.slab l.s l.i (frees l.slab) l.at indices below pos l.taken
        used h.last h.listed (omega (arith, v.books, v.room)) some_used
        (omega (arith, v.books, v.room))) [
          | inl (alone, kept) ↦ inl (
            last_faults frees p lent obj v l alone kept,
            (l.slab, l.s, l.at, ground (arith, l.address, high), alone, kept),
          )
          | inr goes ↦
              let back : Ends (TakesBack lent obj) (free_obj2slab obj l.slab p) =
                subst (λ o. Ends (TakesBack lent obj) (free_obj2slab o l.slab p)) address
                  (Ends-weaken goes
                    (λ q (t, m). (_, Returned-Sound frees p q lent obj v is_lent l t m))) in
              inr (back, not_last frees p lent obj v l back)
        ]

  -- find_obj_slab finds the slab of an object in use.
  finds :
      (frees : ℕ → List ℕ) (p : Pool L) (lent : List ℕ) (obj : ℕ)
      → Sound g frees p lent
      → has obj lent ≡ true
      → (l : Lent g frees p obj) → find_obj_slab p obj ≡ ok (some l.slab)
  finds frees p lent obj v is_lent l =
      let h = v.held l.slab l.s l.at in
      let used = FreeIndices-used l.i (frees l.slab) h.indices l.below l.taken in
      let (low, high, inside) = Held-inside g l.i h l.below in
      let counted : (p.used_objs == 0) ≡ false =
        ground (arith, v.used, length-remove obj lent v.once is_lent) in
      let covers : addr_in_slab l.s obj ≡ true = ground (arith, l.address) in
      let listed : (on_partial l.slab p || on_full l.slab p) ≡ true =
        ground (arith, h.listed, used) in
      let (r, e, (partial, full)) = Ends-value (
        find_obj_slab-Holder p obj counted (λ a there. v.listed a (ground (arith, there)))
          (λ a there. v.listed a (ground (arith, there)))) in
      e ∙ found r partial full used covers listed
    where
      found :
          (r : Option ℕ)
          → Holder p obj (entries p.partial) r
          → Holder p obj (entries p.full) r
          → 0 < l.s.used
          → addr_in_slab l.s obj ≡ true
          → (on_partial l.slab p || on_full l.slab p) ≡ true
          → ok r ≡ ok (some l.slab)
      found none partial full used covers listed = elim (Bool-cases (on_partial l.slab p)) [
        | inl there ↦ absurd (ground (arith, partial l.slab l.s there l.at used, covers))
        | inr away ↦
            absurd
              (ground (arith, full l.slab l.s (ground (arith, listed, away)) l.at used, covers))
      ]
      found (some a) (s, at, (some_used, here)) full used covers listed =
          let same = same_slab g obj a s v l at (ground (arith, here)) (ground (arith, here)) in
          ap (λ b. ok (some b)) (ground (arith, same))

  pub mempool_free-Outcome :
      (frees : ℕ → List ℕ) (p : Pool L) (lent : List ℕ) (obj : ℕ)
      → Sound g frees p lent
      → has obj lent ≡ true
      → ((mempool_free obj p ≡ fault) × IsLastOfSlab p obj)
        ⊎ (Ends (TakesBack lent obj) (mempool_free obj p) × ¬ IsLastOfSlab p obj)
  unfolding mempool_free
  mempool_free-Outcome frees p lent obj v is_lent =
      let l = v.objects obj is_lent in
      rw (finds frees p lent obj v is_lent l) (put_back frees p lent obj v is_lent l)

  pub mempool_free-KeepsLists :
      (frees : ℕ → List ℕ) (p : Pool L) (lent : List ℕ) (obj a : ℕ) (s : Slab)
      → Sound g frees p lent
      → has obj lent ≡ true
      → p.slabs a ≡ some s
      → addr_in_slab s obj ≡ true
      → 1 < s.used
      → Ends (KeepsLists p a s) (mempool_free obj p)
  unfolding mempool_free
  mempool_free-KeepsLists frees p lent obj a s v is_lent at covers more =
      let l = v.objects obj is_lent in
      let same = same_slab g obj a s v l at (ground (arith, covers)) (ground (arith, covers)) in
      let (indices, below, pos, used, address) = in_pool frees p lent obj v l in
      let is : l.s ≡ s = one_slab p l.at at same in
      let here : l.slab ≡ a = ground (arith, same) in
      let h = v.held l.slab l.s l.at in
      rw (finds frees p lent obj v is_lent l) (
        subst (λ t. Ends (KeepsLists p a t) (free_obj2slab obj l.slab p)) is
          (subst (λ b. Ends (KeepsLists p b l.s) (free_obj2slab obj l.slab p)) here
            (subst (λ o. Ends (KeepsLists p l.slab l.s) (free_obj2slab o l.slab p)) address
              (put-KeepsLists p l.s l.slab l.i (frees l.slab) l.at indices below pos
                (subst (λ t. 1 < t.used) (sym is) more) h.last))))
