-- ===== src/Mempool/Lending/Takes.antt =====
-- alloc_obj_from_slab keeps the invariant, and lends an object that is not lent.
use mathlib.Core.Path.{subst}
use treasure_house.Base.{
  ℕ, ◌+◌, ◌*◌, ◌<◌, ◌≡◌, inl, inr, refl, ap, ◌∙◌, true, false, ◌==◌, some, List, ◌∷◌, arith,
  Bool-cases,
}
use treasure_house.Base.Memory.{update, update-same}
use treasure_house.Lists.{ListLib, has}
use treasure_house.Mempool.Slab.{Slab, take_free}
use treasure_house.Mempool.Slab.Freelist.{FreeIndices}
use treasure_house.Mempool.Pool.{Pool}
use treasure_house.Mempool.Alloc.FromSlab.{Taken}
use treasure_house.Mempool.Alloc.Listed.{Relisted}
use treasure_house.Mempool.Lending.Sound.{Geometry, Lent, Sound}
use treasure_house.Mempool.Lending.Changes.{
  SamePlace, Changed, Changed-Held, Changed-Clear, Changed-listed, Changed-current, Changed-Lent,
}
use treasure_house.Mempool.Lending.Apart.{Held-inside, same_slab, same_index}

take_free-SamePlace : (s : Slab) → SamePlace s (take_free s)
unfolding take_free
take_free-SamePlace s = record { base = refl; first = refl; end = refl; last = refl }

module _ {L : ListLib} (g : Geometry) where
  -- An object that is free is not in use.
  not_lent :
      (frees : ℕ → List ℕ) (p : Pool L) (lent : List ℕ) (a : ℕ) (s : Slab) (x : ℕ)
      → Sound g frees p lent
      → p.slabs a ≡ some s
      → x < g.num
      → has x (frees a) ≡ true
      → has (s.obj_base + x * g.size) lent ≡ false
  not_lent frees p lent a s x v at below free =
      elim (Bool-cases (has (s.obj_base + x * g.size) lent)) [
        | inr out ↦ out
        | inl is_lent ↦
            let obj = s.obj_base + x * g.size in
            let l = v.objects obj is_lent in
            let (low, high, inside) = Held-inside g x (v.held a s at) below in
            let same = same_slab g obj a s v l at (omega arith) (omega (arith, high)) in
            let index = same_index g frees p obj a x s l at same refl in
            let slab_is : l.slab ≡ a = ground (arith, same) in
            let index_is : l.i ≡ x = ground (arith, index) in
            let taken : has x (frees a) ≡ false =
              subst (λ b. has x (frees b) ≡ false) slab_is
                (subst (λ i. has i (frees l.slab) ≡ false) index_is l.taken) in
            ground (arith, free, taken)
      ]

  -- What a call lent: an object that was not lent, and the pool is sound with it.
  abbrev pub Lends : (ℕ → List ℕ) → List ℕ → ℕ × Pool L → Type 0
  Lends frees lent (obj, q) =
      (has obj lent ≡ false) × ((now : ℕ → List ℕ) × Sound g now q (obj ∷ lent))

  pub take-Lends :
      (frees : ℕ → List ℕ) (p : Pool L) (lent : List ℕ) (a : ℕ) (s : Slab) (x : ℕ) (xs : List ℕ)
      (r : ℕ × Pool L)
      → Sound g frees p lent
      → p.slabs a ≡ some s
      → frees a ≡ x ∷ xs
      → x < g.num
      → Taken p a s x xs r
      → Relisted a (take_free s) p r.1
      → Lends frees lent r
  take-Lends frees p lent a s x xs (obj, q) v at free below t m =
      let c : Changed a s (take_free s) p q = record {
        now = t.slab;
        others = t.others;
        place = take_free-SamePlace s;
        relisted = m;
      } in
      let address : obj ≡ s.obj_base + x * g.size =
        t.address ∙ ap (λ z. s.obj_base + x * z) v.shape.0 in
      let out : has obj lent ≡ false =
        rw address (not_lent frees p lent a s x v at below (rw free (ground arith))) in
      let (same_size, same_align, same_num, same_order) = m.settled.shape in
      let (size, align, num, order) = v.shape in
      (
        out,
        (
          update frees a xs,
          record {
            shape = (same_size ∙ size, same_align ∙ align, same_num ∙ num, same_order ∙ order);
            held =
                Changed-Held g a s (take_free s) p q at c frees xs
                  (subst (λ n. FreeIndices n (take_free s) xs) num t.rest_free) v.held;
            clear = Changed-Clear g a s (take_free s) p q at c v.clear;
            listed = Changed-listed g a s (take_free s) p q at c v.listed;
            current = Changed-current g a s (take_free s) p q at c v.current;
            objects = λ o is_lent. elim (Bool-cases (o == obj)) [
              | inl new ↦
                  let is_new : obj ≡ o = ground (arith, new) in
                  subst (λ k. Lent g (update frees a xs) q k) is_new
                    (record {
                      slab = a;
                      s = take_free s;
                      at = t.slab;
                      i = x;
                      below = below;
                      taken = rw (update-same frees a xs) t.not_free;
                      address = rw (take_free-SamePlace s).first address;
                    })
              | inr old ↦
                  let l = v.objects o (ground (arith, is_lent, old)) in
                  Changed-Lent g a s (take_free s) p q at c frees xs o l (λ same.
                    let taken : has l.i (x ∷ xs) ≡ false =
                      subst (λ ys. has l.i ys ≡ false) (ap frees (ground (arith, same)) ∙ free)
                        l.taken in
                    ground (arith, taken))
            ];
            once = (out, v.once);
            used = omega (arith, t.used_more, v.used);
            books = omega (arith, t.used_more, t.free_less, v.books, m.settled.books.1);
            room = omega (arith, v.room, m.settled.books.1);
          },
        ),
      )
