-- ===== src/Mempool/Lending/Allocates.antt =====
-- mempool_alloc in a sound pool.
use mathlib.Core.Path.{subst}
use treasure_house.Base.{
  ℕ, ◌^◌, ◌<◌, ◌≡◌, refl, sym, ap, ◌∙◌, length, ◌==◌, Option, none, some, List, [], ◌∷◌, ◌++◌,
  arith, Bool-cases, inl, inr, if◌then◌else◌,
}
use treasure_house.Base.Memory.{update, update-same}
use treasure_house.Base.Run.{ok, Ends, ends, Ends-bind, Ends-both, Ends-weaken}
use treasure_house.Lists.{ListLib}
use treasure_house.Mempool.Slab.{Slab}
use treasure_house.Mempool.Slab.Freelist.{FreeIndices, indices_from}
use treasure_house.Mempool.Pool.{Pool, MempoolOps, Call, ctor_of}
use treasure_house.Mempool.Alloc.{
  alloc_from, construct, mempool_alloc, slab_alloc, new_slab, alloc_obj_from_slab,
}
use treasure_house.Mempool.Alloc.FromSlab.{alloc_obj_from_slab-Taken}
use treasure_house.Mempool.Alloc.Listed.{alloc_obj_from_slab-Relisted}
use treasure_house.Mempool.Alloc.Search.{Found, find_slab-Found}
use treasure_house.Mempool.Lending.{MayGive}
use treasure_house.Mempool.Lending.Sound.{Geometry, Sound}
use treasure_house.Mempool.Lending.Takes.{Lends, take-Lends}
use treasure_house.Mempool.Lending.Grows.{grown-Sound, num_small}

module _ {L : ListLib} where
  new_slab-some :
      (p : Pool L) (base : ℕ)
      → 0 < p.num_per_slab
      → p.num_per_slab < 2 ^ 15
      → 0 < (new_slab p base).free
  unfolding new_slab
  new_slab-some p base pos small = omega arith

module _ {L : ListLib} (g : Geometry) where
  -- Calls of constructors do not count.
  calls-Sound :
      (frees : ℕ → List ℕ) (p : Pool L) (lent : List ℕ) (calls : List Call)
      → Sound g frees p lent
      → Sound g frees (record p { calls = calls }) lent
  calls-Sound frees p lent calls v = record {
    shape = v.shape;
    held = λ a s at.
        let h = v.held a s at in
        record {
          indices = h.indices;
          last = h.last;
          reach = h.reach;
          lower = h.lower;
          upper = h.upper;
          listed = h.listed;
        };
    clear = v.clear;
    listed = v.listed;
    current = v.current;
    objects = λ obj is_lent.
        let l = v.objects obj is_lent in
        record {
          slab = l.slab;
          s = l.s;
          at = l.at;
          i = l.i;
          below = l.below;
          taken = l.taken;
          address = l.address;
        };
    once = v.once;
    used = v.used;
    books = v.books;
    room = v.room;
  }

  constructed-Sound :
      (frees : ℕ → List ℕ) (p : Pool L) (lent : List ℕ) (obj : ℕ) (ops : Option MempoolOps)
      → Sound g frees p lent
      → Sound g frees
          (elim ops [
            | none ↦ p
            | some o ↦ if o.ctor then record p { calls = p.calls ++ ctor_of obj ∷ [] } else p
          ])
          lent
  constructed-Sound frees p lent obj none v = v
  constructed-Sound frees p lent obj (some o) v = elim (Bool-cases o.ctor) [
    | inl calls ↦ rw calls (calls-Sound frees p lent _ v)
    | inr quiet ↦ rw quiet v
  ]

  construct-Sound :
      (frees : ℕ → List ℕ) (p : Pool L) (lent : List ℕ) (obj : ℕ)
      → Sound g frees p lent
      → Sound g frees (construct obj p) lent
  unfolding construct
  construct-Sound frees p lent obj v = constructed-Sound frees p lent obj p.ops v

  -- From a slab that has a free object.
  from_slab :
      (frees : ℕ → List ℕ) (p : Pool L) (lent : List ℕ) (a : ℕ) (s : Slab) (zs : List ℕ)
      → Sound g frees p lent
      → p.slabs a ≡ some s
      → frees a ≡ zs
      → 0 < s.free
      → 0 < p.free_objs
      → Ends (Lends g frees lent) (alloc_obj_from_slab a p)
  from_slab frees p lent a s [] v at free some_left counted =
      let none_left : s.free ≡ 0 = (v.held a s at).indices.counted ∙ ap length free in
      absurd (omega arith)
  from_slab frees p lent a s (x ∷ xs) v at free some_left counted =
      let h = v.held a s at in
      let mine : FreeIndices g.num s (x ∷ xs) =
        subst (λ ys. FreeIndices g.num s ys) free h.indices in
      let indices = subst (λ n. FreeIndices n s (x ∷ xs)) (sym v.shape.2) mine in
      Ends-weaken
        (Ends-both
          (alloc_obj_from_slab-Taken p a s x xs at indices counted (omega (arith, v.books, v.room)))
          (alloc_obj_from_slab-Relisted p a s x xs at indices h.listed))
        (λ r (t, m). take-Lends g frees p lent a s x xs r v at free mine.distinct.0 t m)

  -- NULL, and the pool is sound; or an object that was not lent, and it is sound with that.
  abbrev pub Outcome : (ℕ → List ℕ) → List ℕ → Option ℕ × Pool L → Type 0
  Outcome frees lent (none, q) = (now : ℕ → List ℕ) × Sound g now q lent
  Outcome frees lent (some obj, q) = Lends g frees lent (obj, q)

  built :
      (frees : ℕ → List ℕ) (lent : List ℕ) (obj : ℕ) (q : Pool L)
      → Lends g frees lent (obj, q)
      → Ends (Outcome frees lent) (ok (some obj, construct obj q))
  built frees lent obj q (out, (now, v)) =
      ends (out, (now, construct-Sound now q (obj ∷ lent) obj v))

  -- The current slab may be any that is there.
  current-Sound :
      (frees : ℕ → List ℕ) (p : Pool L) (lent : List ℕ) (a : ℕ) (s : Slab)
      → p.slabs a ≡ some s
      → Sound g frees p lent
      → Sound g frees (record p { cur = some a }) lent
  current-Sound frees p lent a s at v = record {
    shape = v.shape;
    held = λ b u e.
        let h = v.held b u e in
        record {
          indices = h.indices;
          last = h.last;
          reach = h.reach;
          lower = h.lower;
          upper = h.upper;
          listed = h.listed;
        };
    clear = v.clear;
    listed = v.listed;
    current = λ b e. (s, ap p.slabs (ground (arith, e)) ∙ at);
    objects = λ obj is_lent.
        let l = v.objects obj is_lent in
        record {
          slab = l.slab;
          s = l.s;
          at = l.at;
          i = l.i;
          below = l.below;
          taken = l.taken;
          address = l.address;
        };
    once = v.once;
    used = v.used;
    books = v.books;
    room = v.room;
  }

  from_there :
      (frees : ℕ → List ℕ) (p : Pool L) (lent : List ℕ) (a : ℕ) (s : Slab)
      → Sound g frees p lent
      → p.slabs a ≡ some s
      → 0 < s.free
      → 0 < p.free_objs
      → Ends (Outcome frees lent) (alloc_from (some a, p))
  unfolding alloc_from
  from_there frees p lent a s v at some_left counted =
      Ends-bind (from_slab frees p lent a s (frees a) v at refl some_left counted)
        (λ (obj, q) lends. built frees lent obj q lends)

  from_search :
      (frees : ℕ → List ℕ) (p : Pool L) (lent : List ℕ) (r : Option ℕ × Pool L)
      → Sound g frees p lent
      → 0 < p.free_objs
      → Found p r
      → Ends (Outcome frees lent) (alloc_from r)
  unfolding alloc_from
  from_search frees p lent (none, q) v counted e =
      ends (frees, subst (λ k. Sound g frees k lent) (sym e) v)
  from_search frees p lent (some a, q) v counted (e, (s, at, some_left)) =
      subst (λ k. Ends (Outcome frees lent) (alloc_from (some a, k))) (sym e)
        (from_there frees (record p { cur = some a }) lent a s (current-Sound frees p lent a s at v)
          at some_left counted)

  from_new :
      (frees : ℕ → List ℕ) (p : Pool L) (lent : List ℕ) (fresh base : Option ℕ)
      → Sound g frees p lent
      → p.free_objs ≡ 0
      → MayGive fresh base p
      → Ends (Outcome frees lent) (alloc_from (slab_alloc fresh base p))
  unfolding alloc_from slab_alloc
  from_new frees p lent none base v none_free may = ends (frees, v)
  from_new frees p lent (some a) none v none_free may = ends (frees, v)
  from_new frees p lent (some a) (some base) v none_free may =
      from_there (update frees a (indices_from 0 g.num)) (slab_alloc (some a) (some base) p).1 lent
        a (new_slab p base) (grown-Sound g p a base frees lent v none_free may)
        (update-same p.slabs a (some (new_slab p base)))
        (new_slab-some p base (omega (arith, v.shape.2, g.fit.enough))
          (omega (arith, v.shape.2, num_small g)))
        (omega (arith, none_free, v.shape.2, g.fit.enough, num_small g))

  pub mempool_alloc-Outcome :
      (frees : ℕ → List ℕ) (p : Pool L) (lent : List ℕ) (fresh base : Option ℕ)
      → Sound g frees p lent
      → MayGive fresh base p
      → Ends (Outcome frees lent) (mempool_alloc fresh base p)
  unfolding mempool_alloc
  mempool_alloc-Outcome frees p lent fresh base v may = elim (Bool-cases (p.free_objs == 0)) [
    | inl none_free ↦ rw none_free (from_new frees p lent fresh base v (ground arith) may)
    | inr some_free ↦ rw some_free (
        Ends-bind
          (find_slab-Found p v.current (λ a there. v.listed a (ground (arith, there)))
            (λ a there. v.listed a (ground (arith, there))))
          (λ r found. from_search frees p lent r v (ground arith) found))
  ]
