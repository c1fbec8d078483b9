-- ===== src/Mempool/Free/Holder.antt =====
-- find_obj_slab: which slab it takes an address to be in.
use treasure_house.Base.{
  ℕ, ◌<◌, ◌≡◌, sym, ap, ◌∙◌, true, false, ◌&&◌, Option, none, some, List, [], ◌∷◌, arith, ◌==◌,
  Bool-cases, inl, inr, ltb,
}
use treasure_house.Base.Run.{ok, Ends, ends, Ends-value, Ends-weaken}
use treasure_house.Lists.{ListLib, has}
use treasure_house.Mempool.Slab.{Slab}
use treasure_house.Mempool.Pool.{Pool, load-ok}
use treasure_house.Mempool.Alloc.Search.{AllSlabs}
use treasure_house.Mempool.Free.{addr_in_slab, holder_in, find_obj_slab}

-- The slab has objects in use, and the address among its own.
abbrev pub Covers : Slab → ℕ → Type 0
Covers s obj = (0 < s.used) × (addr_in_slab s obj ≡ true)

module _ {L : ListLib} where
  open L use {entries}

  -- A slab of the list covers the address, or none does.
  abbrev pub Holder : Pool L → ℕ → List ℕ → Option ℕ → Type 0
  Holder p obj xs none =
      (a : ℕ) (s : Slab)
      → has a xs ≡ true
      → p.slabs a ≡ some s
      → 0 < s.used
      → addr_in_slab s obj ≡ false
  Holder p obj xs (some a) = (s : Slab) × (p.slabs a ≡ some s) × Covers s obj

  -- A slab that does not cover the address changes nothing.
  Holder-skip :
      (p : Pool L) (obj a : ℕ) (s : Slab) (more : List ℕ) (r : Option ℕ)
      → p.slabs a ≡ some s
      → (ltb 0 s.used && addr_in_slab s obj) ≡ false
      → Holder p obj more r
      → Holder p obj (a ∷ more) r
  Holder-skip p obj a s more (some b) at not_here v = v
  Holder-skip p obj a s more none at not_here v = λ b t there at_b used.
      elim (Bool-cases (b == a)) [
        | inl same ↦
            let whose : some t ≡ some s = sym at_b ∙ ap p.slabs (ground (arith, same)) ∙ at in
            ground (arith, not_here, used, whose)
        | inr other ↦ v b t (ground (arith, there, other)) at_b used
      ]

  holder_in-Holder :
      (p : Pool L) (obj : ℕ) (xs : List ℕ)
      → AllSlabs p xs
      → Ends (Holder p obj xs) (holder_in p obj xs)
  unfolding holder_in
  holder_in-Holder p obj [] known = ends (λ a s there. absurd (ground (arith, there)))
  holder_in-Holder p obj (a ∷ more) known =
      let (s, at) = known a (ground arith) in
      let (r, e, v) =
        Ends-value (holder_in-Holder p obj more (λ b there. known b (ground (arith, there)))) in
      rw (load-ok p at) (elim (Bool-cases (ltb 0 s.used && addr_in_slab s obj)) [
        | inl yes_here ↦ rw yes_here (ends (s, at, (ground arith, ground arith)))
        | inr not_here ↦ rw (not_here, e) (ends (Holder-skip p obj a s more r at not_here v))
      ])

  Holder-both :
      (p : Pool L) (obj : ℕ) (xs ys : List ℕ) (r : Option ℕ)
      → Holder p obj xs none
      → Holder p obj ys r
      → Holder p obj xs r × Holder p obj ys r
  Holder-both p obj xs ys none v w = (v, w)
  Holder-both p obj xs ys (some a) v w = (w, w)

  Holder-partial :
      (p : Pool L) (obj : ℕ) (r : Option ℕ)
      → (p.used_objs == 0) ≡ false
      → AllSlabs p (entries p.full)
      → holder_in p obj (entries p.partial) ≡ ok r
      → Holder p obj (entries p.partial) r
      → Ends
          (λ q. Holder p obj (entries p.partial) q × Holder p obj (entries p.full) q)
          (find_obj_slab p obj)
  unfolding find_obj_slab
  Holder-partial p obj none used full e v =
      rw (used, e)
        (Ends-weaken (holder_in-Holder p obj (entries p.full) full)
          (λ q w. Holder-both p obj _ _ q v w))
  Holder-partial p obj (some a) used full e v = rw (used, e) (ends (v, v))

  -- Where there are objects in use, and a slab for each entry of the two lists, find_obj_slab ends:
  -- with a slab of theirs that covers the address, or with none and then none does.
  pub find_obj_slab-Holder :
      (p : Pool L) (obj : ℕ)
      → (p.used_objs == 0) ≡ false
      → AllSlabs p (entries p.partial)
      → AllSlabs p (entries p.full)
      → Ends
          (λ q. Holder p obj (entries p.partial) q × Holder p obj (entries p.full) q)
          (find_obj_slab p obj)
  find_obj_slab-Holder p obj used partial full =
      let (r, e, v) = Ends-value (holder_in-Holder p obj (entries p.partial) partial) in
      Holder-partial p obj r used full e v
