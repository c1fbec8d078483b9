-- ===== src/Mempool/Alloc/Search.antt =====
-- find_slab: where it finds a free object.
use treasure_house.Base.{
  ℕ, ◌<◌, ◌≡◌, refl, ap, true, Option, none, some, List, [], ◌∷◌, arith, ◌==◌, Bool-cases, inl, inr,
  ltb,
}
use treasure_house.Base.Run.{ok, Ends, ends, Ends-bind, Ends-value}
use treasure_house.Lists.{ListLib, has}
use treasure_house.Mempool.Slab.{Slab}
use treasure_house.Mempool.Pool.{Pool, load-ok}
use treasure_house.Mempool.Alloc.{first_free, load_slab, find_slab}

module _ {L : ListLib} where
  open L use {entries}

  find_slab-current :
      (pool : Pool L) (a : ℕ) (s : Slab)
      → pool.cur ≡ some a
      → pool.slabs a ≡ some s
      → 0 < s.free
      → find_slab pool ≡ ok (some a, pool)
  unfolding find_slab
  find_slab-current pool a s cur at pos = ground (arith, load-ok pool at)

  -- There is a slab at each of the addresses.
  abbrev pub AllSlabs : Pool L → List ℕ → Type 0
  AllSlabs p xs = (a : ℕ) → has a xs ≡ true → (s : Slab) × (p.slabs a ≡ some s)

  -- The slab at the address has a free object.
  abbrev pub HasFree : Pool L → ℕ → Type 0
  HasFree p a = (s : Slab) × (p.slabs a ≡ some s) × (0 < s.free)

  abbrev NoneOrFree : Pool L → Option ℕ → Type 0
  NoneOrFree p none = Unit {0}
  NoneOrFree p (some a) = HasFree p a

  -- Nothing was found, or a slab with a free object, which is then the current one.
  abbrev pub Found : Pool L → Option ℕ × Pool L → Type 0
  Found p (none, q) = q ≡ p
  Found p (some a, q) = (q ≡ record p { cur = some a }) × HasFree p a

  first_free-NoneOrFree :
      (p : Pool L) (xs : List ℕ) → AllSlabs p xs → Ends (NoneOrFree p) (first_free p xs)
  unfolding first_free
  first_free-NoneOrFree p [] known = ends tt
  first_free-NoneOrFree p (a ∷ more) known =
      let (s, at) = known a (ground arith) in
      let rest = first_free-NoneOrFree p more (λ b there. known b (ground (arith, there))) in
      rw (load-ok p at) (elim (Bool-cases (ltb 0 s.free)) [
        | inl free ↦ rw free (ends (s, at, ground arith))
        | inr taken ↦ rw taken rest
      ])

  in_empty-Found :
      (p : Pool L) (r : Option ℕ)
      → NoneOrFree p r
      → Ends
          (Found p)
          (elim r [ some a ↦ ok (some a, record p { cur = some a }) | none ↦ ok (none, p) ])
  in_empty-Found p none v = ends refl
  in_empty-Found p (some a) v = ends (refl, v)

  in_partial-Found :
      (p : Pool L) (r : Option ℕ)
      → AllSlabs p (entries p.empty)
      → first_free p (entries p.partial) ≡ ok r
      → NoneOrFree p r
      → Ends (Found p) (load_slab p)
  unfolding load_slab
  in_partial-Found p none empty e v =
      rw e (Ends-bind (first_free-NoneOrFree p (entries p.empty) empty) (in_empty-Found p))
  in_partial-Found p (some a) empty e v = rw e (ends (refl, v))

  load_slab-Found :
      (p : Pool L)
      → AllSlabs p (entries p.partial)
      → AllSlabs p (entries p.empty)
      → Ends (Found p) (load_slab p)
  load_slab-Found p partial empty =
      let (r, e, v) = Ends-value (first_free-NoneOrFree p (entries p.partial) partial) in
      in_partial-Found p r empty e v

  find_slab-no_current : (p : Pool L) → p.cur ≡ none → find_slab p ≡ load_slab p
  unfolding find_slab
  find_slab-no_current p e = ground arith

  find_slab-used_up :
      (p : Pool L) (a : ℕ) (s : Slab)
      → p.cur ≡ some a
      → p.slabs a ≡ some s
      → (s.free == 0) ≡ true
      → find_slab p ≡ load_slab p
  unfolding find_slab
  find_slab-used_up p a s e at full = ground (arith, load-ok p at)

  find_from :
      (p : Pool L) (c : Option ℕ)
      → p.cur ≡ c
      → ((a : ℕ) → c ≡ some a → (s : Slab) × (p.slabs a ≡ some s))
      → AllSlabs p (entries p.partial)
      → AllSlabs p (entries p.empty)
      → Ends (Found p) (find_slab p)
  find_from p none e current partial empty =
      rw (find_slab-no_current p e) (load_slab-Found p partial empty)
  find_from p (some a) e current partial empty =
      let (s, at) = current a refl in
      elim (Bool-cases (s.free == 0)) [
        | inl full ↦ rw (find_slab-used_up p a s e at full) (load_slab-Found p partial empty)
        | inr free ↦
            rw (find_slab-current p a s e at (ground arith))
              (ends (ap (λ c. record p { cur = c }) e, (s, at, ground arith)))
      ]

  -- The current slab, if there is one, and the slabs on the lists being there, find_slab ends.
  pub find_slab-Found :
      (p : Pool L)
      → ((a : ℕ) → p.cur ≡ some a → (s : Slab) × (p.slabs a ≡ some s))
      → AllSlabs p (entries p.partial)
      → AllSlabs p (entries p.empty)
      → Ends (Found p) (find_slab p)
  find_slab-Found p current partial empty = find_from p p.cur refl current partial empty
