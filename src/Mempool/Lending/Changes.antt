-- ===== src/Mempool/Lending/Changes.antt =====
-- One slab of a pool changes: what that keeps of the invariant.
use mathlib.Core.Path.{subst}
use treasure_house.Base.{
  ℕ, ◌≡◌, ◌≢◌, ◌||◌, inl, inr, refl, sym, ap, ◌∙◌, true, false, ◌==◌, some, List, arith, Bool-cases,
}
use treasure_house.Base.Memory.{update, update-same, update-other}
use treasure_house.Lists.{ListLib, has}
use treasure_house.Mempool.Slab.{Slab}
use treasure_house.Mempool.Slab.Freelist.{FreeIndices}
use treasure_house.Mempool.Pool.{Pool}
use treasure_house.Mempool.Alloc.Listed.{Relisted, Elsewhere, on_partial, on_full, on_empty}
use treasure_house.Mempool.Lending.Sound.{Geometry, Held, Lent, Clear}

-- The slab stands where it stood.
pub record SamePlace (s t : Slab) : Type 0 where
  pub base : t.s_base ≡ s.s_base
  pub first : t.obj_base ≡ s.obj_base
  pub end : t.obj_end ≡ s.obj_end
  pub last : t.last_free_idx ≡ s.last_free_idx

module _ {L : ListLib} where
  -- The slab at `a`, which was `s`, is `t`.
  pub record Changed (a : ℕ) (s t : Slab) (p q : Pool L) : Type 0 where
    pub now : q.slabs a ≡ some t
    pub others : (b : ℕ) → b ≢ a → q.slabs b ≡ p.slabs b
    pub place : SamePlace s t
    pub relisted : Relisted a t p q

module _ {L : ListLib} (g : Geometry) where
  -- A slab that did not change, in a pool where only the slab `a` changed its list.
  pub Held-Elsewhere :
      (p q : Pool L) (xs : List ℕ) (a b : ℕ) (s : Slab)
      → Elsewhere a p q
      → (b == a) ≡ false
      → Held g p xs b s
      → Held g q xs b s
  Held-Elsewhere p q xs a b s e other h = record {
    indices = h.indices;
    last = h.last;
    reach = h.reach;
    lower = h.lower;
    upper = h.upper;
    listed = rw (e.partial b other, e.full b other, e.empty b other) h.listed;
  }

  module _ (a : ℕ) (s t : Slab) (p q : Pool L) (at : p.slabs a ≡ some s)
      (c : Changed a s t p q) where
    other-at : (b : ℕ) (u : Slab) → (b == a) ≡ false → q.slabs b ≡ some u → p.slabs b ≡ some u
    other-at b u other e = sym (c.others b (ground (arith, other))) ∙ e

    -- The slab at any address, before.
    before :
        (b : ℕ) (u : Slab)
        → q.slabs b ≡ some u
        → (u0 : Slab) × (p.slabs b ≡ some u0) × SamePlace u0 u
    before b u e = elim (Bool-cases (b == a)) [
      | inl same ↦
          let here : b ≡ a = ground (arith, same) in
          let whose : some t ≡ some u = sym c.now ∙ ap q.slabs (sym here) ∙ e in
          let is : t ≡ u = ground (arith, whose) in
          (s, ap p.slabs here ∙ at, subst (λ k. SamePlace s k) is c.place)
      | inr other ↦
          (u, other-at b u other e, record { base = refl; first = refl; end = refl; last = refl })
    ]

    still_there : (b : ℕ) → (u : Slab) × (p.slabs b ≡ some u) → (u : Slab) × (q.slabs b ≡ some u)
    still_there b (u, e) = elim (Bool-cases (b == a)) [
      | inl same ↦ (t, ap q.slabs (ground (arith, same)) ∙ c.now)
      | inr other ↦ (u, c.others b (ground (arith, other)) ∙ e)
    ]

    pub Changed-Held :
        (frees : ℕ → List ℕ) (ys : List ℕ)
        → FreeIndices g.num t ys
        → ((b : ℕ) (u : Slab) → p.slabs b ≡ some u → Held g p (frees b) b u)
        → (b : ℕ) (u : Slab) → q.slabs b ≡ some u
        → Held g q (update frees a ys b) b u
    Changed-Held frees ys indices held b u e = elim (Bool-cases (b == a)) [
      | inl same ↦
          let here : a ≡ b = ground (arith, same) in
          let whose : some t ≡ some u = sym c.now ∙ ap q.slabs here ∙ e in
          let is : t ≡ u = ground (arith, whose) in
          subst (λ k. Held g q (update frees a ys k) k u) here
            (subst (λ k. Held g q (update frees a ys a) a k) is
              (rw (update-same frees a ys) (
                let h = held a s at in
                record {
                  indices = indices;
                  last = rw c.place.last h.last;
                  reach = rw (c.place.end, c.place.first) h.reach;
                  lower = rw (c.place.base, c.place.first) h.lower;
                  upper = rw (c.place.base, c.place.end) h.upper;
                  listed = c.relisted.listed;
                })))
      | inr other ↦ rw (update-other frees a ys b (ground (arith, other))) (
          Held-Elsewhere p q (frees b) a b u c.relisted.elsewhere other
            (held b u (other-at b u other e)))
    ]

    pub Changed-Clear :
        ((b d : ℕ) (u v : Slab)
          → (b == d) ≡ false
          → p.slabs b ≡ some u
          → p.slabs d ≡ some v
          → Clear g u v)
        → (b d : ℕ) (u v : Slab) → (b == d) ≡ false
        → q.slabs b ≡ some u
        → q.slabs d ≡ some v
        → Clear g u v
    Changed-Clear clear b d u v other eu ev =
        let (u0, at_u, place_u) = before b u eu in
        let (v0, at_v, place_v) = before d v ev in
        rw (place_u.base, place_v.base) (clear b d u0 v0 other at_u at_v)

    pub Changed-listed :
        ((b : ℕ)
          → (on_partial b p || on_full b p || on_empty b p) ≡ true
          → (u : Slab) × (p.slabs b ≡ some u))
        → (b : ℕ) → (on_partial b q || on_full b q || on_empty b q) ≡ true
        → (u : Slab) × (q.slabs b ≡ some u)
    Changed-listed listed b there = elim (Bool-cases (b == a)) [
      | inl same ↦ still_there b (s, ap p.slabs (ground (arith, same)) ∙ at)
      | inr other ↦
          let e = c.relisted.elsewhere in
          still_there b
            (listed b (ground (arith, there, e.partial b other, e.full b other, e.empty b other)))
    ]

    pub Changed-current :
        ((b : ℕ) → p.cur ≡ some b → (u : Slab) × (p.slabs b ≡ some u))
        → (b : ℕ) → q.cur ≡ some b
        → (u : Slab) × (q.slabs b ≡ some u)
    Changed-current current b e = still_there b (current b (sym c.relisted.settled.cur ∙ e))

    after :
        (b : ℕ) (u : Slab)
        → p.slabs b ≡ some u
        → (v : Slab) × (q.slabs b ≡ some v) × (v.obj_base ≡ u.obj_base)
    after b u e = elim (Bool-cases (b == a)) [
      | inl same ↦
          let here : b ≡ a = ground (arith, same) in
          let whose : some s ≡ some u = sym at ∙ ap p.slabs (sym here) ∙ e in
          let is : s ≡ u = ground (arith, whose) in
          (t, ap q.slabs here ∙ c.now, c.place.first ∙ ap (λ k. k.obj_base) is)
      | inr other ↦ (u, c.others b (ground (arith, other)) ∙ e, refl)
    ]

    -- An object in use stays, if it is not among those that are now free.
    pub Changed-Lent :
        (frees : ℕ → List ℕ) (ys : List ℕ) (obj : ℕ)
        → (l : Lent g frees p obj) → ((l.slab == a) ≡ true → has l.i ys ≡ false)
        → Lent g (update frees a ys) q obj
    Changed-Lent frees ys obj l keeps =
        let (v, there, base) = after l.slab l.s l.at in
        record {
          slab = l.slab;
          s = v;
          at = there;
          i = l.i;
          below = l.below;
          taken = elim (Bool-cases (l.slab == a)) [
            | inl same ↦
                let here : a ≡ l.slab = ground (arith, same) in
                subst (λ k. has l.i (update frees a ys k) ≡ false) here
                  (rw (update-same frees a ys) (keeps same))
            | inr other ↦ rw (update-other frees a ys l.slab (ground (arith, other))) l.taken
          ];
          address = rw base l.address;
        }
