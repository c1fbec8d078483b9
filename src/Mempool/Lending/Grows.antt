-- ===== src/Mempool/Lending/Grows.antt =====
-- slab_alloc keeps the invariant.
use mathlib.Core.Path.{subst}
use native.Mathlib.Nat.{one-le-pow}
use treasure_house.Base.{
  ℕ, ◌+◌, ◌*◌, ◌^◌, ◌≤◌, ◌<◌, ◌≡◌, ◌⊎◌, ◌||◌, inl, inr, refl, sym, ap, ◌∙◌, true, false, ◌==◌, none,
  some, List, arith, Bool-cases,
}
use treasure_house.Base.Memory.{update, update-same, update-other}
use treasure_house.Lists.{ListLib}
use treasure_house.Mempool.Align.{align_up, word_mod}
use treasure_house.Mempool.Order.{slab_size}
use treasure_house.Mempool.Order.Fits.{slab_size_bounds}
use treasure_house.Mempool.Slab.{Slab}
use treasure_house.Mempool.Slab.Freelist.{FreeIndices, indices_from}
use treasure_house.Mempool.Pool.{Pool}
use treasure_house.Mempool.Geometry.{align_up_bounds}
use treasure_house.Mempool.Alloc.{new_slab, slab_alloc}
use treasure_house.Mempool.Alloc.FromSlab.{new_slab-FreeIndices}
use treasure_house.Mempool.Alloc.Listed.{Elsewhere, on_empty}
use treasure_house.Mempool.Lending.{MayGive}
use treasure_house.Mempool.Lending.Sound.{Geometry, Held, Clear, Sound}
use treasure_house.Mempool.Lending.Changes.{Held-Elsewhere}

-- A slab has room for fewer than 2^15 objects, since they are eight bytes at least.
pub num_small : (g : Geometry) → g.num < 2 ^ 15
num_small g =
    let (low, high) = slab_size_bounds g.order g.fit.small in
    let inside = g.fit.inside in
    let eight : g.num * 8 ≤ g.num * g.size = grind (arith, g.wide) in
    omega (arith, inside, high, eight, one-le-pow g.k 2 (omega arith))

module _ {L : ListLib} (g : Geometry) (p : Pool L) (a base : ℕ) where
  open L use {entries, entries-list_add}

  abbrev grown : Pool L
  grown = (slab_alloc (some a) (some base) p).1

  grown_empty : on_empty a p ≡ false → (b : ℕ) → on_empty b grown ≡ ((b == a) || on_empty b p)
  unfolding slab_alloc
  grown_empty new b = rw (entries-list_add a p.empty new) refl

  fresh-Held :
      (p.size ≡ g.size) × (p.align ≡ 2 ^ g.k) × (p.num_per_slab ≡ g.num) × (p.order ≡ g.order)
      → base + slab_size p.order ≤ word_mod
      → on_empty a p ≡ false
      → Held g grown (indices_from 0 g.num) a (new_slab p base)
  unfolding new_slab slab_alloc
  fresh-Held (size, align, num, order) room new =
      let inside = g.fit.inside in
      let small = num_small g in
      let here : base + slab_size g.order ≤ word_mod =
        subst (λ o. base + slab_size o ≤ word_mod) order room in
      let bounds : (base ≤ align_up base p.align) × (align_up base p.align < base + 2 ^ g.k) =
        rw align (align_up_bounds g.k g.w base g.word (omega (arith, inside))) in
      let whole : p.num_per_slab * p.size ≡ g.num * g.size = rw (num, size) refl in
      record {
        indices =
            subst (λ n. FreeIndices n (new_slab p base) (indices_from 0 n)) num
              (new_slab-FreeIndices p base (omega (arith, num, g.fit.enough))
                (omega (arith, num, small)));
        last = omega (arith, num, small, g.fit.enough);
        reach = omega (arith, whole);
        lower = bounds.0;
        upper = omega (arith, bounds.1, whole, inside);
        listed = ground (arith, grown_empty new a);
      }

  -- The new slab is on no list.
  unlisted :
      {frees : ℕ → List ℕ} {lent : List ℕ}
      → Sound g frees p lent
      → p.slabs a ≡ none
      → on_empty a p ≡ false
  unlisted v away = elim (Bool-cases (on_empty a p)) [
    | inr out ↦ out
    | inl there ↦
        let (s, at) = v.listed a (ground (arith, there)) in
        let clash : some s ≡ none = sym at ∙ away in ground (arith, clash)
  ]

  old_at : (b : ℕ) (u : Slab) → (b == a) ≡ false → p.slabs b ≡ some u → grown.slabs b ≡ some u
  unfolding slab_alloc
  old_at b u other e = update-other p.slabs a (some (new_slab p base)) b (ground (arith, other)) ∙ e

  was_at : (b : ℕ) (u : Slab) → (b == a) ≡ false → grown.slabs b ≡ some u → p.slabs b ≡ some u
  unfolding slab_alloc
  was_at b u other e =
      sym (update-other p.slabs a (some (new_slab p base)) b (ground (arith, other))) ∙ e

  new_at : grown.slabs a ≡ some (new_slab p base)
  unfolding slab_alloc
  new_at = update-same p.slabs a (some (new_slab p base))

  is_new : (b : ℕ) (u : Slab) → (b == a) ≡ true → grown.slabs b ≡ some u → new_slab p base ≡ u
  is_new b u same e =
      let here : a ≡ b = ground (arith, same) in
      let whose : some (new_slab p base) ≡ some u = sym new_at ∙ ap grown.slabs here ∙ e in
      ground (arith, whose)

  there_too : (b : ℕ) → (u : Slab) × (p.slabs b ≡ some u) → (u : Slab) × (grown.slabs b ≡ some u)
  there_too b (u, e) = elim (Bool-cases (b == a)) [
    | inl same ↦ (new_slab p base, ap grown.slabs (ground (arith, same)) ∙ new_at)
    | inr other ↦ (u, old_at b u other e)
  ]

  grown-Elsewhere : on_empty a p ≡ false → Elsewhere a p grown
  unfolding slab_alloc
  grown-Elsewhere new = record {
    partial = λ b other. refl;
    full = λ b other. refl;
    empty = λ b other. ground (arith, grown_empty new b);
  }

  grown-Held :
      (frees : ℕ → List ℕ) (lent : List ℕ)
      → Sound g frees p lent
      → base + slab_size p.order ≤ word_mod
      → p.slabs a ≡ none
      → (b : ℕ) (u : Slab) → grown.slabs b ≡ some u
      → Held g grown (update frees a (indices_from 0 g.num) b) b u
  grown-Held frees lent v room away b u e = elim (Bool-cases (b == a)) [
    | inl same ↦
        let here : a ≡ b = ground (arith, same) in
        subst (λ k. Held g grown (update frees a (indices_from 0 g.num) k) k u) here
          (subst (λ k. Held g grown (update frees a (indices_from 0 g.num) a) a k)
            (is_new b u same e)
            (rw (update-same frees a (indices_from 0 g.num))
              (fresh-Held v.shape room (unlisted v away))))
    | inr other ↦ rw (update-other frees a (indices_from 0 g.num) b (ground (arith, other))) (
        Held-Elsewhere g p grown (frees b) a b u (grown-Elsewhere (unlisted v away)) other
          (v.held b u (was_at b u other e)))
  ]

  -- The blocks of slabs are apart from the new one.
  grown-Clear :
      (frees : ℕ → List ℕ) (lent : List ℕ)
      → Sound g frees p lent
      → ((b : ℕ) (u : Slab) → p.slabs b ≡ some u → Clear g (new_slab p base) u)
      → (b d : ℕ) (u t : Slab) → (b == d) ≡ false
      → grown.slabs b ≡ some u
      → grown.slabs d ≡ some t
      → Clear g u t
  grown-Clear frees lent v fresh b d u t other eu et = elim (Bool-cases (b == a)) [
    | inl b_new ↦
        subst (λ k. Clear g k t) (is_new b u b_new eu)
          (fresh d t (was_at d t (ground (arith, other, b_new)) et))
    | inr b_old ↦ elim (Bool-cases (d == a)) [
      | inl d_new ↦
          let apart : Clear g t u =
            subst (λ k. Clear g k u) (is_new d t d_new et) (fresh b u (was_at b u b_old eu)) in
          ground (arith, apart)
      | inr d_old ↦ v.clear b d u t other (was_at b u b_old eu) (was_at d t d_old et)
    ]
  ]

  new-Clear :
      p.order ≡ g.order
      → (b : ℕ) (u : Slab)
      → (u.s_base + slab_size p.order ≤ base) ⊎ (base + slab_size p.order ≤ u.s_base)
      → Clear g (new_slab p base) u
  unfolding new_slab
  new-Clear order b u apart =
      let sized =
        subst (λ o. (u.s_base + slab_size o ≤ base) ⊎ (base + slab_size o ≤ u.s_base)) order
          apart in
      ground (arith, sized)

  not_here : p.slabs a ≡ none → (b : ℕ) (u : Slab) → p.slabs b ≡ some u → (b == a) ≡ false
  not_here away b u e = elim (Bool-cases (b == a)) [
    | inr other ↦ other
    | inl same ↦
        let clash : some u ≡ none = sym e ∙ ap p.slabs (ground (arith, same)) ∙ away in
        ground (arith, clash)
  ]

  pub grown-Sound :
      (frees : ℕ → List ℕ) (lent : List ℕ)
      → Sound g frees p lent
      → p.free_objs ≡ 0
      → MayGive (some a) (some base) p
      → Sound g (update frees a (indices_from 0 g.num)) grown lent
  unfolding slab_alloc
  grown-Sound frees lent v none_free (away, room, below, blocks) =
      let (size, align, num, order) = v.shape in
      record {
        shape = v.shape;
        held = grown-Held frees lent v room away;
        clear = grown-Clear frees lent v (λ b u e. new-Clear order b u (blocks b u e));
        listed = λ b there. elim (Bool-cases (b == a)) [
          | inl same ↦ (new_slab p base, ap grown.slabs (ground (arith, same)) ∙ new_at)
          | inr other ↦
              there_too b (v.listed b (ground (arith, there, grown_empty (unlisted v away) b)))
        ];
        current = λ b e. (new_slab p base, ap grown.slabs (ground (arith, e)) ∙ new_at);
        objects = λ obj is_lent.
            let l = v.objects obj is_lent in
            let other : (l.slab == a) ≡ false = not_here away l.slab l.s l.at in
            record {
              slab = l.slab;
              s = l.s;
              at = old_at l.slab l.s other l.at;
              i = l.i;
              below = l.below;
              taken =
                  rw (update-other frees a (indices_from 0 g.num) l.slab (ground (arith, other)))
                    l.taken;
              address = l.address;
            };
        once = v.once;
        used = v.used;
        books = omega (arith, v.books, v.room, below, none_free);
        room = omega (arith, below);
      }
