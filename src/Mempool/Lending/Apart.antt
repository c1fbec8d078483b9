-- ===== src/Mempool/Lending/Apart.antt =====
-- Two objects in use share no byte, and the address of one is in no other slab.
use treasure_house.Base.{
  ℕ, ◌+◌, ◌*◌, ◌≤◌, ◌<◌, ◌≡◌, ◌≢◌, ◌⊎◌, inl, inr, sym, ap, ◌∙◌, true, false, ◌==◌, some, List,
  arith, Bool-cases,
}
use treasure_house.Lists.{ListLib}
use treasure_house.Mempool.Order.{slab_size}
use treasure_house.Mempool.Slab.{Slab}
use treasure_house.Mempool.Pool.{Pool}
use treasure_house.Mempool.Geometry.{row}
use treasure_house.Mempool.Lending.Sound.{Geometry, Held, Lent, Sound}

rows_apart :
    (z o i j : ℕ) → (i == j) ≡ false → (o + i * z + z ≤ o + j * z) ⊎ (o + j * z + z ≤ o + i * z)
rows_apart z o i j other = ground (arith, row i j z, row j i z)

module _ {L : ListLib} where
  -- The same slab holds both.
  pub one_slab :
      (p : Pool L) {a b : ℕ} {s t : Slab}
      → p.slabs a ≡ some s
      → p.slabs b ≡ some t
      → (a == b) ≡ true
      → s ≡ t
  one_slab p {a} {b} {s} {t} at_a at_b same =
      let e : a ≡ b = ground arith in
      let whose : some s ≡ some t = sym at_a ∙ ap p.slabs e ∙ at_b in ground (arith, whose)

module _ {L : ListLib} (g : Geometry) where
  -- The objects of a slab stand inside its block.
  pub Held-inside :
      {p : Pool L} {xs : List ℕ} {a : ℕ} {s : Slab} (i : ℕ)
      → Held g p xs a s
      → i < g.num
      → (s.s_base ≤ s.obj_base + i * g.size)
        × (s.obj_base + i * g.size + g.size ≤ s.obj_end)
        × (s.obj_end < s.s_base + slab_size g.order)
  Held-inside i h below =
      (omega (arith, h.lower), omega (arith, row i g.num g.size below, h.reach), h.upper)

  pub Lent-apart :
      {frees : ℕ → List ℕ} {p : Pool L} {lent : List ℕ} (x y : ℕ)
      → Sound g frees p lent
      → Lent g frees p x
      → Lent g frees p y
      → x ≢ y
      → (x + g.size ≤ y) ⊎ (y + g.size ≤ x)
  Lent-apart {frees} {p} x y v lx ly other = elim (Bool-cases (lx.slab == ly.slab)) [
    | inl same ↦
        let e = one_slab p lx.at ly.at same in
        let base : ly.s.obj_base ≡ lx.s.obj_base = ap (λ t. t.obj_base) (sym e) in
        ground (arith, rows_apart g.size lx.s.obj_base lx.i ly.i, lx.address, ly.address, base)
    | inr different ↦
        let (x_low, x_high, x_in) = Held-inside lx.i (v.held lx.slab lx.s lx.at) lx.below in
        let (y_low, y_high, y_in) = Held-inside ly.i (v.held ly.slab ly.s ly.at) ly.below in
        ground
          (arith, v.clear lx.slab ly.slab lx.s ly.s different lx.at ly.at, lx.address, ly.address)
  ]

  -- An object in use stands in the slab that covers its address.
  pub same_slab :
      {frees : ℕ → List ℕ} {p : Pool L} {lent : List ℕ} (obj a : ℕ) (s : Slab)
      → Sound g frees p lent
      → (l : Lent g frees p obj) → p.slabs a ≡ some s
      → s.obj_base ≤ obj
      → obj ≤ s.obj_end
      → (l.slab == a) ≡ true
  same_slab obj a s v l at low high = elim (Bool-cases (l.slab == a)) [
    | inl same ↦ same
    | inr different ↦
        let (l_low, l_high, l_in) = Held-inside l.i (v.held l.slab l.s l.at) l.below in
        let h = v.held a s at in
        ground (arith, v.clear l.slab a l.s s different l.at at, l.address, h.lower, h.upper)
  ]

  -- Its number there is told by its address.
  pub same_index :
      (frees : ℕ → List ℕ) (p : Pool L) (obj a x : ℕ) (s : Slab)
      → (l : Lent g frees p obj) → p.slabs a ≡ some s
      → (l.slab == a) ≡ true
      → obj ≡ s.obj_base + x * g.size
      → (l.i == x) ≡ true
  same_index frees p obj a x s l at same here =
      let base : l.s.obj_base ≡ s.obj_base = ap (λ t. t.obj_base) (one_slab p l.at at same) in
      let wide = g.wide in ground (arith, rows_apart g.size s.obj_base l.i x, l.address, base)
