-- ===== src/Mempool/Slab.antt =====
-- struct slab: a free list of indices inside an array, with -1 at its end.
-- A `short` and an `unsigned short` are both kept as 16-bit patterns.

pub mod Freelist
use treasure_house.Base.{ℕ, zero, suc, ◌+◌, ◌-◌, ◌%◌, ◌^◌, Bool, ◌==◌}
use treasure_house.Base.Memory.{update}

-- -1 in 16 bits
abbrev pub no_idx : ℕ
no_idx = 65535

pub record Slab : Type 0 where
  pub s_base : ℕ
  pub obj_base : ℕ
  pub obj_end : ℕ
  pub free_idx : ℕ
  pub last_free_idx : ℕ
  pub used : ℕ
  pub free : ℕ
  pub freelist : ℕ → ℕ

-- `x == -1` for a `short`, whose sign is extended
abbrev pub short_is_minus_one : ℕ → Bool
short_is_minus_one x = x == no_idx

-- `x == -1` for an `unsigned short`, which widens to `int` with zeros
abbrev pub ushort_is_minus_one : ℕ → Bool
ushort_is_minus_one x = x == 2 ^ 32 - 1

-- The `for` of init_freelist.
chain_indices : ℕ → (ℕ → ℕ) → ℕ → ℕ
chain_indices zero freelist = freelist
chain_indices (suc i) freelist = update (chain_indices i freelist) i ((i + 1) % 2 ^ 16)

unfoldable pub init_freelist : (ℕ → ℕ) → ℕ → ℕ → ℕ
unfolding chain_indices
init_freelist freelist num = update (chain_indices (num - 1) freelist) (num - 1) no_idx

-- What alloc_obj_from_slab does to the slab, behind its assertion.
unfoldable pub take_free : Slab → Slab
take_free s = record s {
  free_idx = s.freelist s.free_idx;
  freelist = update s.freelist s.free_idx no_idx;
  free = (s.free + 2 ^ 16 - 1) % 2 ^ 16;
  used = (s.used + 1) % 2 ^ 16;
}

-- What free_obj2slab first does to the slab.
unfoldable pub put_free : ℕ → Slab → Slab
put_free i s = record s {
  freelist = update s.freelist i s.free_idx;
  free_idx = i;
  free = (s.free + 1) % 2 ^ 16;
  used = (s.used + 2 ^ 16 - 1) % 2 ^ 16;
}
