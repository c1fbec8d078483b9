-- ===== src/Mempool/Pool.antt =====
-- struct mempool with its slabs_info, over the slabs in memory. The address of a slab that was
-- freed holds none, and to read it is a fault. `calls` records the calls of ctor and dctor.
use Prim.Native.String.{String}
use treasure_house.Base.{arith, ◌≡◌, ℕ, ◌+◌, ◌-◌, ◌%◌, ◌^◌, Bool, Option, none, some, List}
use treasure_house.Base.Memory.{update}
use treasure_house.Base.Run.{Run, ok, fault}
use treasure_house.Lists.{ListLib}
use treasure_house.Mempool.Slab.{Slab}

-- struct mempool_ops: which of the two functions are set. `reclaim` is never called.
pub record MempoolOps : Type 0 where
  pub ctor : Bool
  pub dctor : Bool

pub data Call : Type 0 where
  ctor_of : ℕ → Call
  dctor_of : ℕ → Call

pub record Pool (L : ListLib) : Type 0 where
  pub name : String
  pub size : ℕ
  pub obj_size : ℕ
  pub align : ℕ
  pub num_per_slab : ℕ
  pub order : ℕ
  pub ops : Option MempoolOps
  pub partial : L.Head
  pub full : L.Head
  pub empty : L.Head
  pub cur : Option ℕ
  pub slab_nums : ℕ
  pub total_objs : ℕ
  pub used_objs : ℕ
  pub free_objs : ℕ
  pub slabs : ℕ → Option Slab
  pub calls : List Call

-- a - b in an unsigned long
abbrev pub sub64 : ℕ → ℕ → ℕ
sub64 a b = (a + 2 ^ 64 - b) % 2 ^ 64

-- a + b in an unsigned long
abbrev pub add64 : ℕ → ℕ → ℕ
add64 a b = (a + b) % 2 ^ 64

module _ {L : ListLib} where
  open L use {list_add, list_del}

  unfoldable pub load : Pool L → ℕ → Run Slab
  load pool a = elim (pool.slabs a) [ none ↦ fault | some s ↦ ok s ]

  pub load-ok : (pool : Pool L) {a : ℕ} {s : Slab} → pool.slabs a ≡ some s → load pool a ≡ ok s
  unfolding load
  load-ok pool e = ground arith

  pub load-fault : (pool : Pool L) {a : ℕ} → pool.slabs a ≡ none → load pool a ≡ fault
  unfolding load
  load-fault pool e = ground arith

  abbrev pub store : ℕ → Option Slab → Pool L → Pool L
  store a s pool = record pool { slabs = update pool.slabs a s }

  -- list_del of the slab, which stands on one of the three lists
  abbrev pub unlink : ℕ → Pool L → Pool L
  unlink a pool = record pool {
    partial = list_del a pool.partial;
    full = list_del a pool.full;
    empty = list_del a pool.empty;
  }

  -- MOVE_LIST, for each of the lists
  abbrev pub move_partial : ℕ → Pool L → Pool L
  move_partial a pool = let p = unlink a pool in record p { partial = list_add a p.partial }

  abbrev pub move_full : ℕ → Pool L → Pool L
  move_full a pool = let p = unlink a pool in record p { full = list_add a p.full }

  abbrev pub move_empty : ℕ → Pool L → Pool L
  move_empty a pool = let p = unlink a pool in record p { empty = list_add a p.empty }
