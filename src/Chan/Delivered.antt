-- ===== src/Chan/Delivered.antt =====
-- What is written comes out, once and in order.
use treasure_house.Base.Memory.{bit}
use treasure_house.Base.{
  ◌%◌, ◌^◌, Bool, ltb, leb, ◌-◌, ◌&&◌, if◌then◌else◌, ℕ, zero, suc, ◌+◌, ◌*◌, ◌<◌, ◌≡◌, refl, ◌∙◌,
  true, false, List, [], ◌∷◌, ◌++◌, arith,
}
use treasure_house.Base.Run.{ok}
use treasure_house.Chan.{
  Chan, Waiters, recv_waiters, send_waiters, goes_back, passed, put, get, channel_write,
  channel_read,
}

-- Two messages agree in their first `n` bytes.
abbrev pub Same : ℕ → (ℕ → ℕ) → (ℕ → ℕ) → Type 0
Same n f g = (k : ℕ) → k < n → f k ≡ g k

-- The messages `ys` are those of `xs`, with as many of the first bytes.
abbrev pub SameAll : ℕ → List (ℕ → ℕ) → List (ℕ → ℕ) → Type 0
SameAll n [] [] = Unit {0}
SameAll n [] (y ∷ ys) = ⊥
SameAll n (x ∷ xs) [] = ⊥
SameAll n (x ∷ xs) (y ∷ ys) = Same n x y × SameAll n xs ys

-- A channel with what was written to it and what was read from it.
pub record State (W : Type 0) : Type 0 where
  pub chan : Chan W
  pub sent : List (ℕ → ℕ)
  pub got : List (ℕ → ℕ)

module _ {W : Type 0} (wake_up : Waiters → W → W) where
  -- One call's part behind wait_event is one step: the coroutines are those of one processor, where
  -- none gives way inside that part.
  pub data Step (s : State W) : State W → Type 0 where
    writes :
        (bytes : ℕ → ℕ) (c : Chan W)
        → channel_write wake_up bytes s.chan ≡ ok (passed c)
        → Step s (record { chan = c; sent = s.sent ++ bytes ∷ []; got = s.got })
    reads :
        (bytes : ℕ → ℕ) (c : Chan W)
        → channel_read wake_up s.chan ≡ ok (passed (bytes, c))
        → Step s (record { chan = c; sent = s.sent; got = s.got ++ bytes ∷ [] })
    others : (world : W) → Step s (record s { chan = record s.chan { world = world } })

  pub data Reach (s : State W) : State W → Type 0 where
    here : Reach s s
    next : {t u : State W} → Reach s t → Step t u → Reach s u

module _ {W : Type 0} where
  -- What the channel holds.
  abbrev pub held : ℕ → Chan W → List (ℕ → ℕ)
  held zero c = []
  held (suc n) c = c.data_buf ∷ []

  -- An open channel of one message, with one or without.
  abbrev pub chan_of : ℕ → Bool → (ℕ → ℕ) → W → Chan W
  chan_of n full bytes world = record {
    data_buf = bytes;
    block = n;
    data_cap = 1;
    elem_num = bit full;
    elem_size = n;
    send_idx = 0;
    recv_idx = 0;
    closed = 0;
    world = world;
  }

  pub record IsKept (n : ℕ) (s : State W) : Type 0 where
    pub full : Bool
    pub bytes : ℕ → ℕ
    pub world : W
    pub chan : s.chan ≡ chan_of n full bytes world
    pub messages : SameAll n s.sent (s.got ++ held (bit full) (chan_of n full bytes world))

pub SameAll-snoc :
    (n : ℕ) (xs ys : List (ℕ → ℕ)) (x y : ℕ → ℕ)
    → SameAll n xs ys
    → Same n x y
    → SameAll n (xs ++ x ∷ []) (ys ++ y ∷ [])
SameAll-snoc n [] [] x y v same = (same, tt)
SameAll-snoc n [] (z ∷ ys) x y v same = absurd v
SameAll-snoc n (z ∷ xs) [] x y v same = absurd v
SameAll-snoc n (z ∷ xs) (w ∷ ys) x y (first, v) same = (first, SameAll-snoc n xs ys x y v same)

pub SameAll-more :
    (n : ℕ) (xs ys : List (ℕ → ℕ)) (x y : ℕ → ℕ)
    → SameAll n xs (ys ++ x ∷ [])
    → Same n x y
    → SameAll n xs (ys ++ y ∷ [])
SameAll-more n [] [] x y v same = absurd v
SameAll-more n [] (z ∷ ys) x y v same = absurd v
SameAll-more n (w ∷ []) [] x y (first, v) same = ((λ k h. first k h ∙ same k h), tt)
SameAll-more n (w ∷ u ∷ xs) [] x y (first, v) same = absurd v
SameAll-more n (w ∷ xs) (z ∷ ys) x y (first, v) same = (first, SameAll-more n xs ys x y v same)

module _ {W : Type 0} (wake_up : Waiters → W → W) (n : ℕ) (buf : ℕ → ℕ) (world : W) where
  -- The block once the message is in.
  abbrev pub filled : (ℕ → ℕ) → ℕ → ℕ
  filled bytes j =
      if leb (0 * n % 2 ^ 32) j && ltb j (0 * n % 2 ^ 32 + n)
      then bytes (j - 0 * n % 2 ^ 32)
      else buf j

  fits : leb (0 * n % 2 ^ 32 + n) n ≡ true
  fits = ground arith

  pub write-empty :
      (bytes : ℕ → ℕ)
      → channel_write wake_up bytes (chan_of n false buf world)
        ≡ ok (passed (chan_of n true (filled bytes) (wake_up recv_waiters world)))
  unfolding channel_write put
  write-empty bytes = rw fits refl

  pub write-full :
      (bytes : ℕ → ℕ) → channel_write wake_up bytes (chan_of n true buf world) ≡ ok goes_back
  unfolding channel_write
  write-full bytes = refl

  pub read-empty : channel_read wake_up (chan_of n false buf world) ≡ ok goes_back
  unfolding channel_read
  read-empty = refl

  pub read-full :
      channel_read wake_up (chan_of n true buf world)
      ≡ ok (
          passed
            ((λ k. buf (0 * n % 2 ^ 32 + k)), chan_of n false buf (wake_up send_waiters world)))
  unfolding channel_read get
  read-full = rw fits refl

  pub filled-Same : (bytes : ℕ → ℕ) → Same n bytes (filled bytes)
  filled-Same bytes k h = ground arith
