-- ===== src/Chan/Kept.antt =====
-- Whatever writers and readers do with a channel that channel_open made.
use mathlib.Core.Path.{subst}
use treasure_house.Base.{
  ◌%◌, ◌^◌, ◌*◌, ℕ, ◌+◌, ◌≡◌, refl, sym, ap, ◌∙◌, ◌⊎◌, inl, inr, Bool, true, false, List, [], ◌∷◌,
  ◌++◌, arith,
}
use treasure_house.Base.Memory.{bit}
use treasure_house.Base.Run.{Run, ok, fault, out_of_fuel}
use treasure_house.Chan.{
  Chan, Waiters, recv_waiters, send_waiters, Passed, is_closed, goes_back, passed, channel_open,
  channel_write, channel_read,
}
use treasure_house.Chan.Delivered.{
  SameAll, State, Step, Reach, writes, reads, others, here, next, held, chan_of, IsKept,
  SameAll-snoc, SameAll-more, filled, write-empty, write-full, read-empty, read-full, filled-Same,
}

append_nil : (xs : List (ℕ → ℕ)) → xs ++ [] ≡ xs
append_nil [] = refl
append_nil (x ∷ xs) = ap (λ ys. x ∷ ys) (append_nil xs)

-- What passed, or `other`.
abbrev passed_or {ℓ} : {A : Type ℓ} → A → Run (Passed A) → A
passed_or other (ok (passed x)) = x
passed_or other (ok is_closed) = other
passed_or other (ok goes_back) = other
passed_or other fault = other
passed_or other out_of_fuel = other

module _ {W : Type 0} (wake_up : Waiters → W → W) (n : ℕ) where
  written :
      (s : State W) (bytes : ℕ → ℕ) (c : Chan W) (full : Bool) (buf : ℕ → ℕ) (world : W)
      → s.chan ≡ chan_of n full buf world
      → SameAll n s.sent (s.got ++ held (bit full) (chan_of n full buf world))
      → channel_write wake_up bytes s.chan ≡ ok (passed c)
      → IsKept n (record { chan = c; sent = s.sent ++ bytes ∷ []; got = s.got })
  written s bytes c true buf world e v done =
      let clash : ok goes_back ≡ ok (passed c) =
        sym (write-full wake_up n buf world bytes)
        ∙ sym (ap (channel_write wake_up bytes) e)
        ∙ done in
      ground (arith, clash)
  written s bytes c false buf world e v done =
      let is : ok (
            passed (chan_of n true (filled wake_up n buf world bytes) (wake_up recv_waiters world)))
          ≡ ok (passed c) =
        sym (write-empty wake_up n buf world bytes)
        ∙ sym (ap (channel_write wake_up bytes) e)
        ∙ done in
      record {
        full = true;
        bytes = filled wake_up n buf world bytes;
        world = wake_up recv_waiters world;
        chan = ap (passed_or c) (sym is);
        messages =
            SameAll-snoc n s.sent s.got bytes (filled wake_up n buf world bytes)
              (subst (λ ys. SameAll n s.sent ys) (append_nil s.got) v)
              (filled-Same wake_up n buf world bytes);
      }

  taken :
      (s : State W) (bytes : ℕ → ℕ) (c : Chan W) (full : Bool) (buf : ℕ → ℕ) (world : W)
      → s.chan ≡ chan_of n full buf world
      → SameAll n s.sent (s.got ++ held (bit full) (chan_of n full buf world))
      → channel_read wake_up s.chan ≡ ok (passed (bytes, c))
      → IsKept n (record { chan = c; sent = s.sent; got = s.got ++ bytes ∷ [] })
  taken s bytes c false buf world e v done =
      let clash : ok goes_back ≡ ok (passed (bytes, c)) =
        sym (read-empty wake_up n buf world) ∙ sym (ap (channel_read wake_up) e) ∙ done in
      ground (arith, clash)
  taken s bytes c true buf world e v done =
      let is : ok (
            passed
              ((λ k. buf (0 * n % 2 ^ 32 + k)), chan_of n false buf (wake_up send_waiters world)))
          ≡ ok (passed (bytes, c)) =
        sym (read-full wake_up n buf world) ∙ sym (ap (channel_read wake_up) e) ∙ done in
      let both = ap (passed_or (bytes, c)) (sym is) in
      let read : SameAll n s.sent (s.got ++ bytes ∷ []) =
        SameAll-more n s.sent s.got buf bytes v
          (λ k h. ap buf (omega arith) ∙ sym (ap (λ r. r.0 k) both)) in
      record {
        full = false;
        bytes = buf;
        world = wake_up send_waiters world;
        chan = ap (λ r. r.1) both;
        messages = subst (λ ys. SameAll n s.sent ys) (sym (append_nil (s.got ++ bytes ∷ []))) read;
      }

  held_any :
      (full : Bool) (buf : ℕ → ℕ) (world other : W)
      → held (bit full) (chan_of n full buf world) ≡ held (bit full) (chan_of n full buf other)
  held_any false buf world other = refl
  held_any true buf world other = refl

  Step-IsKept : {s t : State W} → Step wake_up s t → IsKept n s → IsKept n t
  Step-IsKept {s} (writes bytes c done) v =
      written s bytes c v.full v.bytes v.world v.chan v.messages done
  Step-IsKept {s} (reads bytes c done) v =
      taken s bytes c v.full v.bytes v.world v.chan v.messages done
  Step-IsKept {s} (others world) v =
      let moved : Chan W → Chan W = λ c. record c { world = world } in
      record {
        full = v.full;
        bytes = v.bytes;
        world = world;
        chan = ap moved v.chan;
        messages =
            subst (λ ys. SameAll n s.sent (s.got ++ ys)) (held_any v.full v.bytes v.world world)
              v.messages;
      }

  Reach-IsKept : {s t : State W} → Reach wake_up s t → IsKept n s → IsKept n t
  Reach-IsKept here v = v
  Reach-IsKept (next r step) v = Step-IsKept step (Reach-IsKept r v)

  -- A new channel for messages of `n` bytes.
  abbrev pub start : (ℕ → ℕ) → W → State W
  start bytes world = record { chan = channel_open n bytes world; sent = []; got = [] }

  start-IsKept : (bytes : ℕ → ℕ) (world : W) → IsKept n (start bytes world)
  unfolding channel_open
  start-IsKept bytes world = record {
    full = false;
    bytes = bytes;
    world = world;
    chan = refl;
    messages = tt;
  }

  -- What passes: a writer alone, or a reader alone.
  abbrev pub OnePasses : State W → (ℕ → ℕ) → Type 0
  OnePasses s bytes =
      ((s.chan.elem_num ≡ 0)
        × ((c : Chan W) × (channel_write wake_up bytes s.chan ≡ ok (passed c)))
        × (channel_read wake_up s.chan ≡ ok goes_back))
      ⊎ ((s.chan.elem_num ≡ 1)
          × (channel_write wake_up bytes s.chan ≡ ok goes_back)
          × ((r : (ℕ → ℕ) × Chan W) × (channel_read wake_up s.chan ≡ ok (passed r))))

  passes_by :
      (s : State W) (bytes : ℕ → ℕ) (full : Bool) (buf : ℕ → ℕ) (world : W)
      → s.chan ≡ chan_of n full buf world
      → OnePasses s bytes
  passes_by s bytes false buf world e = inl (
    ap (λ c. c.elem_num) e,
    (_, ap (channel_write wake_up bytes) e ∙ write-empty wake_up n buf world bytes),
    ap (channel_read wake_up) e ∙ read-empty wake_up n buf world,
  )
  passes_by s bytes true buf world e = inr (
    ap (λ c. c.elem_num) e,
    ap (channel_write wake_up bytes) e ∙ write-full wake_up n buf world bytes,
    (_, ap (channel_read wake_up) e ∙ read-full wake_up n buf world),
  )

  messages_of : (s : State W) → IsKept n s → SameAll n s.sent (s.got ++ held s.chan.elem_num s.chan)
  messages_of s v =
      subst (λ c. SameAll n s.sent (s.got ++ held c.elem_num c)) (sym v.chan) v.messages

  module _ (buf : ℕ → ℕ) (world : W) (s : State W)
      (reached : Reach wake_up (start buf world) s) where
    -- In every state that calls of channel_write and channel_read by the coroutines of one processor,
    -- which give way only where they wait, lead to from channel_open, whatever else happens to those
    -- who wait, the messages written are those read, in order, and then the one
    -- that the channel holds, if it holds one, each with all the bytes that channel_open was told.
    pub delivered_in_order : SameAll n s.sent (s.got ++ held s.chan.elem_num s.chan)
    delivered_in_order = messages_of s (Reach-IsKept reached (start-IsKept buf world))

    -- In every state that calls of channel_write and channel_read by the coroutines of one processor,
    -- which give way only where they wait, lead to from channel_open, whatever else happens to those
    -- who wait: the channel holds no message, a call of channel_write passes and
    -- one of channel_read goes back to wait; or it holds one, and it is the other way round. Neither
    -- leaves the block.
    pub one_side_passes : (bytes : ℕ → ℕ) → OnePasses s bytes
    one_side_passes bytes =
        let v = Reach-IsKept reached (start-IsKept buf world) in
        passes_by s bytes v.full v.bytes v.world v.chan
