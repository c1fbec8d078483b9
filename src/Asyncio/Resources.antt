-- ===== src/Asyncio/Resources.antt =====
-- The descriptors, watches and blocks that an Io has, and how calls change them.
use treasure_house.Base.{ℕ, ◌≡◌, refl, sym, ap, ◌∙◌, List, [], ◌∷◌, ◌++◌}
use treasure_house.Asyncio.{Call, Io, after_calls, open_after, readers_after, blocks_after}

after_calls-append :
    (step : Call → List ℕ → List ℕ) (xs ys : List Call) (was : List ℕ)
    → after_calls step (xs ++ ys) was ≡ after_calls step ys (after_calls step xs was)
after_calls-append step [] ys was = refl
after_calls-append step (c ∷ xs) ys was = after_calls-append step xs ys (step c was)

module _ {S : Type 0} where
  abbrev pub fds_of : Io S → List ℕ
  fds_of io = after_calls open_after io.calls []

  abbrev pub readers_of : Io S → List ℕ
  readers_of io = after_calls readers_after io.calls []

  abbrev pub blocks_of : Io S → List ℕ
  blocks_of io = after_calls blocks_after io.calls []

  -- After the calls `more`, for each of the three.
  pub record Calls (more : List Call) (io q : Io S) : Type 0 where
    pub fds : fds_of q ≡ after_calls open_after more (fds_of io)
    pub readers : readers_of q ≡ after_calls readers_after more (readers_of io)
    pub blocks : blocks_of q ≡ after_calls blocks_after more (blocks_of io)

  pub call-Calls : (more : List Call) (io q : Io S) → q.calls ≡ io.calls ++ more → Calls more io q
  call-Calls more io q e = record {
    fds = rw e (after_calls-append open_after io.calls more []);
    readers = rw e (after_calls-append readers_after io.calls more []);
    blocks = rw e (after_calls-append blocks_after io.calls more []);
  }

  pub Calls-then :
      (xs ys : List Call) (io q r : Io S) → Calls xs io q → Calls ys q r → Calls (xs ++ ys) io r
  Calls-then xs ys io q r u v = record {
    fds =
        v.fds
        ∙ ap (after_calls open_after ys) u.fds
        ∙ sym (after_calls-append open_after xs ys (fds_of io));
    readers =
        v.readers
        ∙ ap (after_calls readers_after ys) u.readers
        ∙ sym (after_calls-append readers_after xs ys (readers_of io));
    blocks =
        v.blocks
        ∙ ap (after_calls blocks_after ys) u.blocks
        ∙ sym (after_calls-append blocks_after xs ys (blocks_of io));
  }
