-- ===== src/Log/Buffer.antt =====
-- Texts in a buffer, and what store, copy and snprintf write there.
use treasure_house.Base.{
  ◌∙◌, subst, ℕ, zero, suc, ◌+◌, ◌-◌, ◌≤◌, ◌<◌, ◌≡◌, refl, List, [], ◌∷◌, ◌++◌, length, arith, ltb,
  ◌==◌,
}
use treasure_house.Base.Run.{Ends, ends, Ends-bind, Ends-weaken, Ends-test}
use treasure_house.Log.Format.{store, copy, snprintf}

-- The bytes stand from `at` on, as far as they lie below `limit`.
abbrev pub Spells : ℕ → (ℕ → ℕ) → ℕ → List ℕ → Type 0
Spells limit buf at [] = Unit {0}
Spells limit buf at (b ∷ bs) = (at < limit → buf at ≡ b) × Spells limit buf (at + 1) bs

pub Spells-past :
    (limit : ℕ) (buf : ℕ → ℕ) (at : ℕ) (bs : List ℕ) → limit ≤ at → Spells limit buf at bs
Spells-past limit buf at [] past = tt
Spells-past limit buf at (b ∷ bs) past =
    (λ below. absurd (omega arith), Spells-past limit buf (at + 1) bs (omega arith))

pub Spells-append :
    (limit : ℕ) (buf : ℕ → ℕ) (at : ℕ) (xs ys : List ℕ)
    → Spells limit buf at xs
    → Spells limit buf (at + length xs) ys
    → Spells limit buf at (xs ++ ys)
Spells-append limit buf at [] ys s t = subst (λ k. Spells limit buf k ys) (omega arith) t
Spells-append limit buf at (x ∷ xs) ys s t = (
  s.0,
  Spells-append limit buf (at + 1) xs ys s.1 (subst (λ k. Spells limit buf k ys) (omega arith) t),
)

pub Spells-same :
    (limit : ℕ) (buf after : ℕ → ℕ) (at : ℕ) (bs : List ℕ)
    → ((k : ℕ) → k < limit → k < at + length bs → after k ≡ buf k)
    → Spells limit buf at bs
    → Spells limit after at bs
Spells-same limit buf after at [] same s = tt
Spells-same limit buf after at (b ∷ bs) same s = (
  λ below. same at below (omega arith) ∙ s.0 below,
  Spells-same limit buf after (at + 1) bs (λ k l m. same k l (omega arith)) s.1,
)

-- What a call that was given the bytes from `at` to `limit` and the NUL behind them wrote.
abbrev pub Copied : ℕ → (ℕ → ℕ) → ℕ → List ℕ → (ℕ → ℕ) → Type 0
Copied limit buf at bs after = ((k : ℕ) → k < at → after k ≡ buf k) × Spells limit after at bs

pub store-Copied :
    (len at c : ℕ) (buf : ℕ → ℕ)
    → at < len
    → Ends (λ after. ((k : ℕ) → k < at → after k ≡ buf k) × (after at ≡ c)) (store len at c buf)
unfolding store
store-Copied len at c buf inside =
    Ends-test (ltb at len) (λ inside. ends (λ k below. ground arith, ground arith))
      (λ outside. absurd (ground arith))

pub copy-Copied :
    (len at size : ℕ) (bs : List ℕ) (buf : ℕ → ℕ)
    → at + size < len
    → Ends (Copied (at + size) buf at bs) (copy len at (suc size) bs buf)
unfolding copy
copy-Copied len at size [] buf fits =
    Ends-weaken (store-Copied len at 0 buf (omega arith)) (λ after (same, nul). (same, tt))
copy-Copied len at zero (b ∷ bs) buf fits =
    Ends-weaken (store-Copied len at 0 buf (omega arith))
      (λ after (same, nul). (same, Spells-past (at + 0) after at (b ∷ bs) (omega arith)))
copy-Copied len at (suc size) (b ∷ bs) buf fits =
    Ends-test (suc size == 0) (λ none. absurd (ground arith))
      (λ some. Ends-bind (store-Copied len at b buf (omega arith)) (λ mid (same, put).
        Ends-weaken (copy-Copied len (at + 1) size bs mid (omega arith)) (λ after (later, rest). (
          λ k below. later k (omega arith) ∙ same k below,
          (
            (λ below. later at (omega arith) ∙ put),
            subst (λ limit. Spells limit after (at + 1) bs) (omega arith) rest,
          ),
        ))))

pub snprintf-Copied :
    (len at : ℕ) (bs : List ℕ) (buf : ℕ → ℕ)
    → at < len
    → Ends
        (λ p. (p.0 ≡ length bs) × Copied (len - 1) buf at bs p.1)
        (snprintf len at (len - at) bs buf)
unfolding snprintf
snprintf-Copied len at bs buf inside =
    let size : len - at ≡ suc (len - at - 1) = omega arith in
    let limit : at + (len - at - 1) ≡ len - 1 = omega arith in
    rw size (
      Ends-bind (copy-Copied len at (len - at - 1) bs buf (omega arith))
        (λ after (same, put). ends (refl, (same, subst (λ l. Spells l after at bs) limit put))))
