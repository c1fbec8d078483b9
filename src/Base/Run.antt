-- ===== src/Base/Run.antt =====
-- How a piece of C ends: with a value, in undefined behaviour (an access outside a block, a failed
-- assertion), or with the model's fuel used up.
use treasure_house.Base.Tests.{if◌then◌else◌}
use mathlib.Core.Path.{◌≡◌, refl, subst}
use mathlib.Core.Bool.{Bool, true, false}

pub data Run {ℓ} (A : Type ℓ) : Type ℓ where
  ok : A → Run A
  fault : Run A
  out_of_fuel : Run A

infixl 5 ◌>>=◌
abbrev pub ◌>>=◌ {ℓ κ} : {A : Type ℓ} {B : Type κ} → Run A → (A → Run B) → Run B
ok a >>= k = k a
fault >>= k = fault
out_of_fuel >>= k = out_of_fuel

-- Total correctness: the run ends normally, with a value of which `P` holds.
pub data Ends {ℓ κ} {A : Type ℓ} (P : A → Type κ) : Run A → Type (ℓ ⊔ κ) where
  ends : {a : A} → P a → Ends P (ok a)

module _ {ℓ κ} {A : Type ℓ} {P : A → Type κ} where
  pub Ends-bind {ℓ' κ'} :
      {B : Type ℓ'} {Q : B → Type κ'} {r : Run A} {k : A → Run B}
      → Ends P r
      → ((a : A) → P a → Ends Q (k a))
      → Ends Q (r >>= k)
  Ends-bind (ends p) next = next _ p

  pub Ends-weaken {κ'} : {Q : A → Type κ'} {r : Run A} → Ends P r → ((a : A) → P a → Q a) → Ends Q r
  Ends-weaken (ends p) w = ends (w _ p)

  pub Ends-both {κ'} : {Q : A → Type κ'} {r : Run A} → Ends P r → Ends Q r → Ends (λ a. P a × Q a) r
  Ends-both (ends p) (ends q) = ends (p, q)

  pub Ends-test :
      {x y : Run A} (b : Bool)
      → (b ≡ true → Ends P x)
      → (b ≡ false → Ends P y)
      → Ends P (if b then x else y)
  Ends-test true p q = p refl
  Ends-test false p q = q refl

  pub Ends-value : {r : Run A} → Ends P r → (a : A) × (r ≡ ok a) × P a
  Ends-value (ends p) = (_, refl, p)

  Ends-ok : {a : A} → Ends P (ok a) → P a
  Ends-ok (ends p) = p

pub Ends-at {ℓ κ} : {A : Type ℓ} (P : A → Type κ) (r : Run A) (a : A) → r ≡ ok a → Ends P r → P a
Ends-at P r a e v = Ends-ok (subst (λ x. Ends P x) e v)
