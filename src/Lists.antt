-- ===== src/Lists.antt =====
-- What the program relies on of container/list.h, a copy of the Linux kernel's list.h. It is not
-- modelled; its documented behaviour is an interface. `Head` is a list head with what is linked to
-- it, `entries` is what list_for_each_entry visits, and an entry is the address of its struct.
-- list_del names no head, so a model calls it for each head on which the entry may stand.
pub mod Plain
pub mod Remove
pub mod Counts
use treasure_house.Base.{ℕ, ◌≡◌, Bool, true, false, ◌||◌, ◌==◌, if◌then◌else◌, List, [], ◌∷◌, ◌++◌}

abbrev pub has : ℕ → List ℕ → Bool
has e [] = false
has e (x ∷ xs) = (e == x) || has e xs

abbrev pub remove : ℕ → List ℕ → List ℕ
remove e [] = []
remove e (x ∷ xs) = if e == x then remove e xs else x ∷ remove e xs

abbrev pub is_nil : List ℕ → Bool
is_nil [] = true
is_nil (x ∷ xs) = false

-- The laws hold of an entry that is on no list where it is added; it is never linked twice.
pub record ListLib : Type 1 where
  pub Head : Type 0
  pub entries : Head → List ℕ
  pub init_list_head : Head
  pub list_add : ℕ → Head → Head
  pub list_add_tail : ℕ → Head → Head
  pub list_del : ℕ → Head → Head
  pub list_empty : Head → Bool
  pub entries-init : entries init_list_head ≡ []
  pub entries-list_add :
      (e : ℕ) (h : Head) → has e (entries h) ≡ false → entries (list_add e h) ≡ e ∷ entries h
  pub entries-list_add_tail :
      (e : ℕ) (h : Head)
      → has e (entries h) ≡ false
      → entries (list_add_tail e h) ≡ entries h ++ e ∷ []
  pub entries-list_del : (e : ℕ) (h : Head) → entries (list_del e h) ≡ remove e (entries h)
  pub list_empty-entries : (h : Head) → list_empty h ≡ is_nil (entries h)
