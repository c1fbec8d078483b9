-- ===== src/Lists/Plain.antt =====
-- Plain lists meet the interface.
use treasure_house.Base.{ℕ, refl, List, [], ◌∷◌, ◌++◌}
use treasure_house.Lists.{ListLib, remove, is_nil}

abbrev pub plain : ListLib
plain = record {
  Head = List ℕ;
  entries = λ l. l;
  init_list_head = [];
  list_add = λ e l. e ∷ l;
  list_add_tail = λ e l. l ++ e ∷ [];
  list_del = remove;
  list_empty = is_nil;
  entries-init = refl;
  entries-list_add = λ e h _. refl;
  entries-list_add_tail = λ e h _. refl;
  entries-list_del = λ e h. refl;
  list_empty-entries = λ h. refl;
}
