-- ===== src/Menu/Catalog.antt =====
-- The edits of the catalog in src/menu.c, and the ids of new dishes.
pub mod Edits
pub mod NewIds
use system_programming_team.Common.{MenuItem, MenuCatalog}
use system_programming_team.Keyed.{find, find_index}
use system_programming_team.Keyed.Laws.{find_index-some, find_index-find}
use system_programming_team.Menu.{
  item_id, menu_add_item, menu_update_item, menu_delete_item, menu_set_soldout, menu_set_category,
  menu_set_popular, menu_find_by_id, menu_index_by_id,
}
use system_programming_team.Prelude.{
  ◌≡◌, refl, ◌∙◌, sym, ap, ℤ, Option, none, some, Bytes, Result, get_elem?, arith, Option-cases,
  inl, inr, ◌⊎◌,
}

-- The calls that change the catalog.
pub data Edit : Type 0 where
  add : MenuItem → Edit
  update : ℤ → MenuItem → Edit
  delete : ℤ → Edit
  set_soldout : ℤ → ℤ → Edit
  set_category : ℤ → Option Bytes → Edit
  set_popular : ℤ → ℤ → Edit

unfoldable pub edit : MenuCatalog → Edit → Result MenuCatalog
edit cat (add item) = menu_add_item cat item
edit cat (update id item) = menu_update_item cat id item
edit cat (delete id) = menu_delete_item cat id
edit cat (set_soldout id n) = menu_set_soldout cat id n
edit cat (set_category id c) = menu_set_category cat id c
edit cat (set_popular id n) = menu_set_popular cat id n

pub menu_find_by_id-find :
    (cat : MenuCatalog) (id : ℤ) → menu_find_by_id cat id ≡ find item_id id cat.items
unfolding menu_find_by_id menu_index_by_id
menu_find_by_id-find cat id = elim (Option-cases (find_index item_id id cat.items)) [
  | inl n ↦ ground (arith, find_index-find item_id id cat.items n)
  | inr (i, p) ↦ let (m, g, _, f) = find_index-some item_id id cat.items i p in ground arith
]
