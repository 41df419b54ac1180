-- ===== src/Menu.antt =====
-- include/menu.h and src/menu.c: the catalog of dishes. `Files` models its file.
pub mod Catalog
pub mod Files
use system_programming_team.Common.{MenuItem, MenuCatalog, max_menu_items, max_category}
use system_programming_team.Keyed.{find_index, remove_at}
use system_programming_team.Prelude.{
  ℕ, List, [], ◌∷◌, ◌++◌, Option, none, some, Result, ok, err, leb, if◌then◌else◌, length,
  get_elem?, set, ℤ, pos, leb_ℤ, ltb_ℤ, add_int, Bytes,
}
use system_programming_team.Text.{codes, fit, truth, non_empty, other_category}

abbrev pub item_id : MenuItem → ℤ
item_id m = m.id

unfoldable pub menu_init_catalog : MenuCatalog
menu_init_catalog = record { items = [] }

unfoldable pub menu_fill_defaults : MenuItem → MenuItem
menu_fill_defaults m = record m {
  category = non_empty m.category (fit max_category other_category);
  sold_out = truth m.sold_out;
  popular = truth m.popular;
}

unfoldable pub menu_index_by_id : MenuCatalog → ℤ → Option ℕ
unfolding find_index
menu_index_by_id cat id = find_index item_id id cat.items

unfoldable pub menu_find_by_id : MenuCatalog → ℤ → Option MenuItem
unfolding menu_index_by_id
menu_find_by_id cat id = elim (menu_index_by_id cat id) [
  | none ↦ none
  | some i ↦ get_elem? cat.items i
]

unfoldable pub max_id_from : ℤ → List MenuItem → ℤ
max_id_from m [] = m
max_id_from m (x ∷ xs) = max_id_from (if ltb_ℤ m x.id then x.id else m) xs

unfoldable pub next_menu_id : MenuCatalog → ℤ
unfolding max_id_from add_int
next_menu_id cat = add_int (max_id_from (pos 0) cat.items) (pos 1)

unfoldable pub menu_add_item : MenuCatalog → MenuItem → Result MenuCatalog
unfolding menu_fill_defaults next_menu_id menu_index_by_id
menu_add_item cat item =
    if leb max_menu_items (length cat.items)
    then err (codes "menu full")
    else (let copy = menu_fill_defaults item in
        let copy' : MenuItem = record copy {
          id = if leb_ℤ copy.id (pos 0) then next_menu_id cat else copy.id;
        } in
        elim (menu_index_by_id cat copy'.id) [
          | some _ ↦ err (codes "duplicate id")
          | none ↦ ok (record { items = cat.items ++ copy' ∷ [] })
        ])

-- The operations that change the entry with an id: look it up, or fail.
abbrev pub at_id : MenuCatalog → ℤ → (MenuItem → MenuItem) → Result MenuCatalog
at_id cat id f = elim (menu_index_by_id cat id) [
  | none ↦ err (codes "menu id not found")
  | some i ↦ elim (get_elem? cat.items i) [
    | none ↦ err (codes "menu id not found")
    | some m ↦ ok (record { items = set cat.items i (f m) })
  ]
]

unfoldable pub menu_update_item : MenuCatalog → ℤ → MenuItem → Result MenuCatalog
unfolding menu_index_by_id menu_fill_defaults
menu_update_item cat id item = at_id cat id (λ _. record (menu_fill_defaults item) { id = id })

unfoldable pub menu_delete_item : MenuCatalog → ℤ → Result MenuCatalog
unfolding menu_index_by_id
menu_delete_item cat id = elim (menu_index_by_id cat id) [
  | none ↦ err (codes "menu id not found")
  | some i ↦ ok (record { items = remove_at cat.items i })
]

unfoldable pub menu_set_soldout : MenuCatalog → ℤ → ℤ → Result MenuCatalog
unfolding menu_index_by_id
menu_set_soldout cat id sold_out = at_id cat id (λ m. record m { sold_out = truth sold_out })

abbrev pub given : Option Bytes → Bytes
given none = other_category
given (some c) = non_empty c other_category

-- `none` is the null pointer.
unfoldable pub menu_set_category : MenuCatalog → ℤ → Option Bytes → Result MenuCatalog
unfolding menu_index_by_id
menu_set_category cat id category =
    at_id cat id (λ m. record m { category = fit max_category (given category) })

unfoldable pub menu_set_popular : MenuCatalog → ℤ → ℤ → Result MenuCatalog
unfolding menu_index_by_id
menu_set_popular cat id popular = at_id cat id (λ m. record m { popular = truth popular })
