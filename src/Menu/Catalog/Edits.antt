-- ===== src/Menu/Catalog/Edits.antt =====
-- Every edit of the catalog.
use system_programming_team.Common.{MenuItem, MenuCatalog, max_menu_items, max_category}
use system_programming_team.Keyed.{find, find_index, Distinct}
use system_programming_team.Keyed.Laws.{
  find_index-some, update_first-set, find-update_first, map-update_first, All-update_first,
  update_first-length,
}
use system_programming_team.Menu.Catalog.{
  Edit, add, update, delete, set_soldout, set_category, set_popular,
}
use system_programming_team.Menu.{
  item_id, given, at_id, menu_index_by_id, menu_fill_defaults, next_menu_id,
}
use system_programming_team.Prelude.{
  ◌≤◌, ◌≡◌, ◌≢◌, sym, subst, List, [], map, Option, none, some, ok, arith, if◌then◌else◌, length,
  All, set, ℤ, pos, eqb_ℤ, leb_ℤ, Option-cases, inl, inr,
}
use system_programming_team.Text.{fit, truth}

-- An entry as the operations leave it: its flags are 0 or 1 and it has a category.
pub record IsNormal (m : MenuItem) : Type 0 where
  pub sold : truth m.sold_out ≡ m.sold_out
  pub popular : truth m.popular ≡ m.popular
  pub category : m.category ≢ []

pub record IsValid (cat : MenuCatalog) : Type 0 where
  pub bounded : length cat.items ≤ max_menu_items
  pub distinct : Distinct (map item_id cat.items)
  pub normal : All IsNormal cat.items

abbrev pub dish : ℤ → MenuCatalog → Option MenuItem
dish id cat = find item_id id cat.items

-- An edit through the pointer that `menu_index_by_id` returns.
pub at_id_lem :
    (cat d : MenuCatalog) (id : ℤ) (f : MenuItem → MenuItem)
    → ((m : MenuItem) → m.id ≡ id → (f m).id ≡ m.id)
    → ((m : MenuItem) → IsNormal m → IsNormal (f m))
    → at_id cat id f ≡ ok d
    → IsValid cat
    → IsValid d
      × ((j : ℤ)
          → dish j d ≡ (
              if eqb_ℤ id j
              then elim (dish id cat) [ none ↦ none | some m ↦ some (f m) ]
              else dish j cat))
unfolding menu_index_by_id
at_id_lem cat d id f keeps normal h v = elim (Option-cases (find_index item_id id cat.items)) [
  | inl n ↦ absurd (ground arith)
  | inr (i, p) ↦
      let (m, g, _, _) = find_index-some item_id id cat.items i p in
      let e : record { items = set cat.items i (f m) } ≡ d = ground arith in
      let u = update_first-set item_id f id cat.items i m p g in
      subst
        (λ d.
          IsValid d
          × ((j : ℤ)
              → dish j d ≡ (
                  if eqb_ℤ id j
                  then elim (dish id cat) [ none ↦ none | some m ↦ some (f m) ]
                  else dish j cat)))
        e
        (
          record {
            bounded =
                omega (arith, update_first-length item_id f id keeps cat.items _ u, v.bounded);
            distinct =
                subst Distinct (sym (map-update_first item_id f id keeps cat.items _ u)) v.distinct;
            normal =
                All-update_first item_id f id keeps IsNormal cat.items _ u (λ x _. normal x)
                  v.normal;
          },
          λ j. find-update_first item_id f id keeps j cat.items _ u,
        )
]

-- The entry that `menu_add_item` stores.
abbrev pub stored : MenuCatalog → MenuItem → MenuItem
stored cat item = record (menu_fill_defaults item) {
  id =
      if leb_ℤ (menu_fill_defaults item).id (pos 0)
      then next_menu_id cat
      else (menu_fill_defaults item).id;
}

-- The dish that an edit is about.
abbrev pub subject : MenuCatalog → Edit → ℤ
subject cat (add item) = (stored cat item).id
subject cat (update id item) = id
subject cat (delete id) = id
subject cat (set_soldout id n) = id
subject cat (set_category id c) = id
subject cat (set_popular id n) = id

-- What an edit makes of its dish.
abbrev pub edited : MenuCatalog → Edit → Option MenuItem → Option MenuItem
edited cat (add item) o = some (stored cat item)
edited cat (delete id) o = none
edited cat (update id item) o = elim o [
  | none ↦ none
  | some m ↦ some (record (menu_fill_defaults item) { id = id })
]
edited cat (set_soldout id n) o = elim o [
  | none ↦ none
  | some m ↦ some (record m { sold_out = truth n })
]
edited cat (set_category id c) o = elim o [
  | none ↦ none
  | some m ↦ some (record m { category = fit max_category (given c) })
]
edited cat (set_popular id n) o = elim o [
  | none ↦ none
  | some m ↦ some (record m { popular = truth n })
]
