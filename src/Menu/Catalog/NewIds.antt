-- ===== src/Menu/Catalog/NewIds.antt =====
-- The ids that `menu_add_item` assigns.
use system_programming_team.Common.{MenuItem, MenuCatalog, max_menu_items}
use system_programming_team.Keyed.Laws.{find_index-of_absent}
use system_programming_team.Menu.Catalog.Edits.{stored}
use system_programming_team.Menu.{
  item_id, menu_add_item, menu_index_by_id, menu_fill_defaults, next_menu_id, max_id_from,
}
use system_programming_team.Prelude.{
  ◌<◌, ◌≡◌, ◌≢◌, List, [], ◌∷◌, ◌++◌, map, ok, true, arith, length, All, ℤ, pos, ltb_ℤ, leb_ℤ, ◌<ℤ◌,
  ◌≤ℤ◌, int_max, add_int, Bool-cases, inl, inr, if◌then◌else◌,
}

-- The maximum is not below what it starts from, and not below any id.
max_id_from-le : (m : ℤ) (xs : List MenuItem) → m ≤ℤ max_id_from m xs
unfolding max_id_from
max_id_from-le m [] = omega arith
max_id_from-le m (x ∷ xs) = elim (Bool-cases (ltb_ℤ m x.id)) [
  | inl e ↦ ground (arith, max_id_from-le (if ltb_ℤ m x.id then x.id else m) xs)
  | inr e ↦ ground (arith, max_id_from-le (if ltb_ℤ m x.id then x.id else m) xs)
]

All-le_max : (m : ℤ) (xs : List MenuItem) → All (λ j. j ≤ℤ max_id_from m xs) (map item_id xs)
unfolding max_id_from
All-le_max m [] = tt
All-le_max m (x ∷ xs) =
    let n = if ltb_ℤ m x.id then x.id else m in
    (ground (arith, max_id_from-le n xs), All-le_max n xs)

max_id_from-lt :
    (m : ℤ) (xs : List MenuItem)
    → m <ℤ int_max
    → All (λ j. j <ℤ int_max) (map item_id xs)
    → max_id_from m xs <ℤ int_max
unfolding max_id_from
max_id_from-lt m [] h a = h
max_id_from-lt m (x ∷ xs) h a =
    max_id_from-lt (if ltb_ℤ m x.id then x.id else m) xs (ground (arith, a.0)) a.1

absent_above : (m : ℤ) (ks : List ℤ) → All (λ j. j ≤ℤ m) ks → (k : ℤ) → m <ℤ k → All (λ j. j ≢ k) ks
absent_above m [] a k h = tt
absent_above m (j ∷ ks) a k h = ((λ e. ground (arith, a.0)), absent_above m ks a.1 k h)

next_menu_id_lem :
    (cat : MenuCatalog)
    → All (λ j. j <ℤ int_max) (map item_id cat.items)
    → (pos 0 <ℤ next_menu_id cat) × (max_id_from (pos 0) cat.items <ℤ next_menu_id cat)
unfolding next_menu_id add_int
next_menu_id_lem cat a =
    let lo = max_id_from-le (pos 0) cat.items in
    let hi = max_id_from-lt (pos 0) cat.items (omega arith) a in ground arith

-- A dish that is added with no id of its own, to a catalog with room whose ids are below the
-- largest int, is stored at the end under a positive id that no dish had.
pub menu_add_item-fresh :
    (cat : MenuCatalog) (item : MenuItem)
    → length cat.items < max_menu_items
    → All (λ j. j <ℤ int_max) (map item_id cat.items)
    → item.id ≤ℤ pos 0
    → (menu_add_item cat item ≡ ok (record { items = cat.items ++ stored cat item ∷ [] }))
      × (pos 0 <ℤ (stored cat item).id)
      × All (λ j. j ≢ (stored cat item).id) (map item_id cat.items)
unfolding menu_add_item menu_index_by_id menu_fill_defaults
menu_add_item-fresh cat item room small new =
    let (p, above) = next_menu_id_lem cat small in
    let absent = absent_above _ _ (All-le_max (pos 0) cat.items) (next_menu_id cat) above in
    let e = find_index-of_absent item_id (next_menu_id cat) cat.items absent in
    let z : leb_ℤ item.id (pos 0) ≡ true = ground arith in (ground arith, rw z p, rw z absent)
