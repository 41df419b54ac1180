-- ===== src/Ui/Visible.antt =====
-- The functions of src/ui.c that find dishes in the menu: whether a dish is in a category of the
-- table's screen, and the places of the dishes among those that are shown. The index -1 is none.
pub mod Places
pub mod Selecting
pub mod Passing
use system_programming_team.Common.{MenuItem, MenuCatalog, max_category}
use system_programming_team.Prelude.{
  ℕ, zero, suc, ◌+◌, ◌==◌, Bool, true, false, ◌&&◌, ◌||◌, not, List, [], ◌∷◌, ◌++◌, Option, none,
  some, ltb, leb, if◌then◌else◌, length, get_elem?, Bytes, bytes_eq, ℤ, pos, negsuc, ◌+ℤ◌, eqb_ℤ,
  leb_ℤ,
}
use system_programming_team.Text.{codes, fit, is_true}

abbrev pub sidebar_all : ℕ
sidebar_all = 0

abbrev pub sidebar_popular : ℕ
sidebar_popular = 1

abbrev pub sidebar_meal : ℕ
sidebar_meal = 2

abbrev pub sidebar_meat : ℕ
sidebar_meat = 3

abbrev pub sidebar_alcohol : ℕ
sidebar_alcohol = 4

abbrev pub sidebar_drink : ℕ
sidebar_drink = 5

-- An entry of an array, none for an index that is out of range.
abbrev pub at_index {ℓ} : {A : Type ℓ} → List A → ℤ → Option A
at_index xs (pos i) = get_elem? xs i
at_index xs (negsuc i) = none

unfoldable pub ui_menu_is_selectable : MenuCatalog → ℤ → Bool
ui_menu_is_selectable cat idx = elim (at_index cat.items idx) [
  | none ↦ false
  | some m ↦ not (is_true m.sold_out)
]

abbrev is_blank : ℕ → Bool
is_blank c = (c == 32) || (c == 9)

-- A text without the spaces and line ends behind it.
unfoldable pub trim_end : Bytes → Bytes
trim_end [] = []
trim_end (c ∷ s) = elim (trim_end s) [
  | [] ↦ if is_blank c || ((c == b'\r') || (c == b'\n')) then [] else c ∷ []
  | d ∷ t ↦ c ∷ d ∷ t
]

unfoldable pub trim_start : Bytes → Bytes
trim_start [] = []
trim_start (c ∷ s) = let rest = trim_start s in if is_blank c then rest else c ∷ s

unfoldable pub ui_trim_field : Bytes → Bytes
unfolding trim_end trim_start
ui_trim_field s = trim_start (trim_end s)

unfoldable pub ui_category_value_from_sidebar : ℕ → Bytes
ui_category_value_from_sidebar sidebar_category =
    if sidebar_category == sidebar_meal
    then codes "식사류"
    else if sidebar_category == sidebar_meat
    then codes "고기류"
    else if sidebar_category == sidebar_alcohol
    then codes "주류"
    else if sidebar_category == sidebar_drink
    then codes "음료"
    else []

abbrev matches : Bytes → Bytes → Bool
matches saved [] = true
matches saved (c ∷ s) = bytes_eq saved (c ∷ s)

unfoldable pub ui_menu_match_category : MenuItem → ℕ → Bool
unfolding ui_category_value_from_sidebar ui_trim_field
ui_menu_match_category m current_category =
    if current_category == sidebar_all
    then true
    else if current_category == sidebar_popular
    then is_true m.popular
    else matches (ui_trim_field (fit max_category m.category))
        (ui_trim_field (fit max_category (ui_category_value_from_sidebar current_category)))

-- The loop of `ui_menu_visible_count`.
unfoldable pub count_visible : ℕ → List MenuItem → ℕ → ℕ
unfolding ui_menu_match_category
count_visible category [] n = n
count_visible category (m ∷ ms) n =
    count_visible category ms (if ui_menu_match_category m category then suc n else n)

unfoldable pub ui_menu_visible_count : MenuCatalog → ℕ → ℕ
unfolding count_visible
ui_menu_visible_count cat current_category = count_visible current_category cat.items 0

-- The loop of `ui_menu_index_at_visible`, from the entry `i` with `shown` dishes in front.
unfoldable pub index_at : ℕ → ℤ → List MenuItem → ℕ → ℕ → Option ℕ
unfolding ui_menu_match_category
index_at category visible_index [] i shown = none
index_at category visible_index (m ∷ ms) i shown =
    let skip = index_at category visible_index ms (suc i) shown in
    let next = index_at category visible_index ms (suc i) (suc shown) in
    if not (ui_menu_match_category m category)
    then skip
    else if eqb_ℤ (pos shown) visible_index
    then some i
    else next

unfoldable pub ui_menu_index_at_visible : MenuCatalog → ℕ → ℤ → Option ℕ
unfolding index_at
ui_menu_index_at_visible cat current_category visible_index =
    index_at current_category visible_index cat.items 0 0

-- The loop of `ui_menu_visible_pos_of_index`.
unfoldable pub visible_pos : ℕ → ℕ → List MenuItem → ℕ → ℕ → Option ℕ
unfolding ui_menu_match_category
visible_pos category real_index [] i shown = none
visible_pos category real_index (m ∷ ms) i shown =
    let skip = visible_pos category real_index ms (suc i) shown in
    let next = visible_pos category real_index ms (suc i) (suc shown) in
    if not (ui_menu_match_category m category)
    then skip
    else if i == real_index
    then some shown
    else next

-- The selection that the callers pass is never negative.
unfoldable pub ui_menu_visible_pos_of_index : MenuCatalog → ℕ → ℕ → Option ℕ
unfolding visible_pos
ui_menu_visible_pos_of_index cat current_category real_index =
    if leb (length cat.items) real_index
    then none
    else visible_pos current_category real_index cat.items 0 0

-- The loop of `ui_menu_first_selectable_in_category`, from the entry `i`.
unfoldable pub first_selectable : MenuCatalog → ℕ → List MenuItem → ℕ → Option ℕ
unfolding ui_menu_match_category ui_menu_is_selectable
first_selectable cat category [] i = none
first_selectable cat category (m ∷ ms) i =
    let later = first_selectable cat category ms (suc i) in
    if not (ui_menu_match_category m category)
    then later
    else if ui_menu_is_selectable cat (pos i)
    then some i
    else later

unfoldable pub ui_menu_first_selectable_in_category : MenuCatalog → ℕ → Option ℕ
unfolding first_selectable
ui_menu_first_selectable_in_category cat current_category =
    first_selectable cat current_category cat.items 0

-- `v >= 0 && v < n`
abbrev pub in_bounds : ℕ → ℤ → Bool
in_bounds n (pos v) = ltb v n
in_bounds n (negsuc v) = false

-- `real_idx >= 0 && ui_menu_is_selectable (cat, real_idx)`, with the index itself.
abbrev pub selectable_at : MenuCatalog → Option ℕ → Option ℕ
selectable_at cat none = none
selectable_at cat (some i) = if ui_menu_is_selectable cat (pos i) then some i else none

-- The loop of `ui_find_selectable_visible_from`; none where the fuel runs out, and else what is
-- returned.
unfoldable pub selectable_loop : ℕ → MenuCatalog → ℕ → ℤ → ℤ → Option (Option ℕ)
unfolding ui_menu_index_at_visible ui_menu_is_selectable ui_menu_visible_count ◌+ℤ◌
selectable_loop zero cat category v step =
    if in_bounds (ui_menu_visible_count cat category) v then none else some none
selectable_loop (suc fuel) cat category v step =
    let next = selectable_loop fuel cat category (v +ℤ step) step in
    if in_bounds (ui_menu_visible_count cat category) v
    then elim (selectable_at cat (ui_menu_index_at_visible cat category v)) [
      | some i ↦ some (some i)
      | none ↦ next
    ]
    else some none

abbrev is_zero : ℤ → Bool
is_zero a = eqb_ℤ a (pos 0)

-- Each round but the last is at another place among the visible dishes, so their number is enough
-- fuel.
unfoldable pub ui_find_selectable_visible_from : MenuCatalog → ℕ → ℤ → ℤ → Option (Option ℕ)
unfolding selectable_loop
ui_find_selectable_visible_from cat current_category visible_start visible_step =
    let n = ui_menu_visible_count cat current_category in
    if leb n 0 || is_zero visible_step
    then some none
    else selectable_loop n cat current_category visible_start visible_step
