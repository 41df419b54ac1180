-- ===== src/Ui/Table/Dishes.antt =====
-- The keys of the table's screen on the menu.
use system_programming_team.Common.{CartItem, MenuItem, MenuCatalog, max_name}
use system_programming_team.Order.{Cart, cart_add}
use system_programming_team.Os.{World, write_all}
use system_programming_team.Prelude.{
  ℕ, ◌+◌, ◌-◌, ◌%◌, ◌==◌, Bool, false, ◌&&◌, ◌||◌, not, List, [], ◌∷◌, ◌++◌, Option, none, some,
  Result, ok, err, ltb, leb, if◌then◌else◌, length, get_elem?, Bytes, ℤ, pos, negsuc, sub_ℕ,
}
use system_programming_team.Text.{codes, fit, show, is_true}
use system_programming_team.Ui.Rounds.{Key, key_up, key_down, key_left, key_right, is_char}
use system_programming_team.Ui.Visible.{
  sidebar_drink, ui_menu_is_selectable, ui_menu_match_category, ui_menu_visible_count,
  ui_menu_visible_pos_of_index, ui_menu_first_selectable_in_category,
  ui_find_selectable_visible_from,
}
use system_programming_team.Ui.Table.{
  TableUi, focus_menu, focus_sidebar, on_cart, on_status, with_banner,
}

abbrev sidebar_cart : ℕ
sidebar_cart = 6

abbrev sidebar_order : ℕ
sidebar_order = 7

abbrev sidebar_call : ℕ
sidebar_call = 8

abbrev sidebar_count : ℕ
sidebar_count = 9

-- `x < 0 ? 0 : x`
abbrev pub or_zero : Option ℕ → ℕ
or_zero none = 0
or_zero (some n) = n

-- `if (next >= 0) sel = next`, with what a search returns.
abbrev pub moved : Option (Option ℕ) → ℕ → ℕ
moved none sel = sel
moved (some none) sel = sel
moved (some (some next)) sel = next

unfoldable pub visible_sel : TableUi → ℕ
unfolding ui_menu_visible_pos_of_index
visible_sel ui = or_zero (ui_menu_visible_pos_of_index ui.cat ui.current_category ui.sel)

-- The move by a search from `start` in steps of `step`.
unfoldable pub search_from : ℤ → ℤ → TableUi → TableUi
unfolding ui_find_selectable_visible_from
search_from start step ui = record ui {
  sel = moved (ui_find_selectable_visible_from ui.cat ui.current_category start step) ui.sel;
}

-- The arrow keys on the menu, with the focus on the dishes, three in a row.
unfoldable pub dishes_arrow : Key → TableUi → TableUi
unfolding visible_sel search_from
dishes_arrow key_left ui =
    if visible_sel ui % 3 == 0
    then record ui { focus = focus_sidebar; sidebar_sel = ui.current_category }
    else search_from (sub_ℕ (visible_sel ui) 1) (negsuc 0) ui
dishes_arrow key_right ui = search_from (pos (visible_sel ui + 1)) (pos 1) ui
dishes_arrow key_up ui = search_from (sub_ℕ (visible_sel ui) 3) (negsuc 2) ui
dishes_arrow key_down ui = search_from (pos (visible_sel ui + 3)) (pos 3) ui
dishes_arrow _ ui = ui

-- The arrow keys on the menu, with the focus on the sidebar.
unfoldable pub sidebar_arrow : Key → TableUi → TableUi
sidebar_arrow key_right ui = record ui { focus = focus_menu }
sidebar_arrow key_up ui = record ui { sidebar_sel = ui.sidebar_sel - 1 }
sidebar_arrow key_down ui = record ui {
  sidebar_sel =
      if ltb (ui.sidebar_sel + 1) sidebar_count then ui.sidebar_sel + 1 else ui.sidebar_sel;
}
sidebar_arrow _ ui = ui

abbrev pub category_names : List Bytes
category_names =
    codes "전체 메뉴" ∷ codes "인기 메뉴" ∷ codes "식사류" ∷ codes "고기류" ∷ codes "주류" ∷ codes "음료" ∷ []

abbrev pub name_at : List Bytes → ℕ → Bytes
name_at names i = elim (get_elem? names i) [ none ↦ [] | some s ↦ s ]

-- The space key with the focus on the sidebar.
unfoldable pub sidebar_space : ℕ → TableUi → World → TableUi × World
unfolding ui_menu_first_selectable_in_category write_all show
sidebar_space sock ui w =
    if leb ui.sidebar_sel sidebar_drink
    then (
      with_banner (name_at category_names ui.sidebar_sel ++ codes " 선택됨") (record ui {
        current_category = ui.sidebar_sel;
        sel = or_zero (ui_menu_first_selectable_in_category ui.cat ui.sidebar_sel);
        focus = focus_menu;
      }),
      w,
    )
    else if ui.sidebar_sel == sidebar_cart
    then (record ui { scr = on_cart; sel = 0 }, w)
    else if ui.sidebar_sel == sidebar_order
    then (record ui { scr = on_status; sel = 0 }, w)
    else if ui.sidebar_sel == sidebar_call
    then (
      with_banner (codes "직원 호출을 보냈습니다. 잠시만 기다려주세요.") (record ui { table_call_popup_ticks = 24 }),
      (write_all sock (fit 80 (codes "CALL_STAFF|table=" ++ (show ui.table_id ++ b'\n' ∷ []))) w).1,
    )
    else (ui, w)

-- One dish for the cart.
abbrev pub one_dish : MenuItem → CartItem
one_dish m = record { menu_id = m.id; name = fit max_name m.name; price = m.price; qty = pos 1 }

-- A cart's operation whose failure is not looked at.
abbrev pub or_cart : Result Cart → Cart → Cart
or_cart (ok c) old = c
or_cart (err e) old = old

-- The space key with the focus on the dishes.
unfoldable pub dishes_space : TableUi → TableUi
unfolding cart_add
dishes_space ui = elim (get_elem? ui.cat.items ui.sel) [
  | none ↦ ui
  | some m ↦
      if not (is_true m.sold_out)
      then with_banner (m.name ++ codes " 담기 완료")
          (record ui { cart = or_cart (cart_add ui.cart (one_dish m)) ui.cart })
      else with_banner (codes "품절 메뉴입니다") ui
]

-- `sel >= 0 && sel < mc && !ui_menu_is_selectable (cat, sel)`: the next dish that can be selected,
-- else the one in front.
unfoldable pub step_aside : MenuCatalog → ℕ → ℕ → ℕ
unfolding ui_menu_is_selectable ui_menu_visible_pos_of_index ui_find_selectable_visible_from
step_aside cat category sel =
    if ltb sel (length cat.items) && not (ui_menu_is_selectable cat (pos sel))
    then elim (ui_menu_visible_pos_of_index cat category sel) [
      | none ↦ sel
      | some v ↦ elim (ui_find_selectable_visible_from cat category (pos (v + 1)) (pos 1)) [
        | some (some next) ↦ next
        | some none ↦
            moved (ui_find_selectable_visible_from cat category (sub_ℕ v 1) (negsuc 0)) sel
        | none ↦ sel
      ]
    ]
    else sel

abbrev pub is_in_category : MenuCatalog → ℕ → ℕ → Bool
is_in_category cat category sel = elim (get_elem? cat.items sel) [
  | none ↦ false
  | some m ↦ ui_menu_match_category m category
]

-- What follows every key on the menu: the selection is brought to a dish of the category.
unfoldable pub settle : MenuCatalog → ℕ → ℕ → ℕ
unfolding ui_menu_visible_count ui_menu_match_category ui_menu_first_selectable_in_category
    step_aside
settle cat category sel =
    let first = or_zero (ui_menu_first_selectable_in_category cat category) in
    if leb (length cat.items) 0 || leb (ui_menu_visible_count cat category) 0
    then 0
    else step_aside cat category (if is_in_category cat category sel then sel else first)

-- A key on the menu.
unfoldable pub focus_key : ℕ → Key → TableUi → World → TableUi × World
unfolding dishes_arrow sidebar_arrow sidebar_space dishes_space
focus_key sock key ui w = elim ui.focus [
  | focus_sidebar ↦ if is_char 32 key then sidebar_space sock ui w else (sidebar_arrow key ui, w)
  | focus_menu ↦ (if is_char 32 key then dishes_space ui else dishes_arrow key ui, w)
]

-- A key on the menu, and what follows.
unfoldable pub menu_key : ℕ → Key → TableUi → World → TableUi × World
unfolding focus_key settle
menu_key sock key ui w =
    let (ui', w') = focus_key sock key ui w in
    (record ui' { sel = settle ui'.cat ui'.current_category ui'.sel }, w')
