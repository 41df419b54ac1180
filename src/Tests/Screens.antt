-- ===== src/Tests/Screens.antt =====
-- What the keys of the screens do.
use system_programming_team.Common.{done}
use system_programming_team.Layout.{TablePlacement, StoreLayout, inside, layout_find_at}
use system_programming_team.Prelude.{
  ◌≡◌, ◌≢◌, ◌⊎◌, ◌↔◌, ℕ, refl, arith, length, none, some, pos, [], ◌∷◌, IsInt, ℤ, inl, inr,
  get_elem?, true,
}
use system_programming_team.Common.{MenuItem}
use system_programming_team.Server.Orders.Machine.Book.{book}
use system_programming_team.Server.{ServerContext}
use system_programming_team.Tests.Carts.{cart-IsValid}
use system_programming_team.Tests.{system, menu, soup, cart, order, serving}
use system_programming_team.Text.{codes}
use system_programming_team.Ui.Kitchen.Updates.{IsBoard, Sends, kitchen_key-Sends}
use system_programming_team.Ui.Kitchen.{kitchen_key}
use system_programming_team.Ui.Pos.Entering.{opened, pays, first_order, pos_key-Enter}
use system_programming_team.Ui.Pos.Moving.{found_at, layout_key-Enter}
use system_programming_team.Ui.Pos.LayoutTab.{layout_key, add_table}
use system_programming_team.Ui.Pos.Tidy.{layout_key-Apart}
use system_programming_team.Ui.Pos.Apart.{Apart}
use system_programming_team.Ui.Pos.Loop.{PosRound, pos_key, first_pos}
use system_programming_team.Ui.Pos.Paying.{Settles, payment_key-Settles}
use system_programming_team.Ui.Pos.{PosUi, payment_key, grid_key}
use system_programming_team.Ui.Rounds.{key_right, key_down, char}
use system_programming_team.Ui.Table.Cancelling.{Cancels, cancel_selected-Cancels}
use system_programming_team.Ui.Table.CartLines.{Keeps, cart_key-Keeps}
use system_programming_team.Ui.Table.Dishes.{menu_key, focus_key, dishes_arrow}
use system_programming_team.Ui.Table.Loop.{first_ui, cart_key, cancel_selected}
use system_programming_team.Ui.Table.Settling.{menu_key-IsChoice}
use system_programming_team.Ui.Table.{TableUi, on_cart, on_status}
use system_programming_team.Ui.Visible.Places.{places, visible_places}
use system_programming_team.Ui.Visible.Selecting.{
  IsChoice, ui_find_selectable_visible_from-IsChoice,
}
use system_programming_team.Ui.Visible.{
  ui_menu_match_category, ui_menu_visible_count, ui_menu_index_at_visible,
  ui_menu_visible_pos_of_index, ui_find_selectable_visible_from,
}

pub order-IsKnown : IsInt (pos 1)
order-IsKnown = record { above = omega arith; below = omega arith }

one_order-IsBoard : IsBoard (order ∷ [])
one_order-IsBoard = record { distinct = (tt, tt); ids = ((omega arith, order-IsKnown), tt) }

kitchen_key-Sends_example :
    ((kitchen_key 5 key_right (order ∷ []) 0 (system [])).1 ≡ system [])
    ⊎ Sends 5 key_right
        (order ∷ [])
        (system [])
        (kitchen_key 5 key_right (order ∷ []) 0 (system [])).1
kitchen_key-Sends_example =
    kitchen_key-Sends 5 key_right (order ∷ []) 0 (system []) one_order-IsBoard

-- A server where the order is done.
abbrev cooked : ServerContext
cooked = record serving { orders = record order { status = done } ∷ [] }

abbrev window : TablePlacement
window = record {
  table_id = pos 4;
  zone = inside;
  row = pos 1;
  col = pos 3;
  label = codes "W4";
  active = pos 1;
}

abbrev window_layout : StoreLayout
window_layout = record { grid_rows = pos 5; grid_cols = pos 7; tables = window ∷ [] }

abbrev paying : PosUi
paying = record (first_pos window_layout) { pay_table = pos 4 }

payment_key-Settles_example :
    (c : ServerContext) × (payment_key (char b'y') [] paying cooked ≡ some (paying, c))
    × ((k : ℤ) → Settles (pos 4) (book cooked k) (book c k))
payment_key-Settles_example =
    payment_key-Settles [] paying cooked (omega arith) (tt, tt) (omega arith)

abbrev at_window : PosUi
at_window = record (first_pos window_layout) { grid_row = 1; grid_col = 3 }

window_found : layout_find_at window_layout (pos 1) (pos 3) ≡ some (0, window)
unfolding layout_find_at
window_found = refl

abbrev enter_round : PosRound
enter_round = record { others = λ c. c; key = char 10; answers = []; stale = window }

pos_key-Enter_example :
    pos_key enter_round at_window cooked
    ≡ some (opened window at_window, pays (first_order (pos 4) cooked.orders) cooked)
pos_key-Enter_example =
    pos_key-Enter enter_round at_window cooked 0 window (inr refl) refl window_found

layout_key-Enter_example :
    (v : PosUi) × (layout_key (char 10) [] window at_window serving ≡ some (v, serving))
    × (v.layout ≡ window_layout)
layout_key-Enter_example = layout_key-Enter (char 10) [] window at_window serving refl

-- The table's screen with dishes in the cart.
abbrev filled : TableUi
filled = record (first_ui (pos 4) (codes "W4") menu) { cart = cart; scr = on_cart; sel = 1 }

cart_key-Keeps_example : Keeps filled (cart_key 5 (char b'r') filled (system [])).0
cart_key-Keeps_example =
    cart_key-Keeps 5 (char b'r') filled (system []) cart-IsValid (inl (omega arith)) (omega arith)

abbrev listed : TableUi
listed = record (first_ui (pos 4) (codes "W4") menu) { mirror = order ∷ []; scr = on_status }

cancel_selected-Cancels_example :
    (((cancel_selected 5 listed (system [])).1 ≡ system [])
      ⊎ Cancels 5 listed (system []) (cancel_selected 5 listed (system [])).1)
    × ((cancel_selected 5 listed (system [])).0.mirror ≡ order ∷ [])
    × ((cancel_selected 5 listed (system [])).0.cart ≡ listed.cart)
cancel_selected-Cancels_example =
    cancel_selected-Cancels 5 listed (system []) ((omega arith, order-IsKnown), tt)

-- The selection is behind the menu.
abbrev lost : TableUi
lost = record (first_ui (pos 4) (codes "W4") menu) { sel = 7 }

soup-IsChoice : IsChoice menu (menu_key 5 key_down lost (system [])).0.current_category 0
unfolding menu_key focus_key dishes_arrow ui_menu_match_category
soup-IsChoice = (soup, refl, refl, refl)

menu_key-IsChoice_example :
    IsChoice menu
      (menu_key 5 key_down lost (system [])).0.current_category
      (menu_key 5 key_down lost (system [])).0.sel
menu_key-IsChoice_example = menu_key-IsChoice 5 key_down lost (system []) 0 soup-IsChoice

visible_places_example :
    (ui_menu_visible_count menu 0 ≡ length (places 0 menu.items 0))
    × ((k : ℕ) → ui_menu_index_at_visible menu 0 (pos k) ≡ get_elem? (places 0 menu.items 0) k)
    × ((i k : ℕ)
        → (ui_menu_visible_pos_of_index menu 0 i ≡ some k)
          ↔ (ui_menu_index_at_visible menu 0 (pos k) ≡ some i))
    × ((i : ℕ) (m : MenuItem)
        → get_elem? menu.items i ≡ some m
        → (ui_menu_match_category m 0 ≡ true)
          ↔ ((k : ℕ) × (ui_menu_visible_pos_of_index menu 0 i ≡ some k)))
visible_places_example = visible_places menu 0

ui_find_selectable_visible_from-IsChoice_example :
    (ui_find_selectable_visible_from menu 0 (pos 0) (pos 1) ≢ none)
    × ((i : ℕ)
        → ui_find_selectable_visible_from menu 0 (pos 0) (pos 1) ≡ some (some i)
        → IsChoice menu 0 i)
ui_find_selectable_visible_from-IsChoice_example =
    ui_find_selectable_visible_from-IsChoice menu 0 (pos 0) (pos 1)

-- The corner of the grid is free.
abbrev at_corner : PosUi
at_corner = first_pos window_layout

abbrev added : PosUi × ServerContext
added = add_table window (found_at at_corner) serving

corner_added : layout_key (char b'a') [] window at_corner serving ≡ some (added.0, added.1)
unfolding layout_key grid_key
corner_added = refl

layout_key-Apart_example : Apart added.0.layout.tables
layout_key-Apart_example =
    layout_key-Apart (char b'a') [] window at_corner added.0 serving added.1 (tt, tt) (omega arith)
      corner_added
