-- ===== src/Ui/Table.antt =====
-- The table's screen in src/ui.c, without its drawing: its state, what it takes from the server's
-- lines, and what its keys do on the menu, in the cart and in the list of the table's orders.
pub mod Dishes
pub mod Settling
pub mod CartLines
pub mod Cancelling
pub mod Loop
use system_programming_team.Common.{
  CartItem, MenuItem, MenuCatalog, Order, max_proto_line, max_name,
}
use system_programming_team.Layout.File.{layout_load}
use system_programming_team.Layout.{StoreLayout, layout_find_by_id}
use system_programming_team.Menu.Files.{menu_load_file}
use system_programming_team.Menu.{menu_init_catalog}
use system_programming_team.Order.{Cart, cart_init, cart_add, cart_set_qty, cart_remove_line}
use system_programming_team.Os.{World, write_all}
use system_programming_team.Prelude.{
  ℕ, zero, suc, ◌+◌, ◌-◌, ◌%◌, ◌==◌, Bool, true, false, ◌&&◌, ◌||◌, not, List, [], ◌∷◌, ◌++◌,
  Option, none, some, Result, ok, err, ltb, leb, if◌then◌else◌, length, get_elem?, Bytes, ℤ, pos,
  negsuc, add_int, sub_ℕ, eqb_ℤ,
}
use system_programming_team.Server.{menu_path}
use system_programming_team.Text.{codes, fit, show, is_true}
use system_programming_team.Ui.Kitchen.{take_event}
use system_programming_team.Ui.Rounds.{
  Key, no_key, key_up, key_down, key_left, key_right, key_enter, key_f, char, is_char, is_quit,
  Round, arrive, begins, or_one,
}
use system_programming_team.Ui.Visible.{
  sidebar_all, sidebar_drink, ui_menu_is_selectable, ui_menu_match_category, ui_menu_visible_count,
  ui_menu_visible_pos_of_index, ui_menu_first_selectable_in_category,
  ui_find_selectable_visible_from,
}
use system_programming_team.Ui.{ui_apply_menu_response, ui_submit_cart_order, is_cancelled}

pub data TableScreen : Type 0 where
  on_menu on_cart on_status : TableScreen

pub data TableFocus : Type 0 where
  focus_menu focus_sidebar : TableFocus

-- The variables of `ui_run_table` and the two static ones that its loop sets. The selection is never
-- negative. `undefined` says that a line behind the last one of the cart was read.
pub record TableUi : Type 0 where
  pub table_id : ℤ
  pub table_name : Bytes
  pub cat : MenuCatalog
  pub mirror : List Order
  pub cart : Cart
  pub scr : TableScreen
  pub focus : TableFocus
  pub sidebar_sel : ℕ
  pub current_category : ℕ
  pub sel : ℕ
  pub banner : Bytes
  pub table_confirm_popup : Bool
  pub table_call_popup_ticks : ℕ
  pub queue : List Bytes
  pub undefined : Bool

abbrev pub banner_size : ℕ
banner_size = 160

unfoldable pub ui_copy_banner : ℕ → Bytes → Bytes
ui_copy_banner dstsz src = fit dstsz src

-- `strnlen`, `memcpy`, and `strncpy` into what is left.
unfoldable pub ui_prefix_banner : ℕ → Bytes → Bytes → Bytes
ui_prefix_banner dstsz prefix src =
    let head = fit dstsz prefix in head ++ fit (dstsz - length head) src

abbrev pub with_banner : Bytes → TableUi → TableUi
with_banner text ui = record ui { banner = fit banner_size text }

-- A line that comes while the screen waits for OK.
unfoldable pub greeting_line : Bytes → TableUi → TableUi
unfolding ui_apply_menu_response take_event ui_copy_banner
greeting_line l ui =
    if begins (codes "MENU_RESPONSE|") l
    then record ui { cat = ui_apply_menu_response ui.cat l }
    else if begins (codes "ORDER_EVENT|") l
    then record ui { mirror = take_event l ui.mirror }
    else if begins (codes "STAFF_CALL|") l
    then record ui { banner = ui_copy_banner banner_size l }
    else ui

-- A line that comes in the main loop; MENU_SYNC is answered with a request.
unfoldable pub table_line : ℕ → Bytes → TableUi → World → TableUi × World
unfolding ui_apply_menu_response take_event ui_copy_banner ui_prefix_banner write_all
table_line sock l ui w =
    if begins (codes "MENU_RESPONSE|") l
    then (with_banner (codes "메뉴 동기화 완료") (record ui { cat = ui_apply_menu_response ui.cat l }), w)
    else if begins (codes "ORDER_EVENT|") l
    then (record ui { mirror = take_event l ui.mirror }, w)
    else if begins (codes "MENU_SYNC") l
    then (ui, (write_all sock (codes "MENU_REQUEST\n") w).1)
    else if begins (codes "STAFF_CALL|") l
    then (record ui { banner = ui_copy_banner banner_size l }, w)
    else if begins (codes "ORDER_CREATED|") l
    then (record ui { banner = ui_prefix_banner banner_size (codes "서버:") l }, w)
    else if begins (codes "ERROR|") l
    then (record ui { banner = ui_copy_banner banner_size l }, w)
    else (ui, w)

-- The loop over the queue at the start of a round.
unfoldable pub table_drain : ℕ → List Bytes → TableUi → World → TableUi × World
unfolding table_line
table_drain sock [] ui w = (ui, w)
table_drain sock (l ∷ q) ui w =
    let (ui', w') = table_line sock (fit max_proto_line l) ui w in table_drain sock q ui' w'

abbrev pub is_of_table : ℤ → Order → Bool
is_of_table table_id o = eqb_ℤ o.table_id table_id && not (is_cancelled o.status)

-- The loop of `ui_table_count_orders`.
unfoldable pub count_orders : ℤ → List Order → ℕ → ℕ
count_orders table_id [] n = n
count_orders table_id (o ∷ os) n =
    count_orders table_id os (if is_of_table table_id o then suc n else n)

unfoldable pub ui_table_count_orders : List Order → ℤ → ℕ
unfolding count_orders
ui_table_count_orders orders table_id = count_orders table_id orders 0

-- The loop of `ui_table_get_nth_order`, `n` orders of the table being in front.
unfoldable pub nth_order : ℤ → ℕ → List Order → ℕ → Option Order
nth_order table_id nth [] n = none
nth_order table_id nth (o ∷ os) n =
    let skip = nth_order table_id nth os n in
    let next = nth_order table_id nth os (suc n) in
    if not (eqb_ℤ o.table_id table_id) || is_cancelled o.status
    then skip
    else if n == nth
    then some o
    else next

unfoldable pub ui_table_get_nth_order : List Order → ℤ → ℕ → Option Order
unfolding nth_order
ui_table_get_nth_order orders table_id nth = nth_order table_id nth orders 0

-- `if (sel >= n) sel = n - 1; if (sel < 0) sel = 0;`
abbrev pub clamp : ℕ → ℕ → ℕ
clamp n sel = if leb n sel then n - 1 else sel

-- What the drawing part of a round sets.
unfoldable pub before_key : TableUi → TableUi
unfolding ui_table_count_orders
before_key ui =
    let clamped = clamp (ui_table_count_orders ui.mirror ui.table_id) ui.sel in
    record ui {
      sel = elim ui.scr [ on_menu ↦ ui.sel | on_cart ↦ ui.sel | on_status ↦ clamped ];
      table_call_popup_ticks = ui.table_call_popup_ticks - 1;
    }
