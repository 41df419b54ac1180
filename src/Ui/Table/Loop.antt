-- ===== src/Ui/Table/Loop.antt =====
-- The keys of the table's screen in the cart and in the list of orders, and its loop.
use system_programming_team.Common.{MenuCatalog, max_proto_line}
use system_programming_team.Layout.File.{layout_load}
use system_programming_team.Layout.{StoreLayout, layout_find_by_id}
use system_programming_team.Menu.Files.{menu_load_file}
use system_programming_team.Menu.{menu_init_catalog}
use system_programming_team.Order.{Cart, cart_init, cart_set_qty, cart_remove_line}
use system_programming_team.Os.{World, write_all}
use system_programming_team.Prelude.{
  ℕ, suc, ◌+◌, ◌-◌, ◌%◌, Bool, true, false, ◌&&◌, ◌||◌, not, List, [], ◌∷◌, ◌++◌, Option, none,
  some, Result, ok, err, leb, if◌then◌else◌, length, get_elem?, Bytes, ℤ, pos, negsuc, add_int,
}
use system_programming_team.Server.{menu_path}
use system_programming_team.Text.{codes, fit, show}
use system_programming_team.Ui.Rounds.{
  Key, no_key, key_up, key_down, key_enter, is_char, is_quit, Round, arrive, begins, or_one,
}
use system_programming_team.Ui.Visible.{sidebar_all}
use system_programming_team.Ui.{ui_submit_cart_order}
use system_programming_team.Ui.Table.{
  TableUi, focus_menu, on_menu, on_cart, on_status, with_banner, greeting_line, table_drain,
  ui_table_count_orders, ui_table_get_nth_order, clamp, before_key, banner_size,
}
use system_programming_team.Ui.Table.Dishes.{menu_key, or_cart}
use system_programming_team.Server.Orders.{is_waiting}
use system_programming_team.Text.{show_nat}
use system_programming_team.Prelude.{replicate}

-- `ch == '\n' || ch == '\r' || ch == KEY_ENTER || ch == 'z'`
abbrev pub is_order_key : Key → Bool
is_order_key key_enter = true
is_order_key k = is_char b'\n' k || (is_char b'\r' k || is_char b'z' k)

-- The cart's screen while it asks whether to order.
unfoldable pub popup_key : ℕ → Key → TableUi → World → TableUi × World
unfolding ui_submit_cart_order
popup_key sock key ui w =
    if is_char b'y' key || is_char b'Y' key
    then (let (sent, banner, cart, w') =
          ui_submit_cart_order sock ui.table_id ui.cart banner_size w in
        (
          record ui {
            cart = cart;
            banner = banner;
            table_confirm_popup = false;
            scr = if sent then on_status else ui.scr;
            sel = if sent then 0 else ui.sel;
          },
          w',
        ))
    else if is_char b'n' key || (is_char b'N' key || is_char 27 key)
    then (with_banner (codes "주문이 취소되었습니다") (record ui { table_confirm_popup = false }), w)
    else (ui, w)

-- The change of the selected line's quantity; with no such line, one behind the last is read.
unfoldable pub change_qty : ℤ → TableUi → TableUi
unfolding cart_set_qty add_int
change_qty by ui = elim (get_elem? ui.cart.items ui.sel) [
  | none ↦ record ui { undefined = true }
  | some l ↦ record ui {
    cart = or_cart (cart_set_qty ui.cart l.menu_id (add_int l.qty by)) ui.cart;
  }
]

abbrev pub or_same : Option Cart → Cart → Cart
or_same none old = old
or_same (some c) old = c

unfoldable pub remove_line : TableUi → TableUi
unfolding cart_remove_line
remove_line ui = elim (get_elem? ui.cart.items ui.sel) [
  | none ↦ record ui { undefined = true }
  | some l ↦ record ui { cart = or_same (cart_remove_line ui.cart l.menu_id) ui.cart }
]

abbrev pub clamped : TableUi → TableUi
clamped ui = record ui { sel = clamp (length ui.cart.items) ui.sel }

-- KEY_UP and KEY_DOWN over `lines` entries.
unfoldable pub line_arrow : Key → ℕ → ℕ → ℕ
line_arrow key_up lines sel = if leb lines 0 then sel else (sel + lines - 1) % or_one lines
line_arrow key_down lines sel = if leb lines 0 then sel else (sel + 1) % or_one lines
line_arrow _ lines sel = sel

-- A key on the cart's screen while it asks nothing. The tests of the code exclude each other.
unfoldable pub lines_key : Key → TableUi → TableUi
unfolding change_qty remove_line line_arrow
lines_key key ui =
    let lines = length ui.cart.items in
    if (is_char b'+' key || is_char b'=' key) && not (leb lines 0)
    then change_qty (pos 1) ui
    else if is_char b'-' key && not (leb lines 0)
    then clamped (change_qty (negsuc 0) ui)
    else if is_char b'r' key && not (leb lines 0)
    then clamped (remove_line ui)
    else if is_char b'm' key
    then record ui { scr = on_menu; sel = 0; table_confirm_popup = false }
    else if is_order_key key
    then (if leb lines 0
        then with_banner (codes "장바구니가 비어 있습니다") ui
        else record ui { table_confirm_popup = true })
    else record ui { sel = line_arrow key lines ui.sel }

unfoldable pub cart_key : ℕ → Key → TableUi → World → TableUi × World
unfolding popup_key lines_key
cart_key sock key ui w =
    if ui.table_confirm_popup then popup_key sock key ui w else (lines_key key ui, w)

-- `%04d`
abbrev pub show_04 : ℤ → Bytes
show_04 (pos n) = let s = show_nat n in replicate (4 - length s) 48 ++ s
show_04 (negsuc n) = let s = show_nat (suc n) in b'-' ∷ replicate (3 - length s) 48 ++ s

unfoldable pub cancel_text : ℤ → Bytes
unfolding show
cancel_text order_id = fit 128 (codes "ORDER_CANCEL|order_id=" ++ (show order_id ++ b'\n' ∷ []))

-- The key c in the list of orders.
unfoldable pub cancel_selected : ℕ → TableUi → World → TableUi × World
unfolding ui_table_get_nth_order cancel_text write_all show_nat
cancel_selected sock ui w = elim (ui_table_get_nth_order ui.mirror ui.table_id ui.sel) [
  | none ↦ (with_banner (codes "취소할 주문이 없습니다") ui, w)
  | some o ↦
      if not (is_waiting o.status)
      then (with_banner (codes "조리 시작 후에는 주문을 취소할 수 없습니다") ui, w)
      else (
        with_banner (codes "주문 #" ++ (show_04 o.order_id ++ codes " 취소 요청을 보냈습니다")) ui,
        (write_all sock (cancel_text o.order_id) w).1,
      )
]

unfoldable pub status_key : ℕ → Key → TableUi → World → TableUi × World
unfolding ui_table_count_orders cancel_selected line_arrow
status_key sock key ui w =
    let lines = ui_table_count_orders ui.mirror ui.table_id in
    if is_char b'c' key || is_char b'C' key
    then cancel_selected sock ui w
    else if is_char b'm' key
    then (record ui { scr = on_menu; focus = focus_menu }, w)
    else (record ui { sel = line_arrow key lines ui.sel }, w)

-- A key that does not quit.
unfoldable pub table_key : ℕ → Key → TableUi → World → TableUi × World
unfolding menu_key cart_key status_key
table_key sock no_key ui w = (ui, w)
table_key sock key ui w = elim ui.scr [
  | on_menu ↦ menu_key sock key ui w
  | on_cart ↦ cart_key sock key ui w
  | on_status ↦ status_key sock key ui w
]

-- The loop over the rounds; it ends with a key that quits.
unfoldable pub table_loop : ℕ → List Round → TableUi → World → TableUi × World
unfolding arrive table_drain before_key table_key
table_loop sock [] ui w = (ui, w)
table_loop sock (r ∷ rs) ui w =
    let (drained, w1) = table_drain sock (arrive ui.queue r.arrived) (record ui { queue = [] }) w in
    let ready = before_key drained in
    let (ui', w2) = table_key sock r.key ready w1 in
    let rest = table_loop sock rs ui' w2 in if is_quit r.key then (ready, w1) else rest

-- The loop that waits for OK, on the lines in the queue; whether it came.
unfoldable pub table_handshake : List Bytes → TableUi → Bool × TableUi
unfolding greeting_line
table_handshake [] ui = (false, record ui { queue = [] })
table_handshake (l ∷ q) ui =
    if begins (codes "OK|") (fit max_proto_line l)
    then (true, record ui { queue = q })
    else table_handshake q (greeting_line (fit max_proto_line l) ui)

-- The same with the lines that arrive while it waits, up to the OK; none where OK never comes.
unfoldable pub table_wait : List (List Bytes) → TableUi → Option TableUi
unfolding table_handshake arrive
table_wait [] ui =
    let (greeted, u) = table_handshake ui.queue ui in if greeted then some u else none
table_wait (ls ∷ more) ui =
    let (greeted, u) = table_handshake ui.queue ui in
    let later = table_wait more (record u { queue = arrive u.queue ls }) in
    if greeted then some u else later

-- The name that is drawn: the label of the table's placement, if the layout has one.
unfoldable pub table_name_of : ℤ → Option (Result StoreLayout) → Bytes
unfolding show layout_find_by_id
table_name_of table_id none = []
table_name_of table_id (some (err e)) = fit 64 (b'T' ∷ show table_id)
table_name_of table_id (some (ok lay)) = elim (layout_find_by_id lay table_id) [
  | none ↦ fit 64 (b'T' ∷ show table_id)
  | some (i, tp) ↦ elim tp.label [ [] ↦ fit 64 (b'T' ∷ show table_id) | c ∷ s ↦ fit 64 (c ∷ s) ]
]

abbrev pub layout_path : Bytes
layout_path = codes "data/layout.conf"

abbrev pub first_ui : ℤ → Bytes → MenuCatalog → TableUi
first_ui table_id name cat = record {
  table_id = table_id;
  table_name = name;
  cat = cat;
  mirror = [];
  cart = cart_init;
  scr = on_menu;
  focus = focus_menu;
  sidebar_sel = sidebar_all;
  current_category = sidebar_all;
  sel = 0;
  banner = [];
  table_confirm_popup = false;
  table_call_popup_ticks = 0;
  queue = [];
  undefined = false;
}

abbrev menu_or_empty : Option (Result MenuCatalog) → MenuCatalog
menu_or_empty (some (ok cat)) = cat
menu_or_empty _ = menu_init_catalog

-- The part behind the connection. The fuel is for the loading of the menu.
unfoldable pub table_session :
    ℕ → ℕ → ℤ → Bytes → List (List Bytes) → List Round → World → Option TableUi × World
unfolding menu_load_file table_wait table_loop write_all show menu_init_catalog cart_init
table_session fuel sock table_id name waits rounds w =
    let (sent, w1) =
      write_all sock (fit 64 (codes "HELLO TABLE " ++ (show table_id ++ b'\n' ∷ []))) w in
    let (menu, w2) = menu_load_file fuel menu_path w1 in
    elim (table_wait waits (first_ui table_id name (menu_or_empty menu))) [
      | none ↦ (none, w2)
      | some ui ↦
          let (asked, w3) = write_all sock (codes "MENU_REQUEST\n") w2 in
          let (ui', w4) = table_loop sock rounds ui w3 in (some ui', w4)
    ]

-- The screen of a table, with the socket that `ui_tcp_connect` returned, the lines that arrive while
-- it waits for OK, and the rounds behind. The first is none where there is no connection or no OK.
unfoldable pub ui_run_table :
    ℕ → Option ℕ → ℤ → List (List Bytes) → List Round → World → Option TableUi × World
unfolding layout_load table_name_of table_session
ui_run_table fuel sock table_id waits rounds w =
    let (lay, w1) = layout_load layout_path w in
    elim sock [
      | none ↦ (none, w1)
      | some fd ↦ table_session fuel fd table_id (table_name_of table_id lay) waits rounds w1
    ]
