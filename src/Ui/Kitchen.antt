-- ===== src/Ui/Kitchen.antt =====
-- The kitchen's screen in src/ui.c, without its drawing: the board of orders that it keeps from the
-- server's events, and the updates that its keys send.
pub mod Updates
pub mod UpdateLines
pub mod Mirroring
pub mod Boards
pub mod Serving
use system_programming_team.Common.{
  Order, OrderStatus, waiting, cooking, done, paid, cancelled, status_to_string, max_orders,
  max_proto_line,
}
use system_programming_team.Keyed.{find}
use system_programming_team.Order.{order_key}
use system_programming_team.Os.{World, write_all}
use system_programming_team.Prelude.{
  ℕ, zero, suc, ◌+◌, ◌-◌, ◌%◌, Bool, true, false, ◌&&◌, ◌||◌, not, List, [], ◌∷◌, ◌++◌, Option,
  none, some, Result, ok, err, if◌then◌else◌, length, get_elem?, Bytes, ℤ,
}
use system_programming_team.Protocol.Event.{proto_parse_order_broadcast}
use system_programming_team.Server.Orders.{is_done, is_paid}
use system_programming_team.Server.{is_closed}
use system_programming_team.Text.{codes, fit, show}
use system_programming_team.Ui.Rounds.{
  Key, no_key, key_up, key_down, key_left, key_right, key_enter, key_f, char, is_char, is_quit,
  Round, arrive, begins, or_one,
}
use system_programming_team.Ui.{ui_merge_order_mirror}

-- The orders of the board, the selection, and the queue of the lines that were not read yet.
pub record KitchenUi : Type 0 where
  pub board : List Order
  pub sel : ℕ
  pub queue : List Bytes

-- An event's order goes into the mirror; a line that does not parse changes nothing.
unfoldable pub take_event : Bytes → List Order → List Order
unfolding proto_parse_order_broadcast ui_merge_order_mirror
take_event l board = elim (proto_parse_order_broadcast l) [
  | err e ↦ board
  | ok o ↦ ui_merge_order_mirror board o
]

-- One line of the server; the other messages are only drawn or passed over.
unfoldable pub kitchen_line : Bytes → List Order → List Order
unfolding take_event
kitchen_line l board = if begins (codes "ORDER_EVENT|") l then take_event l board else board

-- The loop over the queue at the start of a round: `ui_net_pop` until there is no line.
unfoldable pub kitchen_drain : List Bytes → List Order → List Order
unfolding kitchen_line
kitchen_drain [] board = board
kitchen_drain (l ∷ q) board = kitchen_drain q (kitchen_line (fit max_proto_line l) board)

-- The loop that waits for OK, on the lines in the queue: whether it came, the board, and the queue.
unfoldable pub kitchen_handshake : List Bytes → List Order → Bool × List Order × List Bytes
unfolding kitchen_line
kitchen_handshake [] board = (false, board, [])
kitchen_handshake (l ∷ q) board =
    if begins (codes "OK|") (fit max_proto_line l)
    then (true, board, q)
    else kitchen_handshake q (kitchen_line (fit max_proto_line l) board)

-- The same with the lines that arrive while it waits, up to the OK; none where OK never comes.
unfoldable pub kitchen_wait : List (List Bytes) → List Bytes → List Order → Option KitchenUi
unfolding kitchen_handshake arrive
kitchen_wait [] queue board =
    let (greeted, b, q) = kitchen_handshake queue board in
    if greeted then some (record { board = b; sel = 0; queue = q }) else none
kitchen_wait (ls ∷ more) queue board =
    let (greeted, b, q) = kitchen_handshake queue board in
    let later = kitchen_wait more (arrive q ls) b in
    if greeted then some (record { board = b; sel = 0; queue = q }) else later

-- The loop of `ui_kitchen_collect_active`, for at most `room` ids.
unfoldable pub active_ids : ℕ → List Order → List ℤ
active_ids room [] = []
active_ids zero (o ∷ os) = []
active_ids (suc room) (o ∷ os) =
    let rest = active_ids room os in
    let skip = active_ids (suc room) os in if is_closed o.status then skip else o.order_id ∷ rest

unfoldable pub ui_kitchen_collect_active : List Order → ℕ → List ℤ
unfolding active_ids
ui_kitchen_collect_active orders max_ids = active_ids max_ids orders

abbrev pub is_cooking : OrderStatus → Bool
is_cooking cooking = true
is_cooking _ = false

-- The state that a key asks for, for an order in a state; none where `buf` stays empty.
unfoldable pub asked_status : Key → OrderStatus → Option OrderStatus
asked_status key_right waiting = some cooking
asked_status key_right cooking = some done
asked_status key_right _ = none
asked_status key_left done = some cooking
asked_status key_left cooking = some waiting
asked_status key_left _ = none
asked_status (char c) st =
    if is_char b'c' (char c) || is_char b'C' (char c)
    then (if not (is_cooking st) then some cooking else none)
    else if is_char b'd' (char c) || is_char b'D' (char c)
    then (if not (is_done st) then some done else none)
    else none
asked_status _ st = none

unfoldable pub update_text : ℤ → OrderStatus → Bytes
unfolding show status_to_string
update_text oid st = fit 128 (
    codes "ORDER_UPDATE|order_id="
    ++ (show oid ++ (codes "|status=" ++ (status_to_string st ++ b'\n' ∷ []))))

-- The part for the order that is selected.
unfoldable pub send_update : ℕ → Key → List Order → ℤ → World → World
unfolding asked_status update_text write_all
send_update sock key board oid w = elim (find order_key oid board) [
  | none ↦ w
  | some o ↦ elim (asked_status key o.status) [
    | none ↦ w
    | some st ↦ (write_all sock (update_text oid st) w).1
  ]
]

-- KEY_UP and KEY_DOWN.
unfoldable pub kitchen_select : Key → ℕ → ℕ → ℕ
kitchen_select key_up nids sel = (sel + nids - 1) % or_one nids
kitchen_select key_down nids sel = (sel + 1) % or_one nids
kitchen_select _ nids sel = sel

-- What a key that does not quit does: the selection and what is sent.
unfoldable pub kitchen_key : ℕ → Key → List Order → ℕ → World → ℕ × World
unfolding ui_kitchen_collect_active kitchen_select send_update
kitchen_key sock key board sel w =
    let ids = ui_kitchen_collect_active board max_orders in
    let sel' = kitchen_select key (length ids) sel in
    (sel', elim (get_elem? ids sel') [ none ↦ w | some oid ↦ send_update sock key board oid w ])

-- The loop over the rounds; it ends with a key that quits.
unfoldable pub kitchen_loop : ℕ → List Round → KitchenUi → World → KitchenUi × World
unfolding arrive kitchen_drain kitchen_key
kitchen_loop sock [] ui w = (ui, w)
kitchen_loop sock (r ∷ rs) ui w =
    let board = kitchen_drain (arrive ui.queue r.arrived) ui.board in
    let (sel, w') = kitchen_key sock r.key board ui.sel w in
    let rest = kitchen_loop sock rs (record { board = board; sel = sel; queue = [] }) w' in
    if is_quit r.key then (record { board = board; sel = ui.sel; queue = [] }, w) else rest

-- The screen with the socket that `ui_tcp_connect` returned, the lines that arrive while it waits
-- for the server's OK, and the rounds behind. The first is none where there is no connection or no
-- OK.
unfoldable pub ui_run_kitchen :
    Option ℕ → List (List Bytes) → List Round → World → Option KitchenUi × World
unfolding write_all kitchen_wait kitchen_loop
ui_run_kitchen none waits rounds w = (none, w)
ui_run_kitchen (some sock) waits rounds w =
    let (sent, w1) = write_all sock (codes "HELLO KITCHEN\n") w in
    elim (kitchen_wait waits [] []) [
      | none ↦ (none, w1)
      | some ui ↦ let (ui', w2) = kitchen_loop sock rounds ui w1 in (some ui', w2)
    ]
