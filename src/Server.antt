-- ===== src/Server.antt =====
-- include/server.h and the shared parts of src/server.c: the server's state, its logs, the table of
-- clients and what is sent to them. A pointer to the context is the context itself, passed on; a
-- critical section is one function. The orders, the handlers, the sessions, the line reader and the
-- start and end of the server are in the children.
pub mod Orders
pub mod Clients
pub mod Handlers
pub mod Session
pub mod Reader
pub mod Lifecycle
use system_programming_team.Common.{
  ClientKind, no_client, table_client, kitchen_client, Order, OrderStatus, paid, cancelled,
  MenuCatalog, CartItem, max_clients, max_proto_line, max_name,
}
use system_programming_team.Menu.{menu_find_by_id}
use system_programming_team.Os.{World, write_all, time}
use system_programming_team.Prelude.{
  ℕ, zero, suc, ◌+◌, ◌==◌, Bool, true, false, ◌&&◌, ◌||◌, not, List, [], ◌∷◌, ◌++◌, Option, none,
  some, Result, ok, err, ltb, if◌then◌else◌, length, Bytes, ℤ, pos, eqb_ℤ, add_int,
}
use system_programming_team.Protocol.{proto_build_order_broadcast}
use system_programming_team.Storage.{
  StoreConfig, storage_append_orders_log, storage_append_sales_log, storage_append_server_log,
  storage_save_config,
}
use system_programming_team.Text.{codes, fit, is_true, show}

abbrev pub menu_path : Bytes
menu_path = codes "data/menu.csv"

abbrev pub config_path : Bytes
config_path = codes "data/tables.conf"

abbrev pub orders_log_path : Bytes
orders_log_path = codes "data/orders.log"

abbrev pub sales_log_path : Bytes
sales_log_path = codes "data/sales.log"

abbrev pub server_log_path : Bytes
server_log_path = codes "data/server.log"

-- The descriptor -1 is none.
pub record ClientSlot : Type 0 where
  pub fd : Option ℕ
  pub in_use : Bool
  pub kind : ClientKind
  pub table_id : ℤ

-- `order_count` is the length of `orders`. `undefined` says that a read out of bounds has happened.
pub record ServerContext : Type 0 where
  pub menu : MenuCatalog
  pub orders : List Order
  pub cfg : StoreConfig
  pub listen_fd : Option ℕ
  pub shutting_down : Bool
  pub orders_revision : ℤ
  pub staff_revision : ℤ
  pub clients : List ClientSlot
  pub accept_thread_started : Bool
  pub last_staff_message : Bytes
  pub last_staff_time : ℤ
  pub staff_call_at : List ℤ
  pub world : World
  pub undefined : Bool

abbrev pub with_world : ServerContext → World → ServerContext
with_world ctx w = record ctx { world = w }

abbrev pub failed {ℓ} : {A : Type ℓ} → Result A → Bool
failed (ok a) = false
failed (err e) = true

unfoldable pub append_orders_meta : Bytes → World → World
unfolding storage_append_orders_log storage_append_server_log
append_orders_meta text w =
    let (r, w1) = storage_append_orders_log orders_log_path text w in
    if failed r
    then (storage_append_server_log server_log_path (codes "orders.log write failed\n") w1).1
    else w1

unfoldable pub append_sales_meta : Bytes → World → World
unfolding storage_append_sales_log storage_append_server_log
append_sales_meta text w =
    let (r, w1) = storage_append_sales_log sales_log_path text w in
    if failed r
    then (storage_append_server_log server_log_path (codes "sales.log write failed\n") w1).1
    else w1

-- The lines with the names and prices of the menu; the first bad line is an error.
unfoldable pub finalize_cart_lines : MenuCatalog → List CartItem → Result (List CartItem)
unfolding menu_find_by_id show
finalize_cart_lines menu [] = ok []
finalize_cart_lines menu (l ∷ ls) =
    let rest = finalize_cart_lines menu ls in
    elim (menu_find_by_id menu l.menu_id) [
      | none ↦ err (codes "unknown menu id " ++ show l.menu_id)
      | some mi ↦ if is_true mi.sold_out then err (codes "sold out: " ++ mi.name) else elim rest [
        | err e ↦ err e
        | ok done ↦ ok (record l { name = fit max_name mi.name; price = mi.price } ∷ done)
      ]
    ]

unfoldable pub server_touch_orders : ServerContext → ServerContext
unfolding add_int
server_touch_orders ctx = record ctx { orders_revision = add_int ctx.orders_revision (pos 1) }

unfoldable pub server_touch_staff : ServerContext → ServerContext
unfolding add_int
server_touch_staff ctx = record ctx { staff_revision = add_int ctx.staff_revision (pos 1) }

-- A slot that is not in use is passed over, and so is what `write_all` returns.
unfoldable pub broadcast_raw : List ClientSlot → Bytes → World → World
unfolding write_all
broadcast_raw [] msg w = w
broadcast_raw (s ∷ slots) msg w =
    broadcast_raw slots msg
      (if s.in_use then elim s.fd [ none ↦ w | some fd ↦ (write_all fd msg w).1 ] else w)

abbrev ends_line : Bytes → Bool
ends_line [] = false
ends_line (c ∷ s) = elim s [ [] ↦ c == b'\n' | _ ∷ _ ↦ ends_line s ]

-- The buffer holds MAX_PROTO_LINE + 4 bytes.
unfoldable pub server_broadcast_line : Bytes → ServerContext → ServerContext
unfolding broadcast_raw
server_broadcast_line line ctx =
    if ltb (max_proto_line + 4) (length line + 2)
    then ctx
    else with_world ctx
        (broadcast_raw ctx.clients (if ends_line line then line else line ++ b'\n' ∷ []) ctx.world)

-- The event of an order as it is sent.
unfoldable pub event_line : Order → Bytes
unfolding proto_build_order_broadcast
event_line o = proto_build_order_broadcast o max_proto_line ++ b'\n' ∷ []

abbrev pub is_closed : OrderStatus → Bool
is_closed paid = true
is_closed cancelled = true
is_closed _ = false

abbrev is_table : ClientKind → Bool
is_table table_client = true
is_table no_client = false
is_table kitchen_client = false

-- Whether a client is told of an order when it comes in.
abbrev pub is_shown : ClientKind → ℤ → Order → Bool
is_shown kind table_id o =
    if is_closed o.status
    then false
    else if is_table kind && not (eqb_ℤ o.table_id table_id)
    then false
    else true

unfoldable pub send_snapshot_locked : List Order → ℕ → ClientKind → ℤ → World → World
unfolding event_line write_all
send_snapshot_locked [] fd kind table_id w = w
send_snapshot_locked (o ∷ os) fd kind table_id w =
    send_snapshot_locked os fd kind table_id
      (if is_shown kind table_id o then (write_all fd (event_line o) w).1 else w)

-- The first free slot is taken; with none free the client is not registered.
unfoldable pub server_register_client : List ClientSlot → ℕ → ClientKind → ℤ → List ClientSlot
server_register_client [] fd kind table_id = []
server_register_client (s ∷ slots) fd kind table_id =
    let later = server_register_client slots fd kind table_id in
    if not s.in_use
    then record { fd = some fd; in_use = true; kind = kind; table_id = table_id } ∷ slots
    else s ∷ later

abbrev pub is_fd : ℕ → Option ℕ → Bool
is_fd fd none = false
is_fd fd (some n) = n == fd

unfoldable pub server_unregister_fd : List ClientSlot → ℕ → List ClientSlot
server_unregister_fd [] fd = []
server_unregister_fd (s ∷ slots) fd =
    let later = server_unregister_fd slots fd in
    if s.in_use && is_fd fd s.fd
    then record { fd = none; in_use = false; kind = no_client; table_id = pos 0 } ∷ slots
    else s ∷ later

-- The message of a failure is not used by the callers.
unfoldable pub server_save_config : ServerContext → ServerContext
unfolding storage_save_config
server_save_config ctx = elim (storage_save_config config_path ctx.cfg ctx.world) [
  | none ↦ record ctx { undefined = true }
  | some (r, w) ↦ with_world ctx w
]

abbrev pub log_time : World → Bytes
log_time w = show (pos (time w).0)
