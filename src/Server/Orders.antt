-- ===== src/Server/Orders.antt =====
-- The operations on orders of src/server.c, each one critical section.
pub mod Machine
use system_programming_team.Common.{
  Order, OrderStatus, waiting, cooking, done, paid, cancelled, max_orders, max_proto_line,
  status_to_string, OrderLineItem,
}
use system_programming_team.Order.{Cart, orders_find_index, orders_find, order_build_from_cart}
use system_programming_team.Os.{World, time}
use system_programming_team.Prelude.{
  ℕ, ◌+◌, Bool, true, false, ◌||◌, not, List, [], ◌∷◌, ◌++◌, Option, none, some, Result, ok, err,
  leb, ltb, if◌then◌else◌, length, take, Bytes, ℤ, pos, leb_ℤ, ltb_ℤ, eqb_ℤ, add_int, set,
}
use system_programming_team.Server.{
  ServerContext, with_world, append_orders_meta, append_sales_meta, server_touch_orders,
  broadcast_raw, event_line, server_save_config, log_time,
}
use system_programming_team.Storage.{StoreConfig}
use system_programming_team.Text.{codes, fit, show}

unfoldable pub server_find_order_index : ServerContext → ℤ → Option ℕ
unfolding orders_find_index
server_find_order_index ctx order_id = orders_find_index ctx.orders order_id

unfoldable pub server_get_order : ServerContext → ℤ → Option (ℕ × Order)
unfolding orders_find
server_get_order ctx order_id = orders_find ctx.orders order_id

-- none is -1.
unfoldable pub push_order_locked : List Order → Order → Option (List Order)
push_order_locked orders o =
    if leb max_orders (length orders) then none else some (orders ++ o ∷ [])

-- A log line with the time of the call behind `head`.
abbrev pub log_orders : Bytes → World → World
log_orders head w =
    append_orders_meta (fit max_proto_line (head ++ (log_time w ++ b'\n' ∷ []))) (time w).1

abbrev pub created_head : Order → Bytes
created_head o =
    codes "ORDER_CREATED id="
    ++ (show o.order_id
        ++ (codes " table="
            ++ (show o.table_id ++ (codes " total=" ++ (show o.total_price ++ codes " ts=")))))

abbrev pub status_head : ℤ → OrderStatus → Bytes
status_head order_id st =
    codes "ORDER_STATUS id="
    ++ (show order_id ++ (codes " status=" ++ (status_to_string st ++ codes " ts=")))

-- Everyone is told of the order, and the revision goes up.
unfoldable pub announce : Order → ServerContext → ServerContext
unfolding broadcast_raw event_line server_touch_orders
announce o ctx =
    server_touch_orders (with_world ctx (broadcast_raw ctx.clients (event_line o) ctx.world))

-- What follows a push that succeeded: the next id, the log, the configuration, the event.
unfoldable pub record_order : Order → List Order → ServerContext → ServerContext
unfolding append_orders_meta server_save_config announce add_int show time
record_order o orders ctx =
    let cfg' = record ctx.cfg { next_order_id = add_int ctx.cfg.next_order_id (pos 1) } in
    announce o (
      server_save_config
        (record ctx { orders = orders; cfg = cfg'; world = log_orders (created_head o) ctx.world }))

-- On success the order's id.
unfoldable pub server_create_order : ServerContext → ℤ → Cart → Result ℤ × ServerContext
unfolding order_build_from_cart push_order_locked record_order time
server_create_order ctx table_id cart =
    if leb_ℤ table_id (pos 0) || ltb_ℤ ctx.cfg.max_tables table_id
    then (err (codes "bad table range"), ctx)
    else (let (now, w) = time ctx.world in
        elim (order_build_from_cart ctx.cfg.next_order_id table_id cart (pos now)) [
          | err e ↦ (err e, with_world ctx w)
          | ok o ↦ elim (push_order_locked ctx.orders o) [
            | none ↦ (err (codes "order capacity"), with_world ctx w)
            | some orders ↦ (ok o.order_id, record_order o orders (with_world ctx w))
          ]
        ])

unfoldable pub valid_kitchen_transition : OrderStatus → OrderStatus → Bool
valid_kitchen_transition waiting cooking = true
valid_kitchen_transition cooking done = true
valid_kitchen_transition waiting done = true
valid_kitchen_transition done cooking = true
valid_kitchen_transition cooking waiting = true
valid_kitchen_transition _ _ = false

abbrev pub is_paid : OrderStatus → Bool
is_paid paid = true
is_paid _ = false

abbrev pub is_done : OrderStatus → Bool
is_done done = true
is_done _ = false

abbrev pub is_waiting : OrderStatus → Bool
is_waiting waiting = true
is_waiting _ = false

-- `o->status = st`, through the pointer to entry `i`.
abbrev pub set_status : ServerContext → ℕ → Order → OrderStatus → ServerContext
set_status ctx i o st = record ctx { orders = set ctx.orders i (record o { status = st }) }

unfoldable pub server_update_order_status :
    ServerContext → ℤ → OrderStatus → Result (Unit {0}) × ServerContext
unfolding server_get_order valid_kitchen_transition append_orders_meta announce show time
    status_to_string
server_update_order_status ctx order_id new_status = elim (server_get_order ctx order_id) [
  | none ↦ (err (codes "order not found"), ctx)
  | some (i, o) ↦
      if is_paid o.status
      then (err (codes "already paid"), ctx)
      else if not (valid_kitchen_transition o.status new_status)
      then (err (codes "invalid transition"), ctx)
      else (let ctx1 = set_status ctx i o new_status in
          (
            ok tt,
            announce (record o { status = new_status })
                (with_world ctx1 (
                  append_orders_meta
                    (fit 256
                      (status_head order_id new_status ++ (log_time ctx1.world ++ b'\n' ∷ [])))
                    (time ctx1.world).1)),
          ))
]

unfoldable pub server_cancel_order : ServerContext → ℤ → ℤ → Result (Unit {0}) × ServerContext
unfolding server_get_order announce
server_cancel_order ctx order_id table_id = elim (server_get_order ctx order_id) [
  | none ↦ (err (codes "order not found"), ctx)
  | some (i, o) ↦
      if not (eqb_ℤ o.table_id table_id)
      then (err (codes "table mismatch"), ctx)
      else if not (is_waiting o.status)
      then (err (codes "cannot cancel after cooking started"), ctx)
      else (ok tt, announce (record o { status = cancelled }) (set_status ctx i o cancelled))
]

-- The loop that prints the items of a sale; `sep` is empty in front of the first. The buffer holds
-- 16384 bytes, and the loop ends when fewer than 40 are left.
unfoldable pub sale_items : List OrderLineItem → Bytes → Bytes → Bytes
unfolding show
sale_items [] sep slog = slog
sale_items (it ∷ its) sep slog =
    let rest =
      sale_items its (b',' ∷ []) (slog ++ (sep ++ (show it.menu_id ++ (b':' ∷ show it.qty)))) in
    if ltb (length slog + 40) max_proto_line then rest else slog

unfoldable pub sale_line : ℤ → Order → Bytes → Bytes
unfolding sale_items show
sale_line order_id o ts =
    let head = fit max_proto_line (
      codes "SALE id="
      ++ (show order_id
          ++ (codes " table="
              ++ (show o.table_id
                  ++ (codes " total="
                      ++ (show o.total_price ++ (codes " ts=" ++ (ts ++ codes " detail=")))))))) in
    fit max_proto_line (sale_items o.items [] head ++ b'\n' ∷ [])

unfoldable pub server_pay_order : ServerContext → ℤ → Result (Unit {0}) × ServerContext
unfolding server_get_order append_sales_meta announce sale_line show time
server_pay_order ctx order_id = elim (server_get_order ctx order_id) [
  | none ↦ (err (codes "order not found"), ctx)
  | some (i, o) ↦
      if not (is_done o.status)
      then (err (codes "not DONE"), ctx)
      else (let o' : Order = record o { status = paid } in
          let ctx1 = set_status ctx i o paid in
          (
            ok tt,
            announce o' (
                with_world ctx1 (
                  append_sales_meta (sale_line order_id o' (log_time ctx1.world))
                    (time ctx1.world).1)),
          ))
]
