-- ===== src/Server/Handlers.antt =====
-- The handlers of a client's messages in src/server.c.
pub mod Creating
use system_programming_team.Common.{
  CartItem, Order, max_order_items, max_proto_line, max_tables, status_to_string,
}
use system_programming_team.Order.{Cart, cart_init, cart_add, order_build_from_cart}
use system_programming_team.Os.{World, write_all, time}
use system_programming_team.Prelude.{
  ℕ, ◌-◌, Bool, true, false, ◌&&◌, not, List, [], ◌∷◌, ◌++◌, Option, none, some, Result, ok, err,
  if◌then◌else◌, length, take, Bytes, ℤ, pos, leb_ℤ, eqb_ℤ, set, pos_part, ltb,
}
use system_programming_team.Protocol.Parse.{
  proto_parse_order_create, proto_parse_order_update, proto_parse_order_cancel,
  proto_parse_call_staff,
}
use system_programming_team.Protocol.{proto_build_menu_response, proto_build_staff_broadcast}
use system_programming_team.Server.Orders.{
  push_order_locked, record_order, server_update_order_status, server_cancel_order,
}
use system_programming_team.Server.{
  ServerContext, with_world, append_orders_meta, finalize_cart_lines, server_touch_staff,
  server_broadcast_line, log_time,
}
use system_programming_team.Text.{codes, fit, show}

-- `write_all (fd, text, n)` with the result not used.
unfoldable pub reply : ℕ → Bytes → ServerContext → ServerContext
unfolding write_all
reply fd text ctx = with_world ctx (write_all fd text ctx.world).1

-- `snprintf (buf, 256, "ERROR|%s\n", err)`, with `err` in a buffer of 160 bytes.
abbrev pub error_reply : Bytes → Bytes
error_reply e = fit 256 (codes "ERROR|" ++ (fit 160 e ++ b'\n' ∷ []))

unfoldable pub handle_menu_request : ℕ → ServerContext → ServerContext
unfolding proto_build_menu_response reply
handle_menu_request fd ctx = elim (proto_build_menu_response ctx.menu max_proto_line) [
  | none ↦ reply fd (take 18 (codes "ERROR|menu encode\n")) ctx
  | some resp ↦ reply fd (fit max_proto_line (resp ++ b'\n' ∷ [])) ctx
]

-- The loop that puts the lines in a cart.
unfoldable pub fill_cart : List CartItem → Cart → Result Cart
unfolding cart_add
fill_cart [] cart = ok cart
fill_cart (l ∷ ls) cart = elim (cart_add cart l) [ err e ↦ err e | ok c ↦ fill_cart ls c ]

unfoldable pub created_reply : Order → Bytes
unfolding show status_to_string
created_reply o = fit 128 (
    codes "ORDER_CREATED|order_id="
    ++ (show o.order_id
        ++ (codes "|total="
            ++ (show o.total_price
                ++ (codes "|status=" ++ (status_to_string o.status ++ b'\n' ∷ []))))))

-- The critical section of `handle_order_create_client`, on the parsed lines.
unfoldable pub place_order : ℕ → ℤ → List CartItem → ServerContext → ServerContext
unfolding finalize_cart_lines fill_cart cart_init order_build_from_cart push_order_locked
    record_order reply created_reply time
place_order fd tbl lines ctx = elim (finalize_cart_lines ctx.menu lines) [
  | err e ↦ reply fd (error_reply e) ctx
  | ok priced ↦ elim (fill_cart priced cart_init) [
    | err e ↦ reply fd (error_reply e) ctx
    | ok cart ↦
        let (now, w) = time ctx.world in
        elim (order_build_from_cart ctx.cfg.next_order_id tbl cart (pos now)) [
          | err e ↦ reply fd (error_reply e) (with_world ctx w)
          | ok o ↦ elim (push_order_locked ctx.orders o) [
            | none ↦ reply fd (take 15 (codes "ERROR|capacity\n")) (with_world ctx w)
            | some orders ↦ reply fd (created_reply o) (record_order o orders (with_world ctx w))
          ]
        ]
  ]
]

unfoldable pub handle_order_create_client : ℕ → Bytes → ℤ → ServerContext → ServerContext
unfolding proto_parse_order_create reply place_order
handle_order_create_client fd line table_id ctx =
    elim (proto_parse_order_create line max_order_items) [
      | err e ↦ reply fd (error_reply e) ctx
      | ok (tbl, lines) ↦
          if not (eqb_ℤ tbl table_id)
          then reply fd (take 21 (codes "ERROR|table mismatch\n")) ctx
          else place_order fd tbl lines ctx
    ]

unfoldable pub handle_order_update_client : Bytes → ServerContext → ServerContext
unfolding proto_parse_order_update server_update_order_status
handle_order_update_client line ctx = elim (proto_parse_order_update line) [
  | err e ↦ ctx
  | ok (oid, st) ↦ (server_update_order_status ctx oid st).1
]

unfoldable pub handle_order_cancel_client : ℕ → Bytes → ℤ → ServerContext → ServerContext
unfolding proto_parse_order_cancel server_cancel_order reply
handle_order_cancel_client fd line table_id ctx = elim (proto_parse_order_cancel line) [
  | err e ↦ reply fd (error_reply e) ctx
  | ok oid ↦
      let (r, ctx1) = server_cancel_order ctx oid table_id in
      elim r [ err e ↦ reply fd (error_reply e) ctx1 | ok _ ↦ reply fd (codes "OK|cancel\n") ctx1 ]
]

abbrev pub staff_message : ℤ → Bytes
staff_message tbl = fit 160 (codes "직원 호출: 테이블 " ++ show tbl)

-- The critical section of `handle_call_staff`.
unfoldable pub note_staff_call : ℤ → ServerContext → ServerContext
unfolding show time
note_staff_call tbl ctx =
    let (now, w) = time ctx.world in
    record (with_world ctx w) {
      last_staff_message = staff_message tbl;
      last_staff_time = pos now;
      staff_call_at =
          if not (leb_ℤ tbl (pos 0)) && leb_ℤ tbl (pos max_tables)
          then set ctx.staff_call_at (pos_part tbl) (pos now)
          else ctx.staff_call_at;
    }

-- What `handle_call_staff` does behind its critical section.
unfoldable pub announce_staff_call : ℤ → ServerContext → ServerContext
unfolding proto_build_staff_broadcast server_broadcast_line append_orders_meta server_touch_staff
    show time
announce_staff_call tbl ctx =
    let evt = fit max_proto_line (proto_build_staff_broadcast tbl max_proto_line ++ b'\n' ∷ []) in
    let ctx1 = server_broadcast_line evt (server_touch_staff ctx) in
    let slog = fit 128 (
      codes "STAFF_CALL table="
      ++ (show tbl ++ (codes " ts=" ++ (log_time ctx1.world ++ b'\n' ∷ [])))) in
    with_world ctx1 (append_orders_meta slog (time ctx1.world).1)

unfoldable pub handle_call_staff : Bytes → ServerContext → ServerContext
unfolding proto_parse_call_staff note_staff_call announce_staff_call
handle_call_staff line ctx = elim (proto_parse_call_staff line) [
  | err e ↦ ctx
  | ok tbl ↦ announce_staff_call tbl (note_staff_call tbl ctx)
]
