-- ===== src/Ui.antt =====
-- include/ui.h and src/ui.c without its drawing. Here: the queue of a client's screen, what it takes
-- from the server's messages, the order that a table sends, and what the cashier's screen computes.
pub mod Ordering
pub mod Mirrors
pub mod MenuMessage
pub mod Rounds
pub mod Kitchen
pub mod Visible
pub mod Table
pub mod Pos
pub mod Sizes
pub mod Programs
use system_programming_team.Common.{
  CartItem, ClientKind, MenuItem, MenuCatalog, Order, OrderStatus, waiting, cooking, done, paid,
  cancelled, max_menu_items, max_orders, max_proto_line, max_tables,
}
use system_programming_team.Menu.{menu_init_catalog}
use system_programming_team.Order.{Cart, cart_init, orders_find_index}
use system_programming_team.Os.{World, write_all, time}
use system_programming_team.Prelude.{
  ℕ, zero, suc, ◌+◌, ◌-◌, Bool, true, false, ◌&&◌, ◌||◌, not, List, [], ◌∷◌, ◌++◌, Option, none,
  some, ltb, leb, if◌then◌else◌, length, get_elem?, set, take, Bytes, ℤ, pos, pos_part, leb_ℤ,
  ltb_ℤ, eqb_ℤ, add_int,
}
use system_programming_team.Protocol.Parse.{proto_parse_menu_csv_segment}
use system_programming_team.Server.Orders.{is_paid, is_done}
use system_programming_team.Server.{ServerContext}
use system_programming_team.Text.{codes, fit, show, after_find, tokens}

-- `qn` is the length of the queue.
unfoldable pub ui_net_enqueue : List Bytes → Bytes → List Bytes
ui_net_enqueue q l = if ltb (length q) 128 then q ++ fit max_proto_line l ∷ [] else q

unfoldable pub ui_net_pop : List Bytes → ℕ → Option Bytes × List Bytes
ui_net_pop [] outsz = (none, [])
ui_net_pop (l ∷ q) outsz = (some (fit outsz l), q)

-- The loop over the segments of a menu message.
unfoldable pub menu_segments : List Bytes → MenuCatalog → MenuCatalog
unfolding proto_parse_menu_csv_segment
menu_segments [] cat = cat
menu_segments (seg ∷ segs) cat = menu_segments segs (elim (proto_parse_menu_csv_segment seg) [
  | none ↦ cat
  | some mi ↦
      if not (leb_ℤ mi.id (pos 0)) && ltb (length cat.items) max_menu_items
      then record { items = cat.items ++ mi ∷ [] }
      else cat
])

unfoldable pub ui_apply_menu_response : MenuCatalog → Bytes → MenuCatalog
unfolding after_find tokens menu_segments menu_init_catalog
ui_apply_menu_response cat l = elim (after_find (codes "MENU_RESPONSE|") l) [
  | none ↦ cat
  | some p ↦ menu_segments (tokens b';' (fit max_proto_line p)) menu_init_catalog
]

unfoldable pub ui_merge_order_mirror : List Order → Order → List Order
unfolding orders_find_index
ui_merge_order_mirror orders incoming = elim (orders_find_index orders incoming.order_id) [
  | some i ↦ set orders i incoming
  | none ↦ if ltb (length orders) max_orders then orders ++ incoming ∷ [] else orders
]

-- `strncat (items, chunk, sizeof items - strlen items - 1)`, over the lines of the cart.
unfoldable pub item_chunks : Bytes → List CartItem → Bytes → Bytes
unfolding show
item_chunks sep [] items = items
item_chunks sep (l ∷ ls) items =
    let chunk = fit 64 (sep ++ (show l.menu_id ++ (b':' ∷ show l.qty))) in
    item_chunks (b',' ∷ []) ls (items ++ take (max_proto_line - length items - 1) chunk)

unfoldable pub order_payload : ℤ → Cart → Bytes
unfolding item_chunks show
order_payload table_id cart = fit max_proto_line (
    codes "ORDER_CREATE|table="
    ++ (show table_id
        ++ (codes "|items="
            ++ (take (max_proto_line - 48) (item_chunks [] cart.items []) ++ b'\n' ∷ []))))

-- What is returned, the banner, the cart and the world. `ui_write_all` is `write_all` of
-- src/server.c, and its result is not used.
unfoldable pub ui_submit_cart_order : ℕ → ℤ → Cart → ℕ → World → Bool × Bytes × Cart × World
unfolding order_payload write_all cart_init
ui_submit_cart_order sock table_id cart banner_sz w =
    if leb (length cart.items) 0 then (false, fit banner_sz (codes "장바구니가 비어 있습니다"), cart, w) else (
      true,
      fit banner_sz (codes "주문 전송 완료(응답대기)"),
      cart_init,
      (write_all sock (order_payload table_id cart) w).1,
    )

abbrev pub is_cancelled : OrderStatus → Bool
is_cancelled cancelled = true
is_cancelled _ = false

pub record PosTableSummary : Type 0 where
  pub order_count : ℤ
  pub unpaid_total : ℤ
  pub done_total : ℤ

-- The loop of `ui_pos_table_summary`.
unfoldable pub summary_from : ℤ → List Order → PosTableSummary → PosTableSummary
unfolding add_int
summary_from table_id [] sum = sum
summary_from table_id (o ∷ os) sum = summary_from table_id os (
    if not (eqb_ℤ o.table_id table_id) || is_cancelled o.status then sum else record {
      order_count = add_int sum.order_count (pos 1);
      unpaid_total =
          if not (is_paid o.status)
          then add_int sum.unpaid_total o.total_price
          else sum.unpaid_total;
      done_total =
          if is_done o.status then add_int sum.done_total o.total_price else sum.done_total;
    })

unfoldable pub ui_pos_table_summary : ServerContext → ℤ → PosTableSummary
unfolding summary_from
ui_pos_table_summary ctx table_id =
    summary_from table_id ctx.orders
      (record { order_count = pos 0; unpaid_total = pos 0; done_total = pos 0 })

-- The loop of `ui_pos_collect_table_done_ids`, for at most `room` ids.
unfoldable pub done_ids : ℕ → ℤ → List Order → List ℤ
done_ids room table_id [] = []
done_ids zero table_id (o ∷ os) = []
done_ids (suc room) table_id (o ∷ os) =
    let rest = done_ids room table_id os in
    let skip = done_ids (suc room) table_id os in
    if is_done o.status && (leb_ℤ table_id (pos 0) || eqb_ℤ o.table_id table_id)
    then o.order_id ∷ rest
    else skip

unfoldable pub ui_pos_collect_table_done_ids : ServerContext → ℤ → ℕ → List ℤ
unfolding done_ids
ui_pos_collect_table_done_ids ctx table_id max_ids = done_ids max_ids table_id ctx.orders
