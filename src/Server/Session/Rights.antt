-- ===== src/Server/Session/Rights.antt =====
-- What a client's line may do to an order that the server has.
pub mod Kept
use system_programming_team.Common.{
  CartItem, ClientKind, no_client, table_client, kitchen_client, Order, OrderStatus, waiting, paid,
  cancelled, max_order_items, max_proto_line,
}
use system_programming_team.Keyed.{find}
use system_programming_team.Keyed.Laws.{find-append, find-update_first}
use system_programming_team.Order.{order_key, cart_init, order_build_from_cart}
use system_programming_team.Os.{time}
use system_programming_team.Prelude.{
  ℕ, ◌≡◌, ◌≢◌, refl, sym, ap, subst, ◌∙◌, List, some, Result, Bool, true, false, if◌then◌else◌,
  take, Bytes, bytes_eq, ℤ, pos, eqb_ℤ, eqb_ℤ→eq, Bool-cases, Option-cases, Result-cases, inl, inr,
  ◌⊎◌, arith, add_int,
}
use system_programming_team.Protocol.Parse.{
  proto_parse_order_create, proto_parse_order_update, proto_parse_order_cancel,
  proto_parse_call_staff,
}
use system_programming_team.Protocol.{proto_build_menu_response}
use system_programming_team.Server.Handlers.Creating.{announce_staff_call_lem, note_staff_call_lem}
use system_programming_team.Server.Handlers.{
  reply, note_staff_call, handle_menu_request, handle_call_staff, fill_cart, place_order,
  handle_order_create_client, handle_order_update_client, handle_order_cancel_client,
}
use system_programming_team.Server.Orders.Machine.Invariant.{pushed}
use system_programming_team.Server.Orders.Machine.Operations.{server_save_config_lem}
use system_programming_team.Server.Orders.Machine.Results.{
  ByKitchen, Performs, server_update_order_status-Performs, server_cancel_order-Performs,
}
use system_programming_team.Server.Orders.Machine.{with_status}
use system_programming_team.Server.Orders.{
  push_order_locked, record_order, log_orders, created_head, server_cancel_order,
}
use system_programming_team.Server.Session.{serve, is_table, is_kitchen, begins}
use system_programming_team.Server.{ServerContext, with_world, finalize_cart_lines}
use system_programming_team.Text.{codes}
use system_programming_team.Server.Session.Rights.Kept.{
  Gives, Rights, kept, create-Gives, update-Gives, cancel-Gives,
}

Gives-if :
    (R : Order → Order → Type 0) (c : ServerContext) (b : Bool) (x y : ServerContext)
    → Gives R c x
    → Gives R c y
    → Gives R c (if b then x else y)
Gives-if R c true x y p q = p
Gives-if R c false x y p q = q

handle_menu_request_orders :
    (fd : ℕ) (c : ServerContext) → (handle_menu_request fd c).orders ≡ c.orders
unfolding handle_menu_request reply
handle_menu_request_orders fd c =
    elim (Option-cases (proto_build_menu_response c.menu max_proto_line)) [
      | inl e ↦ rw (e, handle_menu_request) refl
      | inr (r, e) ↦ rw (e, handle_menu_request) refl
    ]

handle_call_staff_orders :
    (line : Bytes) (c : ServerContext) → (handle_call_staff line c).orders ≡ c.orders
unfolding handle_call_staff
handle_call_staff_orders line c = elim (Result-cases (proto_parse_call_staff line)) [
  | inl (m, e) ↦ rw (e, handle_call_staff) refl
  | inr (tbl, e) ↦
      rw (e, handle_call_staff)
        ((announce_staff_call_lem tbl (note_staff_call tbl c)).0 ∙ (note_staff_call_lem tbl c).0)
]

-- What a client sends changes an order that the server has only within the client's rights: a table
-- can only cancel an order of its own that waits, the kitchen can only make one of its moves of an
-- order that is not paid, and only the state of an order can change.
pub serve-Rights :
    (c : ServerContext) (fd : ℕ) (kind : ClientKind) (table : ℤ) (line : Bytes) (k : ℤ) (o : Order)
    → find order_key k c.orders ≡ some o
    → (p : Order) × (find order_key k (serve fd kind table line c).orders ≡ some p)
      × Rights kind table o p
unfolding serve reply
serve-Rights c fd kind table line =
    let R = Rights kind table in
    let stay : Gives R c c = kept kind table c c refl in
    Gives-if R c (bytes_eq line (codes "MENU_REQUEST")) _ _
      (kept kind table c (handle_menu_request fd c) (handle_menu_request_orders fd c))
      (Gives-if R c (begins (codes "ORDER_CREATE|") line) _ _
        (Gives-if R c (is_table kind) _ _ (create-Gives kind table c fd line table) stay)
        (Gives-if R c (begins (codes "ORDER_CANCEL|") line) _ _ (cancels kind) (
          Gives-if R c (begins (codes "ORDER_UPDATE|") line) _ _ (updates kind) (
            Gives-if R c (begins (codes "CALL_STAFF|") line) _ _
              (Gives-if R c (is_table kind) _ _
                (kept kind table c (handle_call_staff line c) (handle_call_staff_orders line c))
                stay)
              (Gives-if R c (bytes_eq line (codes "PING")) _ _ stay stay)))))
  where
    no : ServerContext
    no = reply fd (take 16 (codes "ERROR|forbidden\n")) c

    refused : (kind : ClientKind) → Gives (Rights kind table) c no
    refused kind = kept kind table c no refl

    cancels :
        (kind : ClientKind)
        → Gives
            (Rights kind table)
            c
            (if is_table kind then handle_order_cancel_client fd line table c else no)
    cancels no_client = refused no_client
    cancels kitchen_client = refused kitchen_client
    cancels table_client = cancel-Gives c fd line table

    updates :
        (kind : ClientKind)
        → Gives
            (Rights kind table)
            c
            (if is_kitchen kind then handle_order_update_client line c else no)
    updates no_client = refused no_client
    updates table_client = refused table_client
    updates kitchen_client = update-Gives table c line
