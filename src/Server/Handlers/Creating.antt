-- ===== src/Server/Handlers/Creating.antt =====
-- The handlers of src/server.c and the orders' state machine.
use system_programming_team.Common.{CartItem, max_order_items}
use system_programming_team.Order.{cart_init, order_build_from_cart}
use system_programming_team.Os.{time}
use system_programming_team.Prelude.{
  ℕ, ◌≡◌, refl, List, Bytes, ℤ, pos, eqb_ℤ, Bool-cases, Option-cases, Result-cases, inl, inr, ltb,
  ◌+◌, length, ap, ◌∙◌, ◌++◌, ◌∷◌, [],
}
use system_programming_team.Common.{max_proto_line}
use system_programming_team.Protocol.Parse.{
  proto_parse_order_create, proto_parse_order_update, proto_parse_order_cancel,
  proto_parse_call_staff,
}
use system_programming_team.Protocol.{proto_build_menu_response, proto_build_staff_broadcast}
use system_programming_team.Server.Handlers.{
  reply, error_reply, created_reply, handle_menu_request, fill_cart, place_order,
  handle_order_create_client, handle_order_update_client, handle_order_cancel_client,
  handle_call_staff, note_staff_call, announce_staff_call,
}
use system_programming_team.Server.Orders.Machine.Operations.{
  Change-world, record_order-Change, order_build-IsNew, server_update_order_status-Change,
  server_cancel_order-Change,
}
use system_programming_team.Server.Orders.Machine.{Change, same, created, moved}
use system_programming_team.Server.Orders.{push_order_locked, server_cancel_order}
use system_programming_team.Text.{codes, fit}
use system_programming_team.Server.{
  ServerContext, with_world, finalize_cart_lines, server_broadcast_line, server_touch_staff,
}

pub Change-reply :
    (c : ServerContext) {d : ServerContext} (fd : ℕ) (text : Bytes)
    → Change c d
    → Change c (reply fd text d)
unfolding reply
Change-reply c fd text (same p q) = same p q
Change-reply c fd text (created o p n q) = created o p n q
Change-reply c fd text (moved id o st f m u q) = moved id o st f m u q

pub handle_menu_request-Change : (c : ServerContext) (fd : ℕ) → Change c (handle_menu_request fd c)
unfolding handle_menu_request
handle_menu_request-Change c fd =
    elim (Option-cases (proto_build_menu_response c.menu max_proto_line)) [
      | inl e ↦ rw (e, handle_menu_request) (same refl refl)
      | inr (r, e) ↦ rw (e, handle_menu_request) (same refl refl)
    ]

pub place_order-Change :
    (c : ServerContext) (fd : ℕ) (tbl : ℤ) (lines : List CartItem)
    → Change c (place_order fd tbl lines c)
unfolding place_order
place_order-Change c fd tbl lines = elim (Result-cases (finalize_cart_lines c.menu lines)) [
  | inl (m, e) ↦ rw (e, place_order) (same refl refl)
  | inr (priced, e) ↦ elim (Result-cases (fill_cart priced cart_init)) [
    | inl (m, f) ↦ rw (e, f, place_order) (same refl refl)
    | inr (cart, f) ↦
        let built = order_build_from_cart c.cfg.next_order_id tbl cart (pos (time c.world).0) in
        elim (Result-cases built) [
          | inl (m, b) ↦ rw (e, f, b, place_order) (same refl refl)
          | inr (o, b) ↦ elim (Option-cases (push_order_locked c.orders o)) [
            | inl n ↦ rw (e, f, b, n, place_order) (same refl refl)
            | inr (orders, p) ↦
                rw (e, f, b, p, place_order)
                  (Change-reply c fd (created_reply o) (
                    Change-world c (time c.world).1 (
                      record_order-Change (with_world c (time c.world).1) o orders p
                        (order_build-IsNew _ tbl cart _ o b))))
          ]
        ]
  ]
]

pub handle_order_create_client-Change :
    (c : ServerContext) (fd : ℕ) (line : Bytes) (table : ℤ)
    → Change c (handle_order_create_client fd line table c)
unfolding handle_order_create_client
handle_order_create_client-Change c fd line table =
    elim (Result-cases (proto_parse_order_create line max_order_items)) [
      | inl (m, e) ↦ rw (e, handle_order_create_client) (same refl refl)
      | inr (r, e) ↦ elim (Bool-cases (eqb_ℤ r.0 table)) [
        | inl t ↦ rw (e, t, handle_order_create_client) (place_order-Change c fd r.0 r.1)
        | inr t ↦ rw (e, t, handle_order_create_client) (same refl refl)
      ]
    ]

pub handle_order_update_client-Change :
    (c : ServerContext) (line : Bytes) → Change c (handle_order_update_client line c)
unfolding handle_order_update_client
handle_order_update_client-Change c line = elim (Result-cases (proto_parse_order_update line)) [
  | inl (m, e) ↦ rw (e, handle_order_update_client) (same refl refl)
  | inr (r, e) ↦ rw (e, handle_order_update_client) (server_update_order_status-Change c r.0 r.1)
]

pub handle_order_cancel_client-Change :
    (c : ServerContext) (fd : ℕ) (line : Bytes) (table : ℤ)
    → Change c (handle_order_cancel_client fd line table c)
unfolding handle_order_cancel_client
handle_order_cancel_client-Change c fd line table =
    elim (Result-cases (proto_parse_order_cancel line)) [
      | inl (m, e) ↦ rw (e, handle_order_cancel_client) (same refl refl)
      | inr (id, e) ↦
          let done = server_cancel_order-Change c id table in
          elim (Result-cases (server_cancel_order c id table).0) [
            | inl (m, f) ↦
                rw (e, f, handle_order_cancel_client) (Change-reply c fd (error_reply m) done)
            | inr (_, f) ↦
                rw (e, f, handle_order_cancel_client) (Change-reply c fd (codes "OK|cancel\n") done)
          ]
    ]

broadcast_line_lem :
    (line : Bytes) (c : ServerContext)
    → ((server_broadcast_line line c).orders ≡ c.orders)
      × ((server_broadcast_line line c).cfg ≡ c.cfg)
unfolding server_broadcast_line
broadcast_line_lem line c = elim (Bool-cases (ltb (max_proto_line + 4) (length line + 2))) [
  | inl e ↦ rw (e, server_broadcast_line) (refl, refl)
  | inr e ↦ rw (e, server_broadcast_line) (refl, refl)
]

pub announce_staff_call_lem :
    (tbl : ℤ) (c : ServerContext)
    → ((announce_staff_call tbl c).orders ≡ c.orders) × ((announce_staff_call tbl c).cfg ≡ c.cfg)
unfolding announce_staff_call server_touch_staff
announce_staff_call_lem tbl c =
    broadcast_line_lem
      (fit max_proto_line (proto_build_staff_broadcast tbl max_proto_line ++ b'\n' ∷ []))
      (server_touch_staff c)

pub note_staff_call_lem :
    (tbl : ℤ) (c : ServerContext)
    → ((note_staff_call tbl c).orders ≡ c.orders) × ((note_staff_call tbl c).cfg ≡ c.cfg)
unfolding note_staff_call
note_staff_call_lem tbl c = (refl, refl)

pub handle_call_staff-Change :
    (c : ServerContext) (line : Bytes) → Change c (handle_call_staff line c)
unfolding handle_call_staff
handle_call_staff-Change c line = elim (Result-cases (proto_parse_call_staff line)) [
  | inl (m, e) ↦ rw (e, handle_call_staff) (same refl refl)
  | inr (tbl, e) ↦
      let q = announce_staff_call_lem tbl (note_staff_call tbl c) in
      let n = note_staff_call_lem tbl c in
      rw (e, handle_call_staff) (same (q.0 ∙ n.0) (ap (λ k. k.next_order_id) (q.1 ∙ n.1)))
]
