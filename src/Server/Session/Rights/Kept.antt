-- ===== src/Server/Session/Rights/Kept.antt =====
-- What each handler makes of an order that the server has.
use system_programming_team.Common.{
  CartItem, ClientKind, no_client, table_client, kitchen_client, Order, OrderStatus, waiting, paid,
  cancelled, max_order_items,
}
use system_programming_team.Keyed.{find}
use system_programming_team.Keyed.Laws.{find-append, find-update_first}
use system_programming_team.Order.{order_key, cart_init, order_build_from_cart}
use system_programming_team.Os.{time}
use system_programming_team.Prelude.{
  ℕ, ◌≡◌, ◌≢◌, refl, sym, ap, subst, ◌∙◌, List, some, Result, Bytes, ℤ, pos, eqb_ℤ, eqb_ℤ→eq,
  Bool-cases, Option-cases, Result-cases, inl, inr, ◌⊎◌, arith, add_int,
}
use system_programming_team.Protocol.Parse.{
  proto_parse_order_create, proto_parse_order_update, proto_parse_order_cancel,
}
use system_programming_team.Server.Handlers.{
  reply, fill_cart, place_order, handle_order_create_client, handle_order_update_client,
  handle_order_cancel_client,
}
use system_programming_team.Server.Orders.Machine.Invariant.{pushed}
use system_programming_team.Server.Orders.Machine.Operations.{server_save_config_lem}
use system_programming_team.Server.Orders.Machine.Results.{
  ByKitchen, Performs, server_update_order_status-Performs, server_cancel_order-Performs,
}
use system_programming_team.Server.Orders.Machine.{with_status}
use system_programming_team.Server.Orders.{
  push_order_locked, record_order, log_orders, created_head, server_cancel_order,
}
use system_programming_team.Server.{ServerContext, with_world, finalize_cart_lines}

-- Every order that is found is found with `R` of what it was.
abbrev pub Gives : (Order → Order → Type 0) → ServerContext → ServerContext → Type 0
Gives R c d =
    (k : ℤ) (o : Order)
    → find order_key k c.orders ≡ some o
    → (p : Order) × (find order_key k d.orders ≡ some p) × R o p

-- What a client of a kind, at a table, may make of an order: a table may cancel a waiting order of
-- its own, the kitchen may make its moves of an order that is not paid.
abbrev pub Rights : ClientKind → ℤ → Order → Order → Type 0
Rights no_client table o p = p ≡ o
Rights table_client table o p =
    (p ≡ o) ⊎ ((o.table_id ≡ table) × (o.status ≡ waiting) × (p ≡ with_status cancelled o))
Rights kitchen_client table o p =
    (p ≡ o)
    ⊎ ((st : OrderStatus) × (o.status ≢ paid) × ByKitchen o.status st × (p ≡ with_status st o))

unchanged : (kind : ClientKind) (table : ℤ) (o : Order) → Rights kind table o o
unchanged no_client table o = refl
unchanged table_client table o = inl refl
unchanged kitchen_client table o = inl refl

pub kept :
    (kind : ClientKind) (table : ℤ) (c d : ServerContext)
    → d.orders ≡ c.orders
    → Gives (Rights kind table) c d
kept kind table c d e k o f = (o, rw e f, unchanged kind table o)

-- An operation on one order.
Performs-Gives :
    (Allowed : Order → Type 0) (st : OrderStatus) (c : ServerContext) (id : ℤ)
    (r : Result (Unit {0}) × ServerContext)
    → Performs Allowed st c id r
    → Gives (λ o p. (p ≡ o) ⊎ (Allowed o × (p ≡ with_status st o))) c r.1
Performs-Gives Allowed st c id r (inr (_, (e, q))) k o f =
    (o, ap (λ z. find order_key k z.1.orders) q ∙ f, inl refl)
Performs-Gives Allowed st c id r (inl (x, g, a, _, u, _)) k o f =
    let e = find-update_first order_key (with_status st) id (λ _ _. refl) k c.orders r.1.orders u in
    elim (Bool-cases (eqb_ℤ id k)) [
      | inl t ↦
          let s : some x ≡ some o =
            sym g ∙ ap (λ j. find order_key j c.orders) (eqb_ℤ→eq id k t) ∙ f in
          let y : x ≡ o = ground arith in
          (with_status st x, e ∙ rw t (rw g), inr (subst Allowed y a, ap (with_status st) y))
      | inr t ↦ (o, e ∙ rw t f, inl refl)
    ]

record_order_orders :
    (o : Order) (orders : List Order) (c : ServerContext)
    → (record_order o orders c).orders ≡ orders
unfolding record_order
record_order_orders o orders c =
    let d : ServerContext = record c {
      orders = orders;
      cfg = record c.cfg { next_order_id = add_int c.cfg.next_order_id (pos 1) };
      world = log_orders (created_head o) c.world;
    } in
    (server_save_config_lem d).0

pushed-Gives :
    (kind : ClientKind) (table : ℤ) (c d : ServerContext) (o : Order) (orders : List Order)
    → push_order_locked c.orders o ≡ some orders
    → d.orders ≡ orders
    → Gives (Rights kind table) c d
pushed-Gives kind table c d n orders p e k o f =
    let (a, _) = pushed c.orders orders n p in
    (o, rw (e, a, find-append order_key k c.orders n) (rw f), unchanged kind table o)

place_order-Gives :
    (kind : ClientKind) (table : ℤ) (c : ServerContext) (fd : ℕ) (tbl : ℤ) (lines : List CartItem)
    → Gives (Rights kind table) c (place_order fd tbl lines c)
unfolding place_order reply
place_order-Gives kind table c fd tbl lines =
    let stay : Gives (Rights kind table) c c = kept kind table c c refl in
    elim (Result-cases (finalize_cart_lines c.menu lines)) [
      | inl (m, e) ↦ rw (e, place_order) stay
      | inr (priced, e) ↦ elim (Result-cases (fill_cart priced cart_init)) [
        | inl (m, f) ↦ rw (e, f, place_order) stay
        | inr (cart, f) ↦
            let built = order_build_from_cart c.cfg.next_order_id tbl cart (pos (time c.world).0) in
            let c1 = with_world c (time c.world).1 in
            elim (Result-cases built) [
              | inl (m, b) ↦ rw (e, f, b, place_order) stay
              | inr (o, b) ↦ elim (Option-cases (push_order_locked c.orders o)) [
                | inl n ↦ rw (e, f, b, n, place_order) stay
                | inr (orders, p) ↦
                    rw (e, f, b, p, place_order)
                      (pushed-Gives kind table c (record_order o orders c1) o orders p
                        (record_order_orders o orders c1))
              ]
            ]
      ]
    ]

pub create-Gives :
    (kind : ClientKind) (table : ℤ) (c : ServerContext) (fd : ℕ) (line : Bytes) (t : ℤ)
    → Gives (Rights kind table) c (handle_order_create_client fd line t c)
unfolding handle_order_create_client reply
create-Gives kind table c fd line t =
    let stay : Gives (Rights kind table) c c = kept kind table c c refl in
    elim (Result-cases (proto_parse_order_create line max_order_items)) [
      | inl (m, e) ↦ rw (e, handle_order_create_client) stay
      | inr (r, e) ↦ elim (Bool-cases (eqb_ℤ r.0 t)) [
        | inl q ↦ rw (e, q, handle_order_create_client) (place_order-Gives kind table c fd r.0 r.1)
        | inr q ↦ rw (e, q, handle_order_create_client) stay
      ]
    ]

pub update-Gives :
    (table : ℤ) (c : ServerContext) (line : Bytes)
    → Gives (Rights kitchen_client table) c (handle_order_update_client line c)
unfolding handle_order_update_client
update-Gives table c line = elim (Result-cases (proto_parse_order_update line)) [
  | inl (m, e) ↦ rw (e, handle_order_update_client) (kept kitchen_client table c c refl)
  | inr ((id, st), e) ↦
      rw (e, handle_order_update_client)
        (λ k o f.
          let (p, g, r) =
            Performs-Gives (λ o. (o.status ≢ paid) × ByKitchen o.status st) st c id _
              (server_update_order_status-Performs c id st) k o f in
          (p, g, widen st o p r))
]
  where
    widen :
        (st : OrderStatus) (o p : Order)
        → (p ≡ o) ⊎ (((o.status ≢ paid) × ByKitchen o.status st) × (p ≡ with_status st o))
        → Rights kitchen_client table o p
    widen st o p (inl e) = inl e
    widen st o p (inr ((n, b), e)) = inr (st, n, b, e)

pub cancel-Gives :
    (c : ServerContext) (fd : ℕ) (line : Bytes) (table : ℤ)
    → Gives (Rights table_client table) c (handle_order_cancel_client fd line table c)
unfolding handle_order_cancel_client reply
cancel-Gives c fd line table = elim (Result-cases (proto_parse_order_cancel line)) [
  | inl (m, e) ↦ rw (e, handle_order_cancel_client) (kept table_client table c c refl)
  | inr (id, e) ↦
      let done : Gives (Rights table_client table) c (server_cancel_order c id table).1 = λ k o f.
        let (p, g, r) =
          Performs-Gives (λ o. (o.table_id ≡ table) × (o.status ≡ waiting)) cancelled c id _
            (server_cancel_order-Performs c id table) k o f in
        (p, g, widen o p r) in
      elim (Result-cases (server_cancel_order c id table).0) [
        | inl (m, f) ↦ rw (e, f, handle_order_cancel_client) done
        | inr (_, f) ↦ rw (e, f, handle_order_cancel_client) done
      ]
]
  where
    widen :
        (o p : Order)
        → (p ≡ o) ⊎ (((o.table_id ≡ table) × (o.status ≡ waiting)) × (p ≡ with_status cancelled o))
        → Rights table_client table o p
    widen o p (inl e) = inl e
    widen o p (inr ((t, w), e)) = inr (t, w, e)
