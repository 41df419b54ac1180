-- ===== src/Server/Orders/Machine/Operations.antt =====
-- The operations on the orders of src/server.c and the state machine.
use system_programming_team.Common.{
  Order, OrderStatus, waiting, cooking, done, paid, cancelled, CartItem, OrderLineItem,
}
use system_programming_team.Keyed.{find, find_index, update_first}
use system_programming_team.Keyed.Laws.{find_index-some, find_index-find, update_first-set}
use system_programming_team.Order.{
  Cart, order_key, orders_find_index, orders_find, order_build_from_cart, build_lines, line_item,
}
use system_programming_team.Os.{World, time}
use system_programming_team.Prelude.{
  ℕ, ◌+◌, ◌≡◌, refl, sym, ap, ◌∙◌, List, [], ◌∷◌, ◌++◌, Option, none, some, ok, true, ◌||◌, arith,
  leb, length, length-append, set, ℤ, pos, leb_ℤ, ltb_ℤ, eqb_ℤ, add_int, mul_int, Bool-cases,
  Option-cases, Result-cases, inl, inr, ◌⊎◌,
}
use system_programming_team.Server.Orders.Machine.{
  Moves, start, finish, skip, reopen, put_back, cancel, pay, Change, same, created, moved, IsNew,
  lines_total, with_status,
}
use system_programming_team.Server.Orders.{
  server_get_order, valid_kitchen_transition, server_update_order_status, server_cancel_order,
  server_pay_order, server_create_order, record_order, announce, push_order_locked, is_paid,
  is_done, is_waiting, log_orders, created_head,
}
use system_programming_team.Server.{
  ServerContext, with_world, server_save_config, server_touch_orders, config_path,
}
use system_programming_team.Storage.{storage_save_config}

pub announce_lem :
    (o : Order) (c : ServerContext)
    → ((announce o c).orders ≡ c.orders) × ((announce o c).cfg ≡ c.cfg)
unfolding announce server_touch_orders
announce_lem o c = (refl, refl)

pub server_save_config_lem :
    (c : ServerContext)
    → ((server_save_config c).orders ≡ c.orders) × ((server_save_config c).cfg ≡ c.cfg)
unfolding server_save_config
server_save_config_lem c = elim (Option-cases (storage_save_config config_path c.cfg c.world)) [
  | inl e ↦ rw (e, server_save_config) (refl, refl)
  | inr (r, e) ↦ rw (e, server_save_config) (refl, refl)
]

-- What `server_get_order` returns: nothing, or a pointer to the first order with the id.
abbrev pub Gets : ServerContext → ℤ → Option (ℕ × Order) → Type 0
Gets c id r =
    ((r ≡ none) × (find order_key id c.orders ≡ none))
    ⊎ ((i : ℕ) × (o : Order) × (r ≡ some (i, o))
        × (find order_key id c.orders ≡ some o)
        × ((st : OrderStatus)
            → update_first order_key (with_status st) id c.orders
              ≡ some (set c.orders i (with_status st o))))

pub server_get_order-Gets : (c : ServerContext) (id : ℤ) → Gets c id (server_get_order c id)
unfolding server_get_order orders_find orders_find_index
server_get_order-Gets c id = elim (Option-cases (find_index order_key id c.orders)) [
  | inl e ↦ inl (ground arith, find_index-find order_key id c.orders e)
  | inr (i, e) ↦
      let (o, g, _, f) = find_index-some order_key id c.orders i e in
      inr (
        i,
        o,
        ground arith,
        f,
        λ st. update_first-set order_key (with_status st) id c.orders i o e g,
      )
]

pub kitchen-Moves : (a b : OrderStatus) → valid_kitchen_transition a b ≡ true → Moves a b
unfolding valid_kitchen_transition
kitchen-Moves waiting cooking h = start
kitchen-Moves waiting done h = skip
kitchen-Moves cooking done h = finish
kitchen-Moves cooking waiting h = put_back
kitchen-Moves done cooking h = reopen
kitchen-Moves waiting waiting h = absurd (cc)
kitchen-Moves waiting paid h = absurd (cc)
kitchen-Moves waiting cancelled h = absurd (cc)
kitchen-Moves cooking cooking h = absurd (cc)
kitchen-Moves cooking paid h = absurd (cc)
kitchen-Moves cooking cancelled h = absurd (cc)
kitchen-Moves done waiting h = absurd (cc)
kitchen-Moves done done h = absurd (cc)
kitchen-Moves done paid h = absurd (cc)
kitchen-Moves done cancelled h = absurd (cc)
kitchen-Moves paid b h = absurd (ground arith)
kitchen-Moves cancelled b h = absurd (ground arith)

waiting-Moves : (a : OrderStatus) → is_waiting a ≡ true → Moves a cancelled
waiting-Moves waiting h = cancel
waiting-Moves cooking h = absurd (cc)
waiting-Moves done h = absurd (cc)
waiting-Moves paid h = absurd (cc)
waiting-Moves cancelled h = absurd (cc)

done-Moves : (a : OrderStatus) → is_done a ≡ true → Moves a paid
done-Moves done h = pay
done-Moves waiting h = absurd (cc)
done-Moves cooking h = absurd (cc)
done-Moves paid h = absurd (cc)
done-Moves cancelled h = absurd (cc)

lines_total-append :
    (t : ℤ) (ls : List OrderLineItem) (l : OrderLineItem)
    → lines_total t (ls ++ l ∷ []) ≡ add_int (lines_total t ls) (mul_int l.unit_price l.qty)
lines_total-append t [] l = refl
lines_total-append t (x ∷ ls) l = lines_total-append (add_int t (mul_int x.unit_price x.qty)) ls l

pub server_update_order_status-Change :
    (c : ServerContext) (id : ℤ) (st : OrderStatus)
    → Change c (server_update_order_status c id st).1
unfolding server_update_order_status
server_update_order_status-Change c id st = elim (server_get_order-Gets c id) [
  | inl (e, _) ↦ rw (e, server_update_order_status) (same refl refl)
  | inr (i, o, e, f, u) ↦ elim (Bool-cases (is_paid o.status)) [
    | inl p ↦ rw (e, p, server_update_order_status) (same refl refl)
    | inr p ↦ elim (Bool-cases (valid_kitchen_transition o.status st)) [
      | inr v ↦ rw (e, p, v, server_update_order_status) (same refl refl)
      | inl v ↦
          rw (e, p, v, server_update_order_status)
            (moved id o st f (kitchen-Moves o.status st v) (u st) refl)
    ]
  ]
]

pub server_cancel_order-Change :
    (c : ServerContext) (id table : ℤ) → Change c (server_cancel_order c id table).1
unfolding server_cancel_order
server_cancel_order-Change c id table = elim (server_get_order-Gets c id) [
  | inl (e, _) ↦ rw (e, server_cancel_order) (same refl refl)
  | inr (i, o, e, f, u) ↦ elim (Bool-cases (eqb_ℤ o.table_id table)) [
    | inr p ↦ rw (e, p, server_cancel_order) (same refl refl)
    | inl p ↦ elim (Bool-cases (is_waiting o.status)) [
      | inr v ↦ rw (e, p, v, server_cancel_order) (same refl refl)
      | inl v ↦
          rw (e, p, v, server_cancel_order)
            (moved id o cancelled f (waiting-Moves o.status v) (u cancelled) refl)
    ]
  ]
]

pub server_pay_order-Change : (c : ServerContext) (id : ℤ) → Change c (server_pay_order c id).1
unfolding server_pay_order
server_pay_order-Change c id = elim (server_get_order-Gets c id) [
  | inl (e, _) ↦ rw (e, server_pay_order) (same refl refl)
  | inr (i, o, e, f, u) ↦ elim (Bool-cases (is_done o.status)) [
    | inr v ↦ rw (e, v, server_pay_order) (same refl refl)
    | inl v ↦ rw (e, v, server_pay_order) (moved id o paid f (done-Moves o.status v) (u paid) refl)
  ]
]

build_lines-total :
    (ls : List CartItem) (out o : Order)
    → build_lines ls out ≡ ok o
    → (o.order_id ≡ out.order_id)
      × (o.status ≡ out.status)
      × (lines_total (pos 0) out.items ≡ out.total_price
          → lines_total (pos 0) o.items ≡ o.total_price)
      × (length o.items ≡ length out.items + length ls)
unfolding build_lines
build_lines-total [] out o h = ground arith
build_lines-total (l ∷ ls) out o h = ground (
  arith,
  build_lines-total ls
      (record out {
        items = out.items ++ line_item l ∷ [];
        total_price = add_int out.total_price (mul_int l.price l.qty);
      })
      o,
  lines_total-append (pos 0) out.items (line_item l),
  length-append out.items (line_item l ∷ []),
)

pub order_build-IsNew :
    (id table : ℤ) (cart : Cart) (now : ℤ) (o : Order)
    → order_build_from_cart id table cart now ≡ ok o
    → IsNew id o
unfolding order_build_from_cart
order_build-IsNew id table cart now o h = elim (Bool-cases (leb (length cart.items) 0)) [
  | inl e ↦ absurd (ground arith)
  | inr e ↦
      let out : Order = record {
        order_id = id;
        table_id = table;
        status = waiting;
        items = [];
        total_price = pos 0;
        created_at = now;
      } in
      let b : build_lines cart.items out ≡ ok o = ground arith in
      let (i, s, t, n) = build_lines-total cart.items out o b in
      record { identity = i; status = s; total = sym (t refl); has_line = ground arith }
]

pub record_order-Change :
    (c : ServerContext) (o : Order) (orders : List Order)
    → push_order_locked c.orders o ≡ some orders
    → IsNew c.cfg.next_order_id o
    → Change c (record_order o orders c)
unfolding record_order
record_order-Change c o orders p new =
    let d : ServerContext = record c {
      orders = orders;
      cfg = record c.cfg { next_order_id = add_int c.cfg.next_order_id (pos 1) };
      world = log_orders (created_head o) c.world;
    } in
    created o (p ∙ ap some (sym (server_save_config_lem d).0)) new
      (ap (λ k. k.next_order_id) (server_save_config_lem d).1)

-- What happens to the world before is no matter.
pub Change-world :
    (c : ServerContext) (w : World) {d : ServerContext} → Change (with_world c w) d → Change c d
Change-world c w (same p q) = same p q
Change-world c w (created o p n q) = created o p n q
Change-world c w (moved id o st f m u q) = moved id o st f m u q

pub server_create_order-Change :
    (c : ServerContext) (table : ℤ) (cart : Cart) → Change c (server_create_order c table cart).1
unfolding server_create_order
server_create_order-Change c table cart =
    elim (Bool-cases (leb_ℤ table (pos 0) || ltb_ℤ c.cfg.max_tables table)) [
      | inl e ↦ rw (e, server_create_order) (same refl refl)
      | inr e ↦
          let w = (time c.world).1 in
          let built = order_build_from_cart c.cfg.next_order_id table cart (pos (time c.world).0) in
          elim (Result-cases built) [
            | inl (m, b) ↦ rw (e, b, server_create_order) (same refl refl)
            | inr (o, b) ↦ elim (Option-cases (push_order_locked c.orders o)) [
              | inl n ↦ rw (e, b, n, server_create_order) (same refl refl)
              | inr (orders, p) ↦
                  rw (e, b, p, server_create_order)
                    (Change-world c w (
                      record_order-Change (with_world c w) o orders p
                        (order_build-IsNew _ table cart _ o b)))
            ]
          ]
    ]
