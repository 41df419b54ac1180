-- ===== src/Server/Orders/Machine/Results.antt =====
-- The result of each operation on one order, on every branch.
use system_programming_team.Common.{Order, OrderStatus, waiting, done, paid, cancelled}
use system_programming_team.Keyed.{find, update_first}
use system_programming_team.Order.{order_key}
use system_programming_team.Prelude.{
  ◌≡◌, ◌≢◌, refl, subst, none, some, Result, ok, err, true, false, arith, Bytes, ℤ, pos, add_int,
  eqb_ℤ, eqb_ℤ→eq, eqb_ℤ_self, Bool-cases, inl, inr, ◌⊎◌,
}
use system_programming_team.Server.Orders.Machine.Operations.{server_get_order-Gets}
use system_programming_team.Server.Orders.Machine.{with_status}
use system_programming_team.Server.Orders.{
  valid_kitchen_transition, server_update_order_status, server_cancel_order, server_pay_order,
  is_paid, is_done, is_waiting,
}
use system_programming_team.Server.{ServerContext}
use system_programming_team.Text.{codes}

-- An operation that moves the order `id` to `st` if `Allowed` holds of the order. If the order is
-- there and allowed, it succeeds, the order has the state, and the revision goes up by one;
-- otherwise it fails and changes nothing at all.
abbrev pub Performs :
    (Order → Type 0) → OrderStatus → ServerContext → ℤ → Result (Unit {0}) × ServerContext → Type 0
Performs Allowed st c id r =
    ((o : Order) × (find order_key id c.orders ≡ some o)
      × Allowed o
      × (r.0 ≡ ok tt)
      × (update_first order_key (with_status st) id c.orders ≡ some r.1.orders)
      × (r.1.orders_revision ≡ add_int c.orders_revision (pos 1)))
    ⊎ (((o : Order) → find order_key id c.orders ≡ some o → ¬ Allowed o)
        × ((e : Bytes) × (r ≡ (err e, c))))

-- The moves that the kitchen may make.
abbrev pub ByKitchen : OrderStatus → OrderStatus → Type 0
ByKitchen a b = valid_kitchen_transition a b ≡ true

paid_lem : (a : OrderStatus) → is_paid a ≡ true → a ≡ paid
paid_lem a h = ground arith

not_paid : (a : OrderStatus) → is_paid a ≡ false → a ≢ paid
not_paid a h = ground arith

waiting_lem : (a : OrderStatus) → is_waiting a ≡ true → a ≡ waiting
waiting_lem a h = ground arith

not_waiting : (a : OrderStatus) → is_waiting a ≡ false → a ≢ waiting
not_waiting a h = ground arith

done_lem : (a : OrderStatus) → is_done a ≡ true → a ≡ done
done_lem a h = ground arith

not_done : (a : OrderStatus) → is_done a ≡ false → a ≢ done
not_done a h = ground arith

other_table : (o : Order) (t : ℤ) → eqb_ℤ o.table_id t ≡ false → o.table_id ≢ t
other_table o t h e = ground (arith, eqb_ℤ_self t)

absent :
    (c : ServerContext) (id : ℤ) (A : Order → Type 0)
    → find order_key id c.orders ≡ none
    → (o : Order) → find order_key id c.orders ≡ some o
    → ¬ A o
absent c id A e o f a = cc

-- An order that is found is the only one found.
refused :
    (c : ServerContext) (id : ℤ) (A : Order → Type 0) (p : Order)
    → find order_key id c.orders ≡ some p
    → ¬ A p
    → (o : Order) → find order_key id c.orders ≡ some o
    → ¬ A o
refused c id A p g n o f a = let e : o ≡ p = ground arith in n (subst A e a)

-- A kitchen's update succeeds exactly if the order is there, is not paid, and the move is one of
-- the kitchen's; then of the orders only that one's state changes, and the revision goes up by one,
-- else nothing changes.
pub server_update_order_status-Performs :
    (c : ServerContext) (id : ℤ) (st : OrderStatus)
    → Performs
        (λ o. (o.status ≢ paid) × ByKitchen o.status st)
        st
        c
        id
        (server_update_order_status c id st)
unfolding server_update_order_status
server_update_order_status-Performs c id st = elim (server_get_order-Gets c id) [
  | inl (e, n) ↦
      rw (e, server_update_order_status)
        (inr (
          absent c id (λ o. (o.status ≢ paid) × ByKitchen o.status st) n,
          (codes "order not found", refl),
        ))
  | inr (i, o, e, f, u) ↦ elim (Bool-cases (is_paid o.status)) [
    | inl p ↦
        rw (e, p, server_update_order_status)
          (inr (refused c id _ o f (λ h. h.0 (paid_lem o.status p)), (codes "already paid", refl)))
    | inr p ↦ elim (Bool-cases (valid_kitchen_transition o.status st)) [
      | inr v ↦
          rw (e, p, v, server_update_order_status)
            (inr (refused c id _ o f (λ h. cc), (codes "invalid transition", refl)))
      | inl v ↦
          rw (e, p, v, server_update_order_status)
            (inl (o, f, (not_paid o.status p, v), refl, u st, refl))
    ]
  ]
]

-- A cancellation succeeds exactly if the order is there, is of the table that asks, and waits; then
-- of the orders only that one changes, to CANCELLED, and the revision goes up by one, else nothing
-- changes.
pub server_cancel_order-Performs :
    (c : ServerContext) (id table : ℤ)
    → Performs
        (λ o. (o.table_id ≡ table) × (o.status ≡ waiting))
        cancelled
        c
        id
        (server_cancel_order c id table)
unfolding server_cancel_order
server_cancel_order-Performs c id table = elim (server_get_order-Gets c id) [
  | inl (e, n) ↦
      rw (e, server_cancel_order) (inr (absent c id _ n, (codes "order not found", refl)))
  | inr (i, o, e, f, u) ↦ elim (Bool-cases (eqb_ℤ o.table_id table)) [
    | inr p ↦
        rw (e, p, server_cancel_order)
          (inr
            (refused c id _ o f (λ h. other_table o table p h.0), (codes "table mismatch", refl)))
    | inl p ↦ elim (Bool-cases (is_waiting o.status)) [
      | inr v ↦
          rw (e, p, v, server_cancel_order)
            (inr (
              refused c id _ o f (λ h. not_waiting o.status v h.1),
              (codes "cannot cancel after cooking started", refl),
            ))
      | inl v ↦
          rw (e, p, v, server_cancel_order)
            (inl (
              o,
              f,
              (eqb_ℤ→eq o.table_id table p, waiting_lem o.status v),
              refl,
              u cancelled,
              refl,
            ))
    ]
  ]
]

-- A payment succeeds exactly if the order is there and is done; then of the orders only that one
-- changes, to PAID, and the revision goes up by one, else nothing changes.
pub server_pay_order-Performs :
    (c : ServerContext) (id : ℤ) → Performs (λ o. o.status ≡ done) paid c id (server_pay_order c id)
unfolding server_pay_order
server_pay_order-Performs c id = elim (server_get_order-Gets c id) [
  | inl (e, n) ↦ rw (e, server_pay_order) (inr (absent c id _ n, (codes "order not found", refl)))
  | inr (i, o, e, f, u) ↦ elim (Bool-cases (is_done o.status)) [
    | inr v ↦
        rw (e, v, server_pay_order)
          (inr (refused c id _ o f (λ h. not_done o.status v h), (codes "not DONE", refl)))
    | inl v ↦ rw (e, v, server_pay_order) (inl (o, f, done_lem o.status v, refl, u paid, refl))
  ]
]
