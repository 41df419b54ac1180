-- ===== src/Server/Orders/Machine/Book.antt =====
-- The orders of src/server.c as a book that says what order an id has, and moves in the book.
use system_programming_team.Common.{Order, OrderStatus, waiting, cooking, done, paid, cancelled}
use system_programming_team.Keyed.{find}
use system_programming_team.Keyed.Laws.{find-update_first}
use system_programming_team.Order.{order_key}
use system_programming_team.Prelude.{
  ◌≡◌, ◌≢◌, refl, sym, ap, subst, ◌∙◌, Bool, true, false, not, ◌&&◌, Option, none, some, Result,
  arith, if◌then◌else◌, ℤ, eqb_ℤ, eqb_ℤ→eq, eqb_ℤ_self, Bool-cases, inl, inr,
}
use system_programming_team.Server.Orders.Machine.Results.{
  Performs, ByKitchen, server_pay_order-Performs, server_cancel_order-Performs,
  server_update_order_status-Performs,
}
use system_programming_team.Server.Orders.Machine.{with_status}
use system_programming_team.Server.Orders.{
  is_paid, is_done, is_waiting, valid_kitchen_transition, server_pay_order, server_cancel_order,
  server_update_order_status,
}
use system_programming_team.Server.{ServerContext}

-- What order stands under an id.
abbrev pub Book : Type 0
Book = ℤ → Option Order

abbrev pub book : ServerContext → Book
book c k = find order_key k c.orders

abbrev pub moved_order : (Order → Bool) → OrderStatus → Option Order → Option Order
moved_order allowed st none = none
moved_order allowed st (some o) = some (if allowed o then record o { status = st } else o)

-- The order with the id gets the state, if that is allowed; all others stay.
abbrev pub move : (Order → Bool) → OrderStatus → ℤ → Book → Book
move allowed st id b k = if eqb_ℤ id k then moved_order allowed st (b id) else b k

Performs-move :
    (Allowed : Order → Type 0) (allowed : Order → Bool) (st : OrderStatus) (c : ServerContext)
    (id : ℤ) (r : Result (Unit {0}) × ServerContext)
    → ((o : Order) → Allowed o → allowed o ≡ true)
    → ((o : Order) → allowed o ≡ true → Allowed o)
    → Performs Allowed st c id r
    → (k : ℤ) → book r.1 k ≡ move allowed st id (book c) k
Performs-move Allowed allowed st c id r to from (inl (o, f, a, _, up, _)) k =
    let put = with_status st in
    let yes : moved_order allowed st (some o) ≡ some (put o) =
      ap (λ b. some (if b then put o else o)) (to o a) in
    find-update_first order_key put id (λ x _. refl) k c.orders r.1.orders up
    ∙ ap (λ x. if eqb_ℤ id k then x else book c k)
        (ap (λ x. elim x as (λ _. Option Order) [ none ↦ none | some y ↦ some (put y) ]) f
          ∙ sym yes
          ∙ sym (ap (moved_order allowed st) f))
Performs-move Allowed allowed st c id r to from (inr (never, (e, q))) k =
    ap (λ x. book x.1 k) q ∙ sym (stays (eqb_ℤ id k) (λ t. eqb_ℤ→eq id k t))
  where
    refused : (x : Option Order) → book c id ≡ x → moved_order allowed st x ≡ x
    refused none f = refl
    refused (some o) f = elim (Bool-cases (allowed o)) [
      | inl y ↦ absurd (never o f (from o y))
      | inr n ↦ ap (λ b. some (if b then record o { status = st } else o)) n
    ]

    stays :
        (b : Bool)
        → (b ≡ true → id ≡ k)
        → (if b then moved_order allowed st (book c id) else book c k) ≡ book c k
    stays true same = refused (book c id) refl ∙ ap (book c) (same refl)
    stays false same = refl

abbrev pub may_cancel : ℤ → Order → Bool
may_cancel table o = eqb_ℤ o.table_id table && is_waiting o.status

abbrev pub may_update : OrderStatus → Order → Bool
may_update st o = not (is_paid o.status) && valid_kitchen_transition o.status st

is_done_lem : (s : OrderStatus) → (s ≡ done → is_done s ≡ true) × (is_done s ≡ true → s ≡ done)
is_done_lem s = ((λ e. ap is_done e), λ h. ground arith)

is_waiting_lem :
    (s : OrderStatus) → (s ≡ waiting → is_waiting s ≡ true) × (is_waiting s ≡ true → s ≡ waiting)
is_waiting_lem s = ((λ e. ap is_waiting e), λ h. ground arith)

unpaid_lem : (s : OrderStatus) → (s ≢ paid → is_paid s ≡ false) × (is_paid s ≡ false → s ≢ paid)
unpaid_lem s = (to s, λ h e. ground (arith, ap is_paid e, h))
  where
    to : (s : OrderStatus) → s ≢ paid → is_paid s ≡ false
    to waiting n = refl
    to cooking n = refl
    to done n = refl
    to paid n = absurd (n refl)
    to cancelled n = refl

-- In the book of orders, each operation on one order is a move: paying moves a done order to PAID,
-- cancelling a waiting order of the table to CANCELLED, and a kitchen's update an order that is not
-- paid to the state asked for, if the kitchen may make that move; every other order stays.
pub server_orders-move :
    (c : ServerContext) (id table : ℤ) (st : OrderStatus) (k : ℤ)
    → (book (server_pay_order c id).1 k ≡ move (λ o. is_done o.status) paid id (book c) k)
      × (book (server_cancel_order c id table).1 k
          ≡ move (may_cancel table) cancelled id (book c) k)
      × (book (server_update_order_status c id st).1 k ≡ move (may_update st) st id (book c) k)
server_orders-move c id table st k = (
  Performs-move (λ o. o.status ≡ done) (λ o. is_done o.status) paid c id (server_pay_order c id)
      (λ o. (is_done_lem o.status).0) (λ o. (is_done_lem o.status).1)
      (server_pay_order-Performs c id) k,
  Performs-move (λ o. (o.table_id ≡ table) × (o.status ≡ waiting)) (may_cancel table) cancelled c id
      (server_cancel_order c id table) (λ o h. cancel_to o h) (λ o h. cancel_from o h)
      (server_cancel_order-Performs c id table) k,
  Performs-move (λ o. (o.status ≢ paid) × ByKitchen o.status st) (may_update st) st c id
      (server_update_order_status c id st) (λ o h. update_to o h) (λ o h. update_from o h)
      (server_update_order_status-Performs c id st) k,
)
  where
    cancel_to :
        (o : Order) → (o.table_id ≡ table) × (o.status ≡ waiting) → may_cancel table o ≡ true
    cancel_to o (t, s) =
        let e : eqb_ℤ o.table_id table ≡ true =
          subst (λ j. eqb_ℤ o.table_id j ≡ true) t (eqb_ℤ_self o.table_id) in
        rw e ((is_waiting_lem o.status).0 s)

    cancel_from :
        (o : Order) → may_cancel table o ≡ true → (o.table_id ≡ table) × (o.status ≡ waiting)
    cancel_from o h = elim (Bool-cases (eqb_ℤ o.table_id table)) [
      | inr e ↦ absurd (ground (arith, e, h))
      | inl e ↦ (eqb_ℤ→eq o.table_id table e, (is_waiting_lem o.status).1 (ground (arith, e, h)))
    ]

    update_to : (o : Order) → (o.status ≢ paid) × ByKitchen o.status st → may_update st o ≡ true
    update_to o (n, v) = let e = (unpaid_lem o.status).0 n in rw e v

    update_from : (o : Order) → may_update st o ≡ true → (o.status ≢ paid) × ByKitchen o.status st
    update_from o h = elim (Bool-cases (is_paid o.status)) [
      | inl e ↦ absurd (ground (arith, e, h))
      | inr e ↦ ((unpaid_lem o.status).1 e, ground (arith, e, h))
    ]
