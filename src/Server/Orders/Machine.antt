-- ===== src/Server/Orders/Machine.antt =====
-- The state machine of an order: what each operation may do to the orders.
pub mod Operations
pub mod Invariant
pub mod History
pub mod Results
pub mod Book
use system_programming_team.Common.{
  Order, OrderStatus, waiting, cooking, done, paid, cancelled, OrderLineItem,
}
use system_programming_team.Keyed.{find, update_first}
use system_programming_team.Order.{order_key}
use system_programming_team.Prelude.{
  ℕ, ◌≡◌, List, [], ◌∷◌, some, ℤ, pos, add_int, mul_int, ◌≢◌, ◌<◌, length,
}
use system_programming_team.Server.Orders.{push_order_locked}
use system_programming_team.Server.{ServerContext}

-- The moves of an order: between the kitchen's states, cancelled while it waits, paid when done.
pub data Moves : OrderStatus → OrderStatus → Type 0 where
  start : Moves waiting cooking
  finish : Moves cooking done
  skip : Moves waiting done
  reopen : Moves done cooking
  put_back : Moves cooking waiting
  cancel : Moves waiting cancelled
  pay : Moves done paid

-- The sum of price times quantity over an order's lines, in `int`.
abbrev pub lines_total : ℤ → List OrderLineItem → ℤ
lines_total t [] = t
lines_total t (l ∷ ls) = lines_total (add_int t (mul_int l.unit_price l.qty)) ls

-- A new order of the server: it waits, it has a line, and its total is that of its lines.
pub record IsNew (id : ℤ) (o : Order) : Type 0 where
  pub identity : o.order_id ≡ id
  pub status : o.status ≡ waiting
  pub total : o.total_price ≡ lines_total (pos 0) o.items
  pub has_line : 0 < length o.items

abbrev pub with_status : OrderStatus → Order → Order
with_status st o = record o { status = st }

-- What an operation may do to the orders and to the next id: nothing, one new order at the end
-- under the next id, or one move of one order.
pub data Change (c d : ServerContext) : Type 0 where
  same : d.orders ≡ c.orders → d.cfg.next_order_id ≡ c.cfg.next_order_id → Change c d
  created :
      (o : Order)
      → push_order_locked c.orders o ≡ some d.orders
      → IsNew c.cfg.next_order_id o
      → d.cfg.next_order_id ≡ add_int c.cfg.next_order_id (pos 1)
      → Change c d
  moved :
      (id : ℤ) (o : Order) (st : OrderStatus)
      → find order_key id c.orders ≡ some o
      → Moves o.status st
      → update_first order_key (with_status st) id c.orders ≡ some d.orders
      → d.cfg.next_order_id ≡ c.cfg.next_order_id
      → Change c d
