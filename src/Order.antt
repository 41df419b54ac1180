-- ===== src/Order.antt =====
-- include/order.h and src/order.c: a table's cart, the order that is built from it, and the search
-- in the array of orders.
pub mod Lines
pub mod Build
pub mod Search
pub mod Totals
use system_programming_team.Common.{
  CartItem, Order, OrderLineItem, OrderStatus, waiting, max_order_items, max_name,
}
use system_programming_team.Keyed.{find_index, update_first, remove_at}
use system_programming_team.Prelude.{
  ℕ, List, [], ◌∷◌, ◌++◌, Option, none, some, Result, ok, err, leb, if◌then◌else◌, length,
  get_elem?, ℤ, pos, leb_ℤ, add_int, mul_int,
}
use system_programming_team.Text.{codes, fit}

-- `count` is the length of `items`.
pub record Cart : Type 0 where
  pub items : List CartItem

abbrev pub cart_id : CartItem → ℤ
cart_id l = l.menu_id

unfoldable pub cart_init : Cart
cart_init = record { items = [] }

-- The line joins one of the same dish, whose name and price stay; else it goes to the end.
unfoldable pub cart_add : Cart → CartItem → Result Cart
unfolding update_first
cart_add cart line =
    if leb_ℤ line.qty (pos 0)
    then err (codes "bad qty")
    else elim (update_first cart_id (λ l. record l { qty = add_int l.qty line.qty }) line.menu_id
        cart.items) [
          | some items ↦ ok (record { items = items })
          | none ↦
              if leb max_order_items (length cart.items)
              then err (codes "cart full")
              else ok (record { items = cart.items ++ line ∷ [] })
        ]

-- The only failure, -1 with no message, is that no line has the id.
unfoldable pub cart_remove_line : Cart → ℤ → Option Cart
unfolding find_index
cart_remove_line cart menu_id = elim (find_index cart_id menu_id cart.items) [
  | none ↦ none
  | some i ↦ some (record { items = remove_at cart.items i })
]

-- The message stays as it was, here empty, where a line is to be removed and is not there.
unfoldable pub cart_set_qty : Cart → ℤ → ℤ → Result Cart
unfolding cart_remove_line update_first
cart_set_qty cart menu_id qty =
    if leb_ℤ qty (pos 0)
    then elim (cart_remove_line cart menu_id) [ none ↦ err [] | some c ↦ ok c ]
    else elim (update_first cart_id (λ l. record l { qty = qty }) menu_id cart.items) [
      | some items ↦ ok (record { items = items })
      | none ↦ err (codes "line not in cart")
    ]

unfoldable pub total_from : ℤ → List CartItem → ℤ
total_from t [] = t
total_from t (l ∷ ls) = total_from (add_int t (mul_int l.price l.qty)) ls

unfoldable pub cart_total : Cart → ℤ
unfolding total_from add_int mul_int
cart_total cart = total_from (pos 0) cart.items

abbrev pub line_item : CartItem → OrderLineItem
line_item l = record {
  menu_id = l.menu_id;
  name = fit max_name l.name;
  unit_price = l.price;
  qty = l.qty;
}

-- The loop of `order_build_from_cart` over the cart's lines.
unfoldable pub build_lines : List CartItem → Order → Result Order
build_lines [] out = ok out
build_lines (l ∷ ls) out =
    let rest = build_lines ls (record out {
      items = out.items ++ line_item l ∷ [];
      total_price = add_int out.total_price (mul_int l.price l.qty);
    }) in
    if leb max_order_items (length out.items) then err (codes "too many lines") else rest

-- `now` is what `time` returns.
unfoldable pub order_build_from_cart : ℤ → ℤ → Cart → ℤ → Result Order
unfolding build_lines add_int mul_int
order_build_from_cart order_id table_id cart now =
    if leb (length cart.items) 0
    then err (codes "empty cart")
    else build_lines cart.items (record {
      order_id = order_id;
      table_id = table_id;
      status = waiting;
      items = [];
      total_price = pos 0;
      created_at = now;
    })

unfoldable pub orders_reset : List Order → List Order
orders_reset orders = []

abbrev pub order_key : Order → ℤ
order_key o = o.order_id

unfoldable pub orders_find_index : List Order → ℤ → Option ℕ
unfolding find_index
orders_find_index orders order_id = find_index order_key order_id orders

-- The pointer that is returned is the index together with the order that stands there.
unfoldable pub orders_find : List Order → ℤ → Option (ℕ × Order)
unfolding orders_find_index
orders_find orders order_id = elim (orders_find_index orders order_id) [
  | none ↦ none
  | some i ↦ elim (get_elem? orders i) [ none ↦ none | some o ↦ some (i, o) ]
]
