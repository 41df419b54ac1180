-- ===== src/Order/Build.antt =====
-- What `order_build_from_cart` makes of a cart.
use system_programming_team.Common.{
  CartItem, OrderLineItem, Order, waiting, max_order_items, max_name,
}
use system_programming_team.Order.{
  Cart, line_item, build_lines, total_from, cart_total, order_build_from_cart,
}
use system_programming_team.Prelude.{
  refl, ap, ◌+◌, ◌≤◌, ◌<◌, ◌≡◌, List, [], ◌∷◌, ◌++◌, map, append-nil, append_assoc, ok, err, arith,
  length, length-append, ℤ, pos, add_int, mul_int,
}
use system_programming_team.Text.{codes, fit}

build_lines_lem :
    (ls : List CartItem) (out : Order)
    → length out.items + length ls ≤ max_order_items
    → build_lines ls out
      ≡ ok (record out {
        items = out.items ++ map line_item ls;
        total_price = total_from out.total_price ls;
      })
unfolding build_lines total_from
build_lines_lem [] out h = rw append-nil
build_lines_lem (l ∷ ls) out h = ground (
  arith,
  build_lines_lem ls (record out {
    items = out.items ++ line_item l ∷ [];
    total_price = add_int out.total_price (mul_int l.price l.qty);
  }),
  length-append out.items (line_item l ∷ []),
  append_assoc out.items (line_item l ∷ []) (map line_item ls),
)

-- The line of an order that a line of the cart stands for.
abbrev pub ordered_as : CartItem → OrderLineItem
ordered_as l = record {
  menu_id = l.menu_id;
  name = fit max_name l.name;
  unit_price = l.price;
  qty = l.qty;
}

line_item-ordered_as : (ls : List CartItem) → map line_item ls ≡ map ordered_as ls
line_item-ordered_as [] = refl
line_item-ordered_as (l ∷ ls) = ap (◌∷◌ (ordered_as l)) (line_item-ordered_as ls)

-- The order that a cart stands for.
abbrev pub order_of : ℤ → ℤ → Cart → ℤ → Order
order_of order_id table_id cart now = record {
  order_id = order_id;
  table_id = table_id;
  status = waiting;
  items = map ordered_as cart.items;
  total_price = cart_total cart;
  created_at = now;
}

-- A cart that holds at most `MAX_ORDER_ITEMS` lines is refused exactly if it is empty; otherwise
-- the order is WAITING, has the cart's lines in order with their dishes, prices and quantities and
-- with their names cut to the array, and its total is the cart's total.
pub order_build_from_cart_lem :
    (order_id table_id : ℤ) (cart : Cart) (now : ℤ)
    → length cart.items ≤ max_order_items
    → (length cart.items ≡ 0
        → order_build_from_cart order_id table_id cart now ≡ err (codes "empty cart"))
      × (0 < length cart.items
          → order_build_from_cart order_id table_id cart now
            ≡ ok (order_of order_id table_id cart now))
unfolding order_build_from_cart cart_total
order_build_from_cart_lem order_id table_id cart now h = (
  λ e. ground arith,
  λ lt. ground (
    arith,
    line_item-ordered_as cart.items,
    build_lines_lem cart.items (record {
      order_id = order_id;
      table_id = table_id;
      status = waiting;
      items = [];
      total_price = pos 0;
      created_at = now;
    }),
  ),
)
