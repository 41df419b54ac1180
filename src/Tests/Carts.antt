-- ===== src/Tests/Carts.antt =====
-- Carts and what a table sends.
use system_programming_team.Common.{max_order_items}
use system_programming_team.Keyed.{find, update_first}
use system_programming_team.Order.Lines.{IsValid, Added, cart_add-Added, cart_add-IsValid}
use system_programming_team.Order.Totals.{cart_total-exact}
use system_programming_team.Order.{Cart, cart_add, cart_total}
use system_programming_team.Os.{write_all}
use system_programming_team.Prelude.{
  ◌≡◌, refl, arith, ok, pos, [], ◌∷◌, ◌++◌, map, Lacks, Bytes, add_int, wrap, ◌+ℤ◌,
}
use system_programming_team.Protocol.Parse.{proto_parse_order_create}
use system_programming_team.Tests.{system, cart, soups, latte}
use system_programming_team.Ui.Ordering.{IsSendableCart, ui_submit_cart_order-read}
use system_programming_team.Ui.Ordering.Lines.{ordered, IsOrderable}
use system_programming_team.Ui.{ui_submit_cart_order}

pub cart-IsValid : IsValid cart
cart-IsValid = record {
  bounded = omega arith;
  distinct = ((λ e. absurd (ground arith), tt), (tt, tt));
  ordered = omega arith;
}

cart_add-Added_example : Added cart soups (cart_add cart soups)
cart_add-Added_example = cart_add-Added cart soups

abbrev more_soup : Cart
more_soup = record { items = record soups { qty = pos 4 } ∷ latte ∷ [] }

soup_added : cart_add cart soups ≡ ok more_soup
unfolding cart_add update_first add_int wrap ◌+ℤ◌
soup_added = refl

cart_add-IsValid_example : IsValid more_soup
cart_add-IsValid_example =
    cart_add-IsValid cart more_soup soups cart-IsValid
      (unfold find add_int wrap ◌+ℤ◌ in omega arith) soup_added

cart_total-exact_example : cart_total cart ≡ pos 11000
cart_total-exact_example = cart_total-exact cart (omega arith) (omega arith)

soups-IsOrderable : IsOrderable soups
soups-IsOrderable = record {
  menu_id = omega arith;
  menu_id_int = record { above = omega arith; below = omega arith };
  qty = omega arith;
  qty_int = record { above = omega arith; below = omega arith };
}

latte-IsOrderable : IsOrderable latte
latte-IsOrderable = record {
  menu_id = omega arith;
  menu_id_int = record { above = omega arith; below = omega arith };
  qty = omega arith;
  qty_int = record { above = omega arith; below = omega arith };
}

cart-IsSendableCart : IsSendableCart cart
cart-IsSendableCart = record {
  some_line = omega arith;
  bounded = omega arith;
  lines = (soups-IsOrderable, (latte-IsOrderable, tt));
}

ui_submit_cart_order-read_example :
    (text : Bytes) × Lacks b'\n' text
    × (proto_parse_order_create text max_order_items ≡ ok (pos 4, map ordered cart.items))
    × ((ui_submit_cart_order 5 (pos 4) cart 96 (system [])).3
        ≡ (write_all 5 (text ++ b'\n' ∷ []) (system [])).1)
    × ((ui_submit_cart_order 5 (pos 4) cart 96 (system [])).2.items ≡ [])
ui_submit_cart_order-read_example =
    ui_submit_cart_order-read 5 (pos 4) cart 96 (system []) (omega arith)
      (record { above = omega arith; below = omega arith }) cart-IsSendableCart
