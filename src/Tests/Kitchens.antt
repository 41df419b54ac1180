-- ===== src/Tests/Kitchens.antt =====
-- The kitchen's board.
use system_programming_team.Common.{Order, kitchen_client, waiting, status_to_string}
use system_programming_team.Order.{order_build_from_cart, build_lines, cart_total, total_from}
use system_programming_team.Os.{time}
use system_programming_team.Server.{server_save_config, send_snapshot_locked}
use system_programming_team.Server.Orders.{
  server_create_order, push_order_locked, record_order, announce,
}
use system_programming_team.Protocol.{item_payload, sanitize_field, event_head}
use system_programming_team.Protocol.Event.RoundTrip.Text.{IsSendableOrder}
use system_programming_team.Text.{codes, show, show_nat, digits}
use system_programming_team.Keyed.{find}
use system_programming_team.Order.{order_key}
use system_programming_team.Prelude.{
  ◌≤◌, ◌++◌, length, subst, sym, refl, All, add_int, mul_int, wrap, ◌+ℤ◌, ◌≡◌, ◌⊎◌, ℤ, arith, map,
  none, pos, [], ◌∷◌,
}
use system_programming_team.Os.Laws.{stream}
use system_programming_team.Tests.Messages.{order-IsSendableOrder}
use system_programming_team.Tests.Screens.{order-IsKnown}
use system_programming_team.Tests.{order, serving, cart, system}
use system_programming_team.Tests.Orders.{started-Starts, created_one}
use system_programming_team.Ui.Kitchen.Serving.{Accepted, greeted-Accepted}
use system_programming_team.Ui.Rounds.{key_right}
use system_programming_team.Server.Session.Steps.{here, next, creates}
use system_programming_team.Ui.Kitchen.Boards.{
  greeted, joined, open_orders, seen, kitchen_drain-snapshot,
}
use system_programming_team.Ui.Kitchen.Mirroring.{
  event_message, latest, kitchen_drain-length, kitchen_drain-mirrors,
}
use system_programming_team.Ui.Kitchen.Updates.{IsBoard}
use system_programming_team.Ui.Kitchen.{kitchen_drain, kitchen_key}

kitchen_drain-mirrors_example :
    find order_key (pos 1) (kitchen_drain (map event_message (order ∷ [])) [])
    ≡ latest (pos 1) (order ∷ []) none
kitchen_drain-mirrors_example =
    kitchen_drain-mirrors (order ∷ []) [] (pos 1) (order-IsSendableOrder, tt)
      (omega (arith, (kitchen_drain-length (order ∷ []) [] (order-IsSendableOrder, tt)).1))

kitchen_drain-snapshot_example :
    (stream 5 (send_snapshot_locked serving.orders 5 kitchen_client (pos 0) (system [])).sent
      ≡ stream 5 [] ++ joined (map event_message (open_orders serving.orders)))
    × IsBoard (greeted serving.orders)
    × ((k : ℤ)
        → find order_key k (greeted serving.orders) ≡ seen (find order_key k serving.orders) none)
kitchen_drain-snapshot_example =
    kitchen_drain-snapshot serving.orders 5 (pos 0) (system []) (tt, tt) (order-IsSendableOrder, tt)
      ((omega arith, order-IsKnown), tt) (omega arith) tt

-- The order that the server makes of the cart.
abbrev made : Order
made = record {
  order_id = pos 1;
  table_id = pos 4;
  status = waiting;
  items =
      record { menu_id = pos 3; name = codes "Miso Soup"; unit_price = pos 3000; qty = pos 2 }
      ∷ record { menu_id = pos 5; name = codes "Latte"; unit_price = pos 5000; qty = pos 1 }
      ∷ [];
  total_price = pos 11000;
  created_at = pos 1700000000;
}

created_orders : created_one.orders ≡ made ∷ []
unfolding server_create_order order_build_from_cart build_lines cart_total total_from
    push_order_locked record_order announce server_save_config add_int mul_int wrap ◌+ℤ◌ time
created_orders = refl

made-IsSendableOrder : IsSendableOrder made
unfolding item_payload show show_nat digits sanitize_field event_head status_to_string
made-IsSendableOrder = record {
  order_id = record { above = omega arith; below = omega arith };
  table_id = record { above = omega arith; below = omega arith };
  total_price = record { above = omega arith; below = omega arith };
  created_at = (omega arith, omega arith);
  count = omega arith;
  items = (
    record {
      menu_id = record { above = omega arith; below = omega arith };
      qty = record { above = omega arith; below = omega arith };
      unit_price = record { above = omega arith; below = omega arith };
      name = λ e. cc;
      name_fits = omega arith;
      short = omega arith;
    },
    (
      record {
        menu_id = record { above = omega arith; below = omega arith };
        qty = record { above = omega arith; below = omega arith };
        unit_price = record { above = omega arith; below = omega arith };
        name = λ e. cc;
        name_fits = omega arith;
        short = omega arith;
      },
      tt,
    ),
  );
  short = omega arith;
}

greeted-Accepted_example :
    ((kitchen_key 5 key_right (greeted created_one.orders) 0 (system [])).1 ≡ system [])
    ⊎ Accepted 5 created_one
        (system [])
        (kitchen_key 5 key_right (greeted created_one.orders) 0 (system [])).1
greeted-Accepted_example =
    greeted-Accepted 5 key_right 0 (system []) started-Starts (next here (creates (pos 4) cart))
      (subst (All IsSendableOrder) (sym created_orders) (made-IsSendableOrder, tt))
      (subst (λ os. length (open_orders os) ≤ 128) (sym created_orders) (omega arith))
