-- ===== src/Tests/Orders.antt =====
-- Orders and the server's steps.
use system_programming_team.Common.{waiting, cooking, done, paid, cancelled}
use system_programming_team.Keyed.{find}
use system_programming_team.Order.Build.{order_build_from_cart_lem, order_of}
use system_programming_team.Order.{order_key, order_build_from_cart}
use system_programming_team.Prelude.{◌⊎◌, ◌<◌, ◌≡◌, ◌≢◌, refl, arith, length, some, ok, err, pos}
use system_programming_team.Server.Orders.Machine.History.{Later}
use system_programming_team.Server.Orders.Machine.Invariant.{Inv}
use system_programming_team.Server.Orders.Machine.Results.{
  Performs, ByKitchen, server_update_order_status-Performs, server_cancel_order-Performs,
  server_pay_order-Performs,
}
use system_programming_team.Server.Orders.{
  server_create_order, server_update_order_status, server_cancel_order, server_pay_order,
}
use system_programming_team.Server.Session.Steps.{
  Starts, here, next, creates, updates, pays, Reach-Inv, Reach-Later,
}
use system_programming_team.Server.{ServerContext}
use system_programming_team.Tests.{cart, order, started, serving}
use system_programming_team.Text.{codes}

pub started-Starts : Starts started
started-Starts = record { empty = refl; positive = omega arith; room = omega arith }

abbrev pub created_one : ServerContext
created_one = (server_create_order started (pos 4) cart).1

abbrev done_one : ServerContext
done_one = (server_update_order_status created_one (pos 1) done).1

Reach-Inv_example : Inv (server_pay_order done_one (pos 1)).1
Reach-Inv_example =
    Reach-Inv started-Starts
      (next (next (next here (creates (pos 4) cart)) (updates (pos 1) done)) (pays (pos 1)))

order_found : find order_key (pos 1) serving.orders ≡ some order
unfolding find
order_found = refl

Reach-Later_example :
    (p : _) × (find order_key (pos 1) (server_update_order_status serving (pos 1) cooking).1.orders
      ≡ some p)
    × Later order p
    × ((order.status ≡ paid) ⊎ (order.status ≡ cancelled) → p.status ≡ order.status)
Reach-Later_example = Reach-Later (next here (updates (pos 1) cooking)) (pos 1) order order_found

server_update_order_status-Performs_example :
    Performs
      (λ o. (o.status ≢ paid) × ByKitchen o.status cooking)
      cooking
      serving
      (pos 1)
      (server_update_order_status serving (pos 1) cooking)
server_update_order_status-Performs_example =
    server_update_order_status-Performs serving (pos 1) cooking

server_cancel_order-Performs_example :
    Performs
      (λ o. (o.table_id ≡ pos 4) × (o.status ≡ waiting))
      cancelled
      serving
      (pos 1)
      (server_cancel_order serving (pos 1) (pos 4))
server_cancel_order-Performs_example = server_cancel_order-Performs serving (pos 1) (pos 4)

server_pay_order-Performs_example :
    Performs (λ o. o.status ≡ done) paid serving (pos 1) (server_pay_order serving (pos 1))
server_pay_order-Performs_example = server_pay_order-Performs serving (pos 1)

order_build_from_cart_lem_example :
    (length cart.items ≡ 0
      → order_build_from_cart (pos 1) (pos 4) cart (pos 7) ≡ err (codes "empty cart"))
    × (0 < length cart.items
        → order_build_from_cart (pos 1) (pos 4) cart (pos 7)
          ≡ ok (order_of (pos 1) (pos 4) cart (pos 7)))
order_build_from_cart_lem_example =
    order_build_from_cart_lem (pos 1) (pos 4) cart (pos 7) (omega arith)
