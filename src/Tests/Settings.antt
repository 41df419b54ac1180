-- ===== src/Tests/Settings.antt =====
-- The configuration, the screens, and a client's rights.
use system_programming_team.Common.{table_client, Order}
use system_programming_team.Keyed.{find}
use system_programming_team.Order.{order_key}
use system_programming_team.Prelude.{◌≡◌, refl, some, pos}
use system_programming_team.Server.Session.Rights.{serve-Rights}
use system_programming_team.Server.Session.Rights.Kept.{Rights}
use system_programming_team.Server.Session.{serve}
use system_programming_team.Storage.{StoreConfig}
use system_programming_team.Tests.{order, serving}
use system_programming_team.Text.{codes}

abbrev settings : StoreConfig
settings = record { max_tables = pos 12; next_order_id = pos 7 }

order_there : find order_key (pos 1) serving.orders ≡ some order
unfolding find
order_there = refl

serve-Rights_example :
    (p : Order) × (find order_key
        (pos 1)
        (serve 5 table_client (pos 4) (codes "ORDER_CANCEL|order_id=1") serving).orders
      ≡ some p)
    × Rights table_client (pos 4) order p
serve-Rights_example =
    serve-Rights serving 5 table_client (pos 4) (codes "ORDER_CANCEL|order_id=1") (pos 1) order
      order_there
