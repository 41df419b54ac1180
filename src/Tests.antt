-- ===== src/Tests.antt =====
-- The theorems at concrete inputs.
mod Orders
mod Messages
mod Carts
mod Menus
mod Systems
mod Layouts
mod Settings
mod Screens
mod Kitchens
use system_programming_team.Common.{Order, OrderLineItem, CartItem, MenuItem, MenuCatalog, waiting}
use system_programming_team.Order.{Cart}
use system_programming_team.Os.{World, Reply}
use system_programming_team.Prelude.{List, [], ◌∷◌, none, pos, ℕ}
use system_programming_team.Server.Lifecycle.{blank}
use system_programming_team.Server.{ServerContext}
use system_programming_team.Text.{codes}

-- A system with no files that answers by the given replies and then without failure.
abbrev pub system : List Reply → World
system rs = record {
  files = λ _. none;
  sent = [];
  clock = 1700000000;
  delays = [];
  replies = rs;
  error_text = codes "No such file or directory";
}

abbrev pub soup : MenuItem
soup = record {
  id = pos 3;
  name = codes "Miso Soup";
  category = codes "사이드";
  price = pos 3000;
  sold_out = pos 0;
  popular = pos 0;
}

abbrev pub menu : MenuCatalog
menu = record { items = soup ∷ [] }

abbrev pub soups : CartItem
soups = record { menu_id = pos 3; name = codes "Miso Soup"; price = pos 3000; qty = pos 2 }

abbrev pub latte : CartItem
latte = record { menu_id = pos 5; name = codes "Latte"; price = pos 5000; qty = pos 1 }

abbrev pub cart : Cart
cart = record { items = soups ∷ latte ∷ [] }

abbrev pub soup_line : OrderLineItem
soup_line = record { menu_id = pos 3; name = codes "Miso;Soup"; unit_price = pos 3000; qty = pos 2 }

abbrev pub order : Order
order = record {
  order_id = pos 1;
  table_id = pos 4;
  status = waiting;
  items = soup_line ∷ [];
  total_price = pos 6000;
  created_at = pos 1700000000;
}

-- A server that has just started.
abbrev pub started : ServerContext
started = blank (system [])

-- A server with one order.
abbrev pub serving : ServerContext
serving = record started { orders = order ∷ [] }
