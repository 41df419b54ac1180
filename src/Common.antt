-- ===== src/Common.antt =====
-- include/common.h and src/common.c: the limits, the records and the names of the states.
pub mod Names
use system_programming_team.Prelude.{ℕ, List, Option, none, some, Bytes, bytes_eq, if◌then◌else◌, ℤ}
use system_programming_team.Text.{codes}

abbrev pub max_menu_items : ℕ
max_menu_items = 128

abbrev pub max_order_items : ℕ
max_order_items = 32

abbrev pub max_orders : ℕ
max_orders = 256

abbrev pub max_clients : ℕ
max_clients = 64

abbrev pub max_proto_line : ℕ
max_proto_line = 16384

abbrev pub max_name : ℕ
max_name = 96

abbrev pub max_category : ℕ
max_category = 32

abbrev pub max_tables : ℕ
max_tables = 64

pub data ClientKind : Type 0 where
  no_client table_client kitchen_client : ClientKind

pub data OrderStatus : Type 0 where
  waiting cooking done paid cancelled : OrderStatus

pub record OrderLineItem : Type 0 where
  pub menu_id : ℤ
  pub name : Bytes
  pub unit_price : ℤ
  pub qty : ℤ

-- `item_count` is the length of `items`.
pub record Order : Type 0 where
  pub order_id : ℤ
  pub table_id : ℤ
  pub status : OrderStatus
  pub items : List OrderLineItem
  pub total_price : ℤ
  pub created_at : ℤ

pub record CartItem : Type 0 where
  pub menu_id : ℤ
  pub name : Bytes
  pub price : ℤ
  pub qty : ℤ

pub record MenuItem : Type 0 where
  pub id : ℤ
  pub name : Bytes
  pub category : Bytes
  pub price : ℤ
  pub sold_out : ℤ
  pub popular : ℤ

-- `count` is the length of `items`.
pub record MenuCatalog : Type 0 where
  pub items : List MenuItem

unfoldable pub status_to_string : OrderStatus → Bytes
status_to_string waiting = codes "WAITING"
status_to_string cooking = codes "COOKING"
status_to_string done = codes "DONE"
status_to_string paid = codes "PAID"
status_to_string cancelled = codes "CANCELLED"

-- `none` is the null pointer.
unfoldable pub status_from_string : Option Bytes → OrderStatus
status_from_string none = waiting
status_from_string (some s) =
    if bytes_eq s (codes "WAITING")
    then waiting
    else if bytes_eq s (codes "COOKING")
    then cooking
    else if bytes_eq s (codes "DONE")
    then done
    else if bytes_eq s (codes "PAID")
    then paid
    else if bytes_eq s (codes "CANCELLED")
    then cancelled
    else waiting
