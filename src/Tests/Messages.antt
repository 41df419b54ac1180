-- ===== src/Tests/Messages.antt =====
-- Messages, names and numbers.
use system_programming_team.Common.{status_to_string, max_proto_line, max_order_items}
use system_programming_team.Prelude.{
  ◌≤◌, ◌≡◌, ◌<ℤ◌, refl, arith, ok, pos, negsuc, [], ◌∷◌, ◌++◌, map, All, Bytes, wrap,
}
use system_programming_team.Protocol.Event.RoundTrip.{event-round_trip}
use system_programming_team.Protocol.Event.RoundTrip.Text.{IsSendable, IsSendableOrder, sent_line}
use system_programming_team.Protocol.Event.{proto_parse_order_broadcast}
use system_programming_team.Protocol.Parse.Create.{IsOrdered, proto_parse_order_create-IsOrdered}
use system_programming_team.Protocol.Parse.{
  proto_parse_order_create, create_fields, create_items, read_items, item_pairs,
}
use system_programming_team.Protocol.{
  sanitize_field, item_payload, event_head, proto_build_order_broadcast,
}
use system_programming_team.Server.Reader.Framing.{Reads, flow, read_line-Reads}
use system_programming_team.Server.Reader.{read_line}
use system_programming_team.Tests.{soup_line, soups, order}
use system_programming_team.Text.Decimal.{atoi-show}
use system_programming_team.Text.{
  codes, atoi, atoll, show, show_nat, digits, signed, leading, skip_space, tokens, tokens_from,
  after_find, cut_at,
}

atoi-show_example : atoi (show (negsuc 41) ++ codes "|total=3") ≡ negsuc 41
atoi-show_example =
    atoi-show (negsuc 41) (codes "|total=3") (record { above = omega arith; below = omega arith })
      refl

soup_line-IsSendable : IsSendable soup_line
unfolding item_payload show show_nat digits sanitize_field
soup_line-IsSendable = record {
  menu_id = record { above = omega arith; below = omega arith };
  qty = record { above = omega arith; below = omega arith };
  unit_price = record { above = omega arith; below = omega arith };
  name = λ e. cc;
  name_fits = omega arith;
  short = omega arith;
}

pub order-IsSendableOrder : IsSendableOrder order
unfolding item_payload show show_nat digits sanitize_field event_head status_to_string
order-IsSendableOrder = record {
  order_id = record { above = omega arith; below = omega arith };
  table_id = record { above = omega arith; below = omega arith };
  total_price = record { above = omega arith; below = omega arith };
  created_at = (omega arith, omega arith);
  count = omega arith;
  items = (soup_line-IsSendable, tt);
  short = omega arith;
}

event-round_trip_example :
    proto_parse_order_broadcast (proto_build_order_broadcast order max_proto_line)
    ≡ ok (record order { items = map sent_line order.items })
event-round_trip_example = event-round_trip order order-IsSendableOrder

abbrev ordering : Bytes
ordering = codes "ORDER_CREATE|table=4|items=3:2"

ordering_read :
    proto_parse_order_create ordering max_order_items
    ≡ ok (pos 4, record soups { name = []; price = pos 0 } ∷ [])
unfolding proto_parse_order_create create_fields create_items read_items item_pairs after_find
    tokens tokens_from cut_at atoi atoll signed leading skip_space wrap
ordering_read = refl

proto_parse_order_create-IsOrdered_example :
    (pos 0 <ℤ pos 4) × (1 ≤ 32) × All IsOrdered (record soups { name = []; price = pos 0 } ∷ [])
proto_parse_order_create-IsOrdered_example =
    proto_parse_order_create-IsOrdered ordering max_order_items (pos 4)
      (record soups { name = []; price = pos 0 } ∷ []) ordering_read

-- Two reads and an interruption, with the line end in the second.
read_line-Reads_example :
    Reads
      (codes "HELLO KITCHEN")
      (codes "PING")
      4096
      (read_line (flow (codes "HELLO KI" ∷ [] ∷ codes "TCHEN\nPING" ∷ [])) [] 4096)
read_line-Reads_example =
    read_line-Reads (codes "HELLO KI" ∷ [] ∷ codes "TCHEN\nPING" ∷ []) [] (codes "HELLO KITCHEN")
      (codes "PING") 4096 refl (omega arith) (omega arith) (omega arith)
