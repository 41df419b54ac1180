-- ===== src/Protocol/Event.antt =====
-- The parser of src/protocol.c for the order events that the server sends.
pub mod RoundTrip
use system_programming_team.Common.{
  Order, OrderLineItem, OrderStatus, waiting, max_name, max_order_items, max_proto_line,
  status_from_string,
}
use system_programming_team.Prelude.{
  ℕ, zero, suc, List, [], ◌∷◌, ◌++◌, Option, none, some, Result, ok, err, Bytes, ℤ, pos,
}
use system_programming_team.Text.{codes, fit, after_prefix, after_find, tokens, atoi, atoll}

-- The loop over the fields behind the first token.
unfoldable pub event_fields : List Bytes → Order → Order
unfolding atoi atoll status_from_string
event_fields [] o = o
event_fields (tok ∷ toks) o = elim (after_prefix (codes "order_id=") tok) [
  | some s ↦ event_fields toks (record o { order_id = atoi s })
  | none ↦ elim (after_prefix (codes "table=") tok) [
    | some s ↦ event_fields toks (record o { table_id = atoi s })
    | none ↦ elim (after_prefix (codes "status=") tok) [
      | some s ↦ event_fields toks (record o { status = status_from_string (some s) })
      | none ↦ elim (after_prefix (codes "total=") tok) [
        | some s ↦ event_fields toks (record o { total_price = atoi s })
        | none ↦ elim (after_prefix (codes "created=") tok) [
          | some s ↦ event_fields toks (record o { created_at = atoll s })
          | none ↦ event_fields toks o
        ]
      ]
    ]
  ]
]

-- An item from the fields of its segment, none where one of four is missing.
unfoldable pub segment_line : List Bytes → Option OrderLineItem
unfolding atoi
segment_line [] = none
segment_line (a ∷ []) = none
segment_line (a ∷ b ∷ []) = none
segment_line (a ∷ b ∷ c ∷ []) = none
segment_line (a ∷ b ∷ c ∷ d ∷ rest) =
    some (record { menu_id = atoi a; qty = atoi b; name = fit max_name c; unit_price = atoi d })

-- The loop over the segments: it ends at the first bad one, and when the order is full.
unfoldable pub event_items : ℕ → List Bytes → List OrderLineItem → List OrderLineItem
unfolding segment_line tokens
event_items zero segs items = items
event_items (suc room) [] items = items
event_items (suc room) (seg ∷ segs) items = elim (segment_line (tokens b':' (fit 512 seg))) [
  | none ↦ items
  | some it ↦ event_items room segs (items ++ it ∷ [])
]

abbrev pub no_order : Order
no_order = record {
  order_id = pos 0;
  table_id = pos 0;
  status = waiting;
  items = [];
  total_price = pos 0;
  created_at = pos 0;
}

abbrev pub behind : List Bytes → List Bytes
behind [] = []
behind (_ ∷ toks) = toks

unfoldable pub proto_parse_order_broadcast : Bytes → Result Order
unfolding after_find tokens event_fields event_items
proto_parse_order_broadcast msg = elim (after_prefix (codes "ORDER_EVENT|") msg) [
  | none ↦ err (codes "not ORDER_EVENT")
  | some _ ↦ elim (after_find (codes "|items=") msg) [
    | none ↦ err (codes "missing items payload")
    | some raw ↦
        let o = event_fields (behind (tokens b'|' (fit max_proto_line msg))) no_order in
        ok (record o {
          items = event_items max_order_items (tokens b';' (fit max_proto_line raw)) [];
        })
  ]
]
