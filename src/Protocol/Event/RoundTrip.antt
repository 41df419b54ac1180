-- ===== src/Protocol/Event/RoundTrip.antt =====
-- The event of an order, built and parsed by src/protocol.c.
pub mod Pieces
pub mod Text
use system_programming_team.Common.{
  Order, OrderLineItem, OrderStatus, waiting, max_name, max_order_items, max_proto_line,
  status_to_string, status_from_string,
}
use system_programming_team.Common.Names.{status-round_trip}
use system_programming_team.Prelude.{
  ℕ, zero, suc, ◌+◌, ◌-◌, ◌≤◌, ◌<◌, ◌^◌, ◌≡◌, ◌≢◌, refl, sym, ap, ◌∙◌, List, [], ◌∷◌, ◌++◌, map,
  some, none, Result, ok, arith, true, false, append-nil, append_assoc, length, length-append,
  length-map, take, drop, take-eq_of_le, All, All-append, Lacks, Bytes, ℤ, pos, pos_part, neg_part,
  IsInt,
}
use system_programming_team.Protocol.Event.RoundTrip.Pieces.{
  payloads, tokens-payloads, tokens-payload, fits_whole, after_find-skip, tokens_key,
  payloads-Lacks, append_items-payloads,
}
use system_programming_team.Protocol.Event.{
  event_fields, event_items, segment_line, proto_parse_order_broadcast, no_order, behind,
}
use system_programming_team.Protocol.Fields.{sanitize_field_lem}
use system_programming_team.Protocol.{
  event_head, item_payload, append_item_payload, append_items, proto_build_order_broadcast, put,
  sanitize_field,
}
use system_programming_team.Text.Decimal.{
  show-Lacks, show-ne-nil, atoi-show_alone, atoll-show_alone,
}
use system_programming_team.Text.Tokens.{tokens_field, tokens_last}
use system_programming_team.Text.{codes, fit, show, tokens, atoi, atoll, after_prefix, after_find}
use system_programming_team.Protocol.Event.RoundTrip.Text.{
  event_text, IsSendableOrder, sent_line, event_items-sent, event_text-items, event_text-tokens,
}

fields-sent :
    (o : Order)
    → IsSendableOrder o
    → event_fields (behind (tokens b'|' (event_text o))) no_order ≡ record o { items = [] }
unfolding event_fields
fields-sent o h =
    rw
      (
        event_text-tokens o,
        atoi-show_alone o.order_id h.order_id,
        atoi-show_alone o.table_id h.table_id,
        status-round_trip.0 o.status,
        atoi-show_alone o.total_price h.total_price,
        atoll-show_alone o.created_at h.created_at.0 h.created_at.1,
      )
      refl

pub event-built :
    (o : Order) → IsSendableOrder o → proto_build_order_broadcast o max_proto_line ≡ event_text o
unfolding proto_build_order_broadcast
event-built o h =
    let l = length-append (event_head o) (payloads o.items) in
    let n = length (event_head o) in
    let out : Bytes → ℕ → Bytes =
      λ s p. (append_items max_proto_line (record { buf = s; pos = p }) o.items).buf in
    let zero_add : 0 + n ≡ n = omega arith in
    ap (out (fit max_proto_line (event_head o))) zero_add
    ∙ ap (λ s. out s n) (fits_whole max_proto_line (event_head o) (omega (arith, l, h.short)))
    ∙ append_items-payloads max_proto_line o.items (event_head o) (unfold event_head in omega arith)
        (omega (arith, l, h.short))

-- The text behind the message's name.
abbrev event_rest : Order → Bytes
event_rest o = drop 12 (event_text o)

event_text-prefix :
    (o : Order) → after_prefix (codes "ORDER_EVENT|") (event_text o) ≡ some (event_rest o)
unfolding event_head
event_text-prefix o = refl

parse_with :
    (msg raw r : Bytes)
    → after_prefix (codes "ORDER_EVENT|") msg ≡ some r
    → after_find (codes "|items=") msg ≡ some raw
    → proto_parse_order_broadcast msg
      ≡ ok (record (event_fields (behind (tokens b'|' (fit max_proto_line msg))) no_order) {
        items = event_items max_order_items (tokens b';' (fit max_proto_line raw)) [];
      })
unfolding proto_parse_order_broadcast
parse_with msg raw r h g = rw (h, g) refl

-- An order that can be sent is read back from its event with every field as it was, and with the
-- names of its lines made safe.
pub event-round_trip :
    (o : Order)
    → IsSendableOrder o
    → proto_parse_order_broadcast (proto_build_order_broadcast o max_proto_line)
      ≡ ok (record o { items = map sent_line o.items })
event-round_trip o h =
    let l = length-append (event_head o) (payloads o.items) in
    let items : List Bytes → List OrderLineItem = λ ts. event_items max_order_items ts [] in
    let read : Order → List OrderLineItem → Result Order = λ x its. ok (record x { items = its }) in
    ap proto_parse_order_broadcast (event-built o h)
    ∙ parse_with (event_text o) (payloads o.items) (event_rest o) (event_text-prefix o)
        (event_text-items o)
    ∙ ap
        (λ s.
          read (event_fields (behind (tokens b'|' s)) no_order)
            (items (tokens b';' (fit max_proto_line (payloads o.items)))))
        (fits_whole max_proto_line (event_text o) h.short)
    ∙ ap (λ x. read x (items (tokens b';' (fit max_proto_line (payloads o.items)))))
        (fields-sent o h)
    ∙ ap (λ s. read o (items (tokens b';' s)))
        (fits_whole max_proto_line (payloads o.items) (omega (arith, l, h.short)))
    ∙ ap (λ ts. read o (items ts)) (tokens-payloads o.items)
    ∙ ap (read o) (event_items-sent max_order_items o.items [] h.count h.items)
