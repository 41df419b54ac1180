-- ===== src/Protocol/Event/RoundTrip/Text.antt =====
-- The text of an order event, and its pieces as the parser finds them.
use system_programming_team.Common.{
  Order, OrderLineItem, OrderStatus, waiting, max_name, max_order_items, max_proto_line,
  status_to_string,
}
use system_programming_team.Prelude.{
  ℕ, zero, suc, ◌-◌, ◌≤◌, ◌<◌, ◌^◌, ◌≡◌, ◌≢◌, refl, sym, ap, ◌∙◌, List, [], ◌∷◌, ◌++◌, map, some,
  arith, append-nil, append_assoc, length, All, All-append, Lacks, Bytes, ℤ, pos_part, neg_part,
  IsInt,
}
use system_programming_team.Protocol.Event.RoundTrip.Pieces.{
  payloads, tokens-payload, fits_whole, after_find-skip, tokens_key, payloads-Lacks,
}
use system_programming_team.Protocol.Event.{event_items, segment_line}
use system_programming_team.Protocol.Fields.{sanitize_field_lem}
use system_programming_team.Protocol.{event_head, item_payload, sanitize_field}
use system_programming_team.Text.Decimal.{show-Lacks, atoi-show_alone}
use system_programming_team.Text.Tokens.{tokens_field, tokens_last}
use system_programming_team.Text.{codes, fit, show, tokens, after_find}

-- A line that can be sent: its numbers are ints, and its name is there and fits its array.
pub record IsSendable (it : OrderLineItem) : Type 0 where
  pub menu_id : IsInt it.menu_id
  pub qty : IsInt it.qty
  pub unit_price : IsInt it.unit_price
  pub name : it.name ≢ []
  pub name_fits : length it.name < max_name
  pub short : length (item_payload it) < 512

-- The whole text of an event.
abbrev pub event_text : Order → Bytes
event_text o = event_head o ++ payloads o.items

pub record IsSendableOrder (o : Order) : Type 0 where
  pub order_id : IsInt o.order_id
  pub table_id : IsInt o.table_id
  pub total_price : IsInt o.total_price
  pub created_at : (pos_part o.created_at ≤ 2 ^ 63 - 1) × (neg_part o.created_at ≤ 2 ^ 63)
  pub count : length o.items ≤ max_order_items
  pub items : All IsSendable o.items
  pub short : length (event_text o) < max_proto_line

-- The line as the reader gets it.
abbrev pub sent_line : OrderLineItem → OrderLineItem
sent_line it = record it { name = sanitize_field it.name }

segment-sent :
    (it : OrderLineItem)
    → IsSendable it
    → segment_line (tokens b':' (fit 512 (item_payload it))) ≡ some (sent_line it)
unfolding segment_line
segment-sent it h =
    rw (fits_whole 512 (item_payload it) h.short, tokens-payload it h.name h.name_fits)
      (rw (
        atoi-show_alone it.menu_id h.menu_id,
        atoi-show_alone it.qty h.qty,
        atoi-show_alone it.unit_price h.unit_price,
        fits_whole max_name (sanitize_field it.name)
            (omega (arith, (sanitize_field_lem it.name).0, h.name_fits)),
      ))

pub event_items-sent :
    (room : ℕ) (its done : List OrderLineItem)
    → length its ≤ room
    → All IsSendable its
    → event_items room (map item_payload its) done ≡ done ++ map sent_line its
unfolding event_items
event_items-sent zero [] done h a = sym (append-nil done)
event_items-sent zero (it ∷ its) done h a = absurd (omega arith)
event_items-sent (suc room) [] done h a = sym (append-nil done)
event_items-sent (suc room) (it ∷ its) done h a =
    rw (segment-sent it a.0, event_items)
      (event_items-sent room its (done ++ sent_line it ∷ []) (omega arith) a.1
        ∙ append_assoc done (sent_line it ∷ []) (map sent_line its))

status-Lacks : (st : OrderStatus) → Lacks b'|' (status_to_string st)
unfolding status_to_string
status-Lacks waiting = omega arith
status-Lacks OrderStatus.cooking = omega arith
status-Lacks OrderStatus.done = omega arith
status-Lacks OrderStatus.paid = omega arith
status-Lacks OrderStatus.cancelled = omega arith

bar : (a : ℤ) → Lacks b'|' (show a)
bar a = show-Lacks b'|' a refl (omega arith)

-- The text of an event with its pieces to the right.
abbrev event_parts : Order → Bytes → Bytes
event_parts o t =
    codes "ORDER_EVENT|order_id="
    ++ (show o.order_id
        ++ (codes "|table="
            ++ (show o.table_id
                ++ (codes "|status="
                    ++ (status_to_string o.status
                        ++ (codes "|total="
                            ++ (show o.total_price
                                ++ (codes "|created="
                                    ++ (show o.created_at ++ (codes "|items=" ++ t))))))))))

event_text-parts : (o : Order) → event_text o ≡ event_parts o (payloads o.items)
unfolding event_head
event_text-parts o = simp append_assoc

-- The search for the items passes over the fields.
pub event_text-items :
    (o : Order) → after_find (codes "|items=") (event_text o) ≡ some (payloads o.items)
unfolding after_find
event_text-items o =
    let items = payloads o.items in
    let find = after_find (codes "|items=") in
    let skip = after_find-skip b'|' (codes "items=") in
    let t5 = codes "|items=" ++ items in
    let t4 = codes "|created=" ++ (show o.created_at ++ t5) in
    let t3 = codes "|total=" ++ (show o.total_price ++ t4) in
    let t2 = codes "|status=" ++ (status_to_string o.status ++ t3) in
    let t1 = codes "|table=" ++ (show o.table_id ++ t2) in
    let s1 : find (show o.order_id ++ t1) ≡ find t1 = skip (show o.order_id) t1 (bar o.order_id) in
    let s2 : find (show o.table_id ++ t2) ≡ find t2 = skip (show o.table_id) t2 (bar o.table_id) in
    let s3 : find (status_to_string o.status ++ t3) ≡ find t3 =
      skip (status_to_string o.status) t3 (status-Lacks o.status) in
    let s4 : find (show o.total_price ++ t4) ≡ find t4 =
      skip (show o.total_price) t4 (bar o.total_price) in
    let s5 : find (show o.created_at ++ t5) ≡ find t5 =
      skip (show o.created_at) t5 (bar o.created_at) in
    ap find (event_text-parts o) ∙ s1 ∙ s2 ∙ s3 ∙ s4 ∙ s5

pub event_text-tokens :
    (o : Order)
    → tokens b'|' (event_text o)
      ≡ codes "ORDER_EVENT"
        ∷ (codes "order_id=" ++ show o.order_id)
        ∷ (codes "table=" ++ show o.table_id)
        ∷ (codes "status=" ++ status_to_string o.status)
        ∷ (codes "total=" ++ show o.total_price)
        ∷ (codes "created=" ++ show o.created_at)
        ∷ (codes "items=" ++ payloads o.items)
        ∷ []
event_text-tokens o =
    let items = payloads o.items in
    let cut = tokens b'|' in
    let t5 = codes "items=" ++ items in
    let t4 = codes "created=" ++ (show o.created_at ++ b'|' ∷ t5) in
    let t3 = codes "total=" ++ (show o.total_price ++ b'|' ∷ t4) in
    let t2 = codes "status=" ++ (status_to_string o.status ++ b'|' ∷ t3) in
    let t1 = codes "table=" ++ (show o.table_id ++ b'|' ∷ t2) in
    let t0 = codes "order_id=" ++ (show o.order_id ++ b'|' ∷ t1) in
    let s0 : cut (codes "ORDER_EVENT" ++ b'|' ∷ t0) ≡ codes "ORDER_EVENT" ∷ cut t0 =
      tokens_field b'|' (codes "ORDER_EVENT") t0 (λ e. cc) (omega arith) in
    let s1 : cut t0 ≡ (codes "order_id=" ++ show o.order_id) ∷ cut t1 =
      tokens_key b'|' b'o' (codes "rder_id=") (show o.order_id) t1 (omega arith) (bar o.order_id) in
    let s2 : cut t1 ≡ (codes "table=" ++ show o.table_id) ∷ cut t2 =
      tokens_key b'|' b't' (codes "able=") (show o.table_id) t2 (omega arith) (bar o.table_id) in
    let s3 : cut t2 ≡ (codes "status=" ++ status_to_string o.status) ∷ cut t3 =
      tokens_key b'|' b's' (codes "tatus=") (status_to_string o.status) t3 (omega arith)
        (status-Lacks o.status) in
    let s4 : cut t3 ≡ (codes "total=" ++ show o.total_price) ∷ cut t4 =
      tokens_key b'|' b't' (codes "otal=") (show o.total_price) t4 (omega arith)
        (bar o.total_price) in
    let s5 : cut t4 ≡ (codes "created=" ++ show o.created_at) ∷ cut t5 =
      tokens_key b'|' b'c' (codes "reated=") (show o.created_at) t5 (omega arith)
        (bar o.created_at) in
    let s6 : cut t5 ≡ t5 ∷ [] =
      tokens_last b'|' t5 (λ e. cc)
        (All-append (λ x. x ≢ b'|') (codes "items=") items (omega arith)
          (payloads-Lacks o.items)) in
    ap cut (event_text-parts o)
    ∙ s0
    ∙ ap (◌∷◌ (codes "ORDER_EVENT")) (
        s1
        ∙ ap (◌∷◌ (codes "order_id=" ++ show o.order_id)) (
            s2
            ∙ ap (◌∷◌ (codes "table=" ++ show o.table_id)) (
                s3
                ∙ ap (◌∷◌ (codes "status=" ++ status_to_string o.status)) (
                    s4
                    ∙ ap (◌∷◌ (codes "total=" ++ show o.total_price))
                        (s5 ∙ ap (◌∷◌ (codes "created=" ++ show o.created_at)) s6)))))
