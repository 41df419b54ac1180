-- ===== src/Ui/Kitchen/Mirroring.antt =====
-- The kitchen's board against the events that the server sends.
use system_programming_team.Common.{Order, max_orders, max_proto_line}
use system_programming_team.Keyed.{find, find_index}
use system_programming_team.Keyed.Laws.{find_index-some, update_first-set, update_first-length}
use system_programming_team.Order.{order_key, orders_find_index}
use system_programming_team.Prelude.{
  suc, ◌+◌, ◌≤◌, ◌<◌, ◌≡◌, refl, sym, ap, subst, ◌∙◌, true, List, [], ◌∷◌, map, Option, some, ok,
  err, arith, if◌then◌else◌, ltb, length, length-append, All, Bytes, ℤ, eqb_ℤ, Bool-cases,
  Option-cases, inl, inr,
}
use system_programming_team.Protocol.Event.RoundTrip.Pieces.{fits_whole}
use system_programming_team.Protocol.Event.RoundTrip.Text.{event_text, IsSendableOrder, sent_line}
use system_programming_team.Protocol.Event.RoundTrip.{event-round_trip, event-built}
use system_programming_team.Protocol.Event.{proto_parse_order_broadcast}
use system_programming_team.Protocol.{event_head, proto_build_order_broadcast}
use system_programming_team.Text.{codes, fit}
use system_programming_team.Ui.Kitchen.{take_event, kitchen_line, kitchen_drain}
use system_programming_team.Ui.Mirrors.{merged, ui_merge_order_mirror_lem}
use system_programming_team.Ui.Rounds.{begins}
use system_programming_team.Ui.{ui_merge_order_mirror}

-- The order as a client reads it.
abbrev pub sent_order : Order → Order
sent_order o = record o { items = map sent_line o.items }

-- The event of an order, without the line's end.
abbrev pub event_message : Order → Bytes
event_message o = proto_build_order_broadcast o max_proto_line

-- What stands under an id after the events of the orders, one after the other.
abbrev pub latest : ℤ → List Order → Option Order → Option Order
latest k [] x = x
latest k (o ∷ os) x = latest k os (if eqb_ℤ o.order_id k then some (sent_order o) else x)

pub event_message-whole :
    (o : Order) → IsSendableOrder o → fit max_proto_line (event_message o) ≡ event_message o
event_message-whole o h =
    ap (fit max_proto_line) (event-built o h)
    ∙ fits_whole max_proto_line (event_text o) h.short
    ∙ sym (event-built o h)

event_text-begins : (o : Order) → begins (codes "ORDER_EVENT|") (event_text o) ≡ true
unfolding event_head
event_text-begins o = refl

line_taken :
    (l : Bytes) (o : Order) (board : List Order)
    → begins (codes "ORDER_EVENT|") l ≡ true
    → proto_parse_order_broadcast l ≡ ok o
    → kitchen_line l board ≡ ui_merge_order_mirror board o
unfolding kitchen_line take_event
line_taken l o board b p =
    ap (λ x. if x then take_event l board else board) b
    ∙ ap (λ r. elim r as (λ _. List Order) [ err e ↦ board | ok x ↦ ui_merge_order_mirror board x ])
        p

-- A line that is an event puts the order into the mirror.
pub message_taken :
    (o : Order) (board : List Order)
    → IsSendableOrder o
    → kitchen_line (fit max_proto_line (event_message o)) board
      ≡ ui_merge_order_mirror board (sent_order o)
message_taken o board h =
    let whole : fit max_proto_line (event_message o) ≡ event_text o =
      ap (fit max_proto_line) (event-built o h)
      ∙ fits_whole max_proto_line (event_text o) h.short in
    let read : proto_parse_order_broadcast (event_text o) ≡ ok (sent_order o) =
      ap proto_parse_order_broadcast (sym (event-built o h)) ∙ event-round_trip o h in
    ap (λ l. kitchen_line l board) whole
    ∙ line_taken (event_text o) (sent_order o) board (event_text-begins o) read

-- An order that comes in makes the board at most one order longer, and never shorter.
pub ui_merge_order_mirror-length :
    (board : List Order) (o : Order)
    → (length board ≤ length (ui_merge_order_mirror board o))
      × (length (ui_merge_order_mirror board o) ≤ suc (length board))
unfolding ui_merge_order_mirror orders_find_index
ui_merge_order_mirror-length board o =
    let id = o.order_id in
    elim (Option-cases (find_index order_key id board)) [
      | inl e ↦ elim (Bool-cases (ltb (length board) max_orders)) [
        | inl r ↦
            let l = length-append board (o ∷ []) in
            rw (e, r, ui_merge_order_mirror) (omega (arith, l), omega (arith, l))
        | inr r ↦ rw (e, r, ui_merge_order_mirror) (omega arith, omega arith)
      ]
      | inr (i, e) ↦
          let (x, g, _, f) = find_index-some order_key id board i e in
          let put : Order → Order = λ _. o in
          let u = update_first-set order_key put id board i x e g in
          let l = update_first-length order_key put id (λ y q. sym q) board _ u in
          rw (e, ui_merge_order_mirror) (omega (arith, l), omega (arith, l))
    ]

pub kitchen_drain-length :
    (os board : List Order)
    → All IsSendableOrder os
    → (length board ≤ length (kitchen_drain (map event_message os) board))
      × (length (kitchen_drain (map event_message os) board) ≤ length os + length board)
unfolding kitchen_drain
kitchen_drain-length [] board a = (omega arith, omega arith)
kitchen_drain-length (o ∷ os) board a =
    let next = ui_merge_order_mirror board (sent_order o) in
    let (l, m) = ui_merge_order_mirror-length board (sent_order o) in
    let (p, q) = kitchen_drain-length os next a.1 in
    subst
      (λ b.
        (length board ≤ length (kitchen_drain (map event_message os) b))
        × (length (kitchen_drain (map event_message os) b) ≤ suc (length os) + length board))
      (sym (message_taken o board a.0)) (omega (arith, l, p), omega (arith, m, q))

-- With room on the board, the order that comes in stands there.
merged_room : (board : List Order) (o : Order) → length board < max_orders → merged board o ≡ some o
merged_room board o h = elim (Option-cases (find order_key o.order_id board)) [
  | inr (x, e) ↦ rw (e, merged) refl
  | inl e ↦
      let room : ltb (length board) max_orders ≡ true = ground (arith, h) in
      rw (e, room, merged) refl
]

-- While the board does not fill up, the kitchen's board holds under each id the order of the last
-- event that came for it, every field as the server sent it, and what it held before where none came.
pub kitchen_drain-mirrors :
    (os board : List Order) (k : ℤ)
    → All IsSendableOrder os
    → length (kitchen_drain (map event_message os) board) < max_orders
    → find order_key k (kitchen_drain (map event_message os) board)
      ≡ latest k os (find order_key k board)
unfolding kitchen_drain
kitchen_drain-mirrors [] board k a h = refl
kitchen_drain-mirrors (o ∷ os) board k a h =
    let next = ui_merge_order_mirror board (sent_order o) in
    let taken = message_taken o board a.0 in
    let drain : List Order → List Order = λ b. kitchen_drain (map event_message os) b in
    let room : length (drain next) < max_orders =
      subst (λ b. length (drain b) < max_orders) taken h in
    let fits : length board < max_orders = omega (
      arith,
      (ui_merge_order_mirror-length board (sent_order o)).0,
      (kitchen_drain-length os next a.1).0,
      room,
    ) in
    ap (λ b. find order_key k (drain b)) taken
    ∙ kitchen_drain-mirrors os next k a.1 room
    ∙ ap (latest k os) (
        (ui_merge_order_mirror_lem board (sent_order o) (omega (arith, fits))).1 k
        ∙ ap (λ x. if eqb_ℤ o.order_id k then x else find order_key k board)
            (merged_room board (sent_order o) fits))
