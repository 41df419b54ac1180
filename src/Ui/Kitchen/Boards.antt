-- ===== src/Ui/Kitchen/Boards.antt =====
-- The board that the kitchen has after the snapshot with which the server greets it.
use mathlib.Core.List.{map-append}
use system_programming_team.Common.{Order, kitchen_client, max_orders, max_proto_line}
use system_programming_team.Keyed.{find, find_index, Distinct}
use system_programming_team.Keyed.Laws.{
  find-of_absent, find_index-some, update_first-set, map-update_first, All-update_first,
  Distinct-append,
}
use system_programming_team.Order.{order_key, orders_find_index}
use system_programming_team.Prelude.{
  append-nil, append_assoc, length-append, ltb, ◌+◌, ℕ, ◌++◌, ◌≤◌, ◌≡◌, ◌≢◌, refl, sym, ap, subst,
  ◌∙◌, true, List, [], ◌∷◌, ◌++◌, map, Option, none, some, arith, if◌then◌else◌, ltb, length, All,
  All-append, Bytes, ℤ, pos, ◌<ℤ◌, IsInt, eqb_ℤ, eqb_ℤ→eq, eqb_ℤ_self, Bool-cases, Option-cases,
  inl, inr,
}
use system_programming_team.Protocol.Event.RoundTrip.Text.{IsSendableOrder}
use system_programming_team.Os.Laws.{stream}
use system_programming_team.Os.{World}
use system_programming_team.Server.{send_snapshot_locked}
use system_programming_team.Server.Clients.{
  snapshot, is_open, IsCalm, send_snapshot_locked-snapshot,
}
use system_programming_team.Text.{fit}
use system_programming_team.Ui.Rounds.{arrive}
use system_programming_team.Ui.Kitchen.Mirroring.{
  sent_order, event_message, latest, message_taken, event_message-whole, kitchen_drain-length,
  kitchen_drain-mirrors,
}
use system_programming_team.Ui.Kitchen.Updates.{IsBoard}
use system_programming_team.Ui.Kitchen.{kitchen_drain}
use system_programming_team.Ui.{ui_merge_order_mirror, ui_net_enqueue}

-- The orders that a snapshot for the kitchen holds.
abbrev pub open_orders : List Order → List Order
open_orders [] = []
open_orders (o ∷ os) = if is_open o.status then o ∷ open_orders os else open_orders os

-- What the kitchen sees of an order of the server, if it saw `before` under its id.
abbrev pub seen : Option Order → Option Order → Option Order
seen none before = before
seen (some o) before = if is_open o.status then some (sent_order o) else before

find_index-absent :
    (k : ℤ) (os : List Order)
    → find_index order_key k os ≡ none
    → All (λ j. j ≢ k) (map order_key os)
unfolding find_index
find_index-absent k [] h = tt
find_index-absent k (o ∷ os) h = elim (Bool-cases (eqb_ℤ o.order_id k)) [
  | inl e ↦ absurd (ground (arith, e, h))
  | inr e ↦ elim (Option-cases (find_index order_key k os)) [
    | inr (i, f) ↦ absurd (ground (arith, e, f, h))
    | inl f ↦ (
      λ q. ground (arith, e, subst (λ j. eqb_ℤ o.order_id j ≡ true) q (eqb_ℤ_self o.order_id)),
      find_index-absent k os f,
    )
  ]
]

abbrev pub IsKnown : Order → Type 0
IsKnown o = (pos 0 <ℤ o.order_id) × IsInt o.order_id

ui_merge_order_mirror-IsBoard :
    (board : List Order) (o : Order)
    → IsKnown o
    → IsBoard board
    → IsBoard (ui_merge_order_mirror board o)
unfolding ui_merge_order_mirror orders_find_index
ui_merge_order_mirror-IsBoard board o n b =
    let id = o.order_id in
    elim (Option-cases (find_index order_key id board)) [
      | inl e ↦ elim (Bool-cases (ltb (length board) max_orders)) [
        | inl r ↦
            rw (e, r, ui_merge_order_mirror)
              (record {
                distinct = rw (map-append order_key board (o ∷ [])) (
                    Distinct-append order_key (map order_key board) id b.distinct
                      (find_index-absent id board e));
                ids = All-append IsKnown board (o ∷ []) b.ids (n, tt);
              })
        | inr r ↦ rw (e, r, ui_merge_order_mirror) b
      ]
      | inr (i, e) ↦
          let (x, g, _, f) = find_index-some order_key id board i e in
          let put : Order → Order = λ _. o in
          let keeps : (y : Order) → order_key y ≡ id → order_key (put y) ≡ order_key y =
            λ y q. sym q in
          let u = update_first-set order_key put id board i x e g in
          rw (e, ui_merge_order_mirror)
            (record {
              distinct =
                  subst Distinct (sym (map-update_first order_key put id keeps board _ u))
                    b.distinct;
              ids = All-update_first order_key put id keeps IsKnown board _ u (λ y h p. n) b.ids;
            })
    ]

kitchen_drain-IsBoard :
    (os board : List Order)
    → All IsSendableOrder os
    → All IsKnown os
    → IsBoard board
    → IsBoard (kitchen_drain (map event_message os) board)
unfolding kitchen_drain
kitchen_drain-IsBoard [] board a n b = b
kitchen_drain-IsBoard (o ∷ os) board a n b =
    subst (λ x. IsBoard (kitchen_drain (map event_message os) x)) (sym (message_taken o board a.0))
      (kitchen_drain-IsBoard os (ui_merge_order_mirror board (sent_order o)) a.1 n.1
        (ui_merge_order_mirror-IsBoard board (sent_order o) n.0 b))

open_orders-All : (P : Order → Type 0) (os : List Order) → All P os → All P (open_orders os)
open_orders-All P [] a = tt
open_orders-All P (o ∷ os) a = elim (Bool-cases (is_open o.status)) [
  | inr e ↦ rw e (open_orders-All P os a.1)
  | inl e ↦ rw e (a.0, open_orders-All P os a.1)
]

-- The last of the open orders under an id is the one that the server has there.
latest-open_orders :
    (k : ℤ) (os : List Order) (x : Option Order)
    → Distinct (map order_key os)
    → latest k (open_orders os) x ≡ seen (find order_key k os) x
unfolding find
latest-open_orders k [] x d = refl
latest-open_orders k (o ∷ os) x d =
    let rest = λ (y : Option Order). latest-open_orders k os y d.1 in
    elim (Bool-cases (eqb_ℤ o.order_id k)) [
      | inr e ↦ elim (Bool-cases (is_open o.status)) [
        | inr c ↦ rw (c, e) (rest x)
        | inl c ↦
            ap (λ b. latest k (if b then o ∷ open_orders os else open_orders os) x) c
            ∙ ap (λ b. latest k (open_orders os) (if b then some (sent_order o) else x)) e
            ∙ rest x
            ∙ sym (ap (λ b. seen (if b then some o else find order_key k os) x) e)
      ]
      | inl e ↦
          let absent : find order_key k os ≡ none =
            ap (λ j. find order_key j os) (sym (eqb_ℤ→eq o.order_id k e))
            ∙ find-of_absent order_key o.order_id os d.0 in
          let alone : (y : Option Order) → latest k (open_orders os) y ≡ y =
            λ y. rest y ∙ ap (λ z. seen z y) absent in
          elim (Bool-cases (is_open o.status)) [
            | inr c ↦ rw (c, e) (rw c (alone x))
            | inl c ↦
                let there : seen (find order_key k (o ∷ os)) x ≡ some (sent_order o) =
                  ap (λ b. seen (if b then some o else find order_key k os) x) e
                  ∙ ap (λ b. if b then some (sent_order o) else x) c in
                let last : latest k (o ∷ open_orders os) x ≡ some (sent_order o) =
                  ap (λ b. latest k (open_orders os) (if b then some (sent_order o) else x)) e
                  ∙ alone (some (sent_order o)) in
                ap (λ b. latest k (if b then o ∷ open_orders os else open_orders os) x) c
                ∙ last
                ∙ sym there
          ]
    ]

-- Lines, each with its end.
abbrev pub joined : List Bytes → Bytes
joined [] = []
joined (l ∷ ls) = (l ++ b'\n' ∷ []) ++ joined ls

snapshot-joined :
    (os : List Order) (table : ℤ)
    → snapshot os kitchen_client table ≡ joined (map event_message (open_orders os))
snapshot-joined [] table = refl
snapshot-joined (o ∷ os) table = elim (Bool-cases (is_open o.status)) [
  | inr e ↦ rw e (snapshot-joined os table)
  | inl e ↦ rw e (ap (λ t. (event_message o ++ b'\n' ∷ []) ++ t) (snapshot-joined os table))
]

-- Lines that fit the queue are in it as they came.
arrive-messages :
    (os : List Order) (q : List Bytes)
    → All IsSendableOrder os
    → length q + length os ≤ 128
    → arrive q (map event_message os) ≡ q ++ map event_message os
unfolding arrive ui_net_enqueue
arrive-messages [] q a h = sym (append-nil q)
arrive-messages (o ∷ os) q a h =
    let m = event_message o in
    let room : ltb (length q) 128 ≡ true = ground (arith, h) in
    let stands : ui_net_enqueue q m ≡ q ++ m ∷ [] =
      ap (λ b. if b then q ++ fit max_proto_line m ∷ [] else q) room
      ∙ ap (λ l. q ++ l ∷ []) (event_message-whole o a.0) in
    ap (λ r. arrive r (map event_message os)) stands
    ∙ arrive-messages os (q ++ m ∷ []) a.1 (omega (arith, h, length-append q (m ∷ [])))
    ∙ append_assoc q (m ∷ []) (map event_message os)

-- The board that the kitchen makes of the server's snapshot, which stands in the queue.
abbrev pub greeted : List Order → List Order
greeted os = kitchen_drain (arrive [] (map event_message (open_orders os))) []

-- The board has exactly the open orders.
pub greeted_lem :
    (os : List Order)
    → Distinct (map order_key os)
    → All IsSendableOrder os
    → All IsKnown os
    → length (open_orders os) ≤ 128
    → IsBoard (greeted os)
      × ((k : ℤ) → find order_key k (greeted os) ≡ seen (find order_key k os) none)
unfolding find
greeted_lem os d a n l =
    let sendable = open_orders-All _ os a in
    let lines = map event_message (open_orders os) in
    let queued : arrive [] lines ≡ lines =
      arrive-messages (open_orders os) [] sendable (omega (arith, l)) in
    let room = (kitchen_drain-length (open_orders os) [] sendable).1 in
    (
      subst (λ q. IsBoard (kitchen_drain q [])) (sym queued)
          (kitchen_drain-IsBoard (open_orders os) [] sendable (open_orders-All _ os n)
            (record { distinct = tt; ids = tt })),
      λ k.
          ap (λ q. find order_key k (kitchen_drain q [])) queued
          ∙ kitchen_drain-mirrors (open_orders os) [] k sendable (omega (arith, room, l))
          ∙ latest-open_orders k os none d,
    )

-- Of orders with different positive ints for ids that can be sent, at most 128 of them neither paid
-- nor cancelled, the server sends the kitchen, while no write fails, lines that stand in its queue
-- all together and of which it makes a board with exactly the orders that are neither paid nor
-- cancelled, every field as the server sent it; no two orders of the board have one id, and all ids
-- are positive ints.
pub kitchen_drain-snapshot :
    (os : List Order) (fd : ℕ) (table : ℤ) (w : World)
    → Distinct (map order_key os)
    → All IsSendableOrder os
    → All IsKnown os
    → length (open_orders os) ≤ 128
    → IsCalm w
    → (stream fd (send_snapshot_locked os fd kitchen_client table w).sent
        ≡ stream fd w.sent ++ joined (map event_message (open_orders os)))
      × IsBoard (greeted os)
      × ((k : ℤ) → find order_key k (greeted os) ≡ seen (find order_key k os) none)
kitchen_drain-snapshot os fd table w d a n l calm =
    let (board, finds) = greeted_lem os d a n l in
    (
      (send_snapshot_locked-snapshot os fd kitchen_client table w calm).0
          ∙ ap (λ t. stream fd w.sent ++ t) (snapshot-joined os table),
      board,
      finds,
    )
