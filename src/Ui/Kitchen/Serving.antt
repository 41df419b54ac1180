-- ===== src/Ui/Kitchen/Serving.antt =====
-- The kitchen's first key behind the snapshot, against the server that sent it.
use system_programming_team.Common.{Order, OrderStatus}
use system_programming_team.Keyed.{find}
use system_programming_team.Order.{order_key}
use system_programming_team.Os.{World, write_all}
use system_programming_team.Prelude.{
  ◌≤◌, ℕ, ◌≡◌, refl, sym, ap, ◌∙◌, List, [], ◌∷◌, ◌++◌, Option, none, some, ok, arith,
  if◌then◌else◌, length, All, Bytes, ℤ, Bool-cases, inl, inr, ◌⊎◌,
}
use system_programming_team.Protocol.Event.RoundTrip.Text.{IsSendableOrder}
use system_programming_team.Protocol.Parse.{proto_parse_order_update}
use system_programming_team.Server.Orders.Machine.Invariant.{IsKept}
use system_programming_team.Server.Orders.Machine.Operations.{server_get_order-Gets}
use system_programming_team.Server.Orders.{server_get_order, server_update_order_status}
use system_programming_team.Server.Session.Steps.{Starts, Reach, Reach-Inv}
use system_programming_team.Server.{ServerContext}
use system_programming_team.Ui.Kitchen.Boards.{IsKnown, open_orders, seen, greeted, greeted_lem}
use system_programming_team.Server.Clients.{is_open}
use system_programming_team.Ui.Kitchen.Mirroring.{sent_order}
use system_programming_team.Ui.Kitchen.Updates.{kitchen_key-Sends}
use system_programming_team.Ui.Kitchen.{kitchen_key}
use system_programming_team.Ui.Rounds.{Key}

-- A line that the server reads as a change of an order's state, which it makes.
abbrev pub Accepted : ℕ → ServerContext → World → World → Type 0
Accepted sock ctx w v =
    (id : ℤ) × (new : OrderStatus) × (text : Bytes) × (v
      ≡ (write_all sock (text ++ b'\n' ∷ []) w).1)
    × (proto_parse_order_update text ≡ ok (id, new))
    × ((server_update_order_status ctx id new).0 ≡ ok tt)

known :
    (next : ℤ) (os : List Order) → All IsSendableOrder os → All (IsKept next) os → All IsKnown os
known next [] a k = tt
known next (o ∷ os) a k = ((k.0.given, a.0.order_id), known next os a.1 k.1)

-- What the kitchen sees is what the server has, in the same state.
seen-status :
    (x : Option Order) (o : Order)
    → seen x none ≡ some o
    → (p : Order) × (x ≡ some p) × (p.status ≡ o.status)
seen-status none o h = absurd (ground arith)
seen-status (some p) o h = elim (Bool-cases (is_open p.status)) [
  | inr e ↦ absurd (ground (arith, e, h))
  | inl e ↦
      let q : seen (some p) none ≡ some (sent_order p) =
        ap (λ b. if b then some (sent_order p) else none) e in
      let same : sent_order p ≡ o = ground (arith, sym q ∙ h) in (p, refl, ap (λ y. y.status) same)
]

get_order :
    (ctx : ServerContext) (id : ℤ) (p : Order)
    → find order_key id ctx.orders ≡ some p
    → (i : ℕ) × (server_get_order ctx id ≡ some (i, p))
get_order ctx id p f = elim (server_get_order-Gets ctx id) [
  | inl (_, n) ↦ absurd (ground (arith, sym n ∙ f))
  | inr (i, o, g, h, _) ↦
      let same : o ≡ p = ground (arith, sym h ∙ f) in (i, g ∙ ap (λ y. some (i, y)) same)
]

-- From a server with no orders whose next id is positive and more than 256 below 2^31, however its
-- threads interleaved, while its orders can be sent and at most 128 of them are neither paid nor
-- cancelled: a key that the kitchen presses on the board that it made of the snapshot's lines, which
-- its queue held all together, sends nothing, or one line that the server reads as a change of an
-- order's state; and the server, if its orders are still those, makes that change.
pub greeted-Accepted :
    {start ctx : ServerContext} (sock : ℕ) (key : Key) (sel : ℕ) (w : World)
    → Starts start
    → Reach start ctx
    → All IsSendableOrder ctx.orders
    → length (open_orders ctx.orders) ≤ 128
    → ((kitchen_key sock key (greeted ctx.orders) sel w).1 ≡ w)
      ⊎ Accepted sock ctx w (kitchen_key sock key (greeted ctx.orders) sel w).1
greeted-Accepted {start} {ctx} sock key sel w s r a l =
    let v = Reach-Inv s r in
    let (board, finds) = greeted_lem ctx.orders v.distinct a (known _ ctx.orders a v.kept) l in
    elim (kitchen_key-Sends sock key (greeted ctx.orders) sel w board) [
      | inl q ↦ inl q
      | inr (o, new, text, f, _, _, q, p, accepts) ↦
          let (x, g, t) =
            seen-status (find order_key o.order_id ctx.orders) o (sym (finds o.order_id) ∙ f) in
          let (i, found) = get_order ctx o.order_id x g in
          inr (o.order_id, new, text, q, p, accepts ctx i x found t)
    ]
