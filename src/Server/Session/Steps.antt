-- ===== src/Server/Session/Steps.antt =====
-- The server as its threads interleave: each critical section is a step, in any order. The clients'
-- threads, the cashier's screen of src/ui.c and the interrupt handler take the steps.
use system_programming_team.Common.{
  paid, cancelled, ClientKind, MenuCatalog, Order, OrderStatus, max_orders,
}
use system_programming_team.Keyed.{find}
use system_programming_team.Order.{Cart, order_key}
use system_programming_team.Os.{write_all}
use system_programming_team.Prelude.{
  ◌⊎◌, ℕ, ◌+◌, ◌^◌, ◌<◌, ◌≡◌, refl, ap, List, [], some, true, false, arith, if◌then◌else◌, Bytes,
  bytes_eq, ℤ, pos, pos_part, ◌<ℤ◌, Bool-cases, Result-cases, inl, inr, Bool, take,
}
use system_programming_team.Server.Handlers.Creating.{
  Change-reply, handle_menu_request-Change, handle_order_create_client-Change,
  handle_order_update_client-Change, handle_order_cancel_client-Change, handle_call_staff-Change,
  note_staff_call_lem, announce_staff_call_lem,
}
use system_programming_team.Server.Handlers.{reply, note_staff_call, announce_staff_call}
use system_programming_team.Server.Lifecycle.{sigint_handler}
use system_programming_team.Server.Orders.Machine.History.{
  Course-closed, Later, Later-refl, Later-trans, Change-Later,
}
use system_programming_team.Server.Orders.Machine.Invariant.{Inv, Change-Inv}
use system_programming_team.Server.Orders.Machine.Operations.{
  server_update_order_status-Change, server_cancel_order-Change, server_pay_order-Change,
  server_create_order-Change, server_save_config_lem,
}
use system_programming_team.Server.Orders.Machine.{Change, same}
use system_programming_team.Server.Orders.{
  server_update_order_status, server_cancel_order, server_pay_order, server_create_order,
}
use system_programming_team.Server.Session.{
  hello, open_session, enter, leave, serve, begins, is_table, is_kitchen,
}
use system_programming_team.Server.{ServerContext, server_save_config}
use system_programming_team.Text.{codes}

Change-if :
    (c : ServerContext) (b : Bool) {x y : ServerContext}
    → Change c x
    → Change c y
    → Change c (if b then x else y)
Change-if c true p q = p
Change-if c false p q = q

-- A round of a client's loop is one change of the orders.
pub serve-Change :
    (c : ServerContext) (fd : ℕ) (kind : ClientKind) (table : ℤ) (line : Bytes)
    → Change c (serve fd kind table line c)
unfolding serve
serve-Change c fd kind table line =
    let stay : Change c c = same refl refl in
    let say : (t : Bytes) → Change c (reply fd t c) = λ t. Change-reply c fd t stay in
    let no = say (take 16 (codes "ERROR|forbidden\n")) in
    Change-if c (bytes_eq line (codes "MENU_REQUEST")) (handle_menu_request-Change c fd) (
      Change-if c (begins (codes "ORDER_CREATE|") line)
        (Change-if c (is_table kind) (handle_order_create_client-Change c fd line table) no)
        (Change-if c (begins (codes "ORDER_CANCEL|") line)
          (Change-if c (is_table kind) (handle_order_cancel_client-Change c fd line table) no)
          (Change-if c (begins (codes "ORDER_UPDATE|") line)
            (Change-if c (is_kitchen kind) (handle_order_update_client-Change c line) no)
            (Change-if c (begins (codes "CALL_STAFF|") line)
              (Change-if c (is_table kind)
                (Change-reply c fd (take 9 (codes "OK|staff\n")) (handle_call_staff-Change c line))
                no)
              (Change-if c (bytes_eq line (codes "PING")) (say (take 5 (codes "PONG\n")))
                (say (take 14 (codes "ERROR|unknown\n"))))))))

pub open_session-Change :
    (c : ServerContext) (fd : ℕ) (line : Bytes) → Change c (open_session fd line c).1
unfolding open_session enter leave reply
open_session-Change c fd line = elim (Result-cases (hello line)) [
  | inl (e, h) ↦ rw (h, open_session) (same refl refl)
  | inr (who, h) ↦ elim (Bool-cases (write_all fd (codes "OK|hello\n") c.world).0) [
    | inl w ↦ rw (h, w, open_session) (same refl refl)
    | inr w ↦ rw (h, w, open_session) (same refl refl)
  ]
]

pub data Step (c : ServerContext) : ServerContext → Type 0 where
  arrives : (fd : ℕ) (line : Bytes) → Step c (open_session fd line c).1
  sends :
      (fd : ℕ) (kind : ClientKind) (table : ℤ) (line : Bytes) → Step c (serve fd kind table line c)
  leaves : (fd : ℕ) → Step c (leave fd c)
  notes : (table : ℤ) → Step c (note_staff_call table c)
  announces : (table : ℤ) → Step c (announce_staff_call table c)
  creates : (table : ℤ) (cart : Cart) → Step c (server_create_order c table cart).1
  updates : (id : ℤ) (st : OrderStatus) → Step c (server_update_order_status c id st).1
  cancels : (id table : ℤ) → Step c (server_cancel_order c id table).1
  pays : (id : ℤ) → Step c (server_pay_order c id).1
  saves : Step c (server_save_config c)
  edits : (menu : MenuCatalog) → Step c (record c { menu = menu })
  seats : (n : ℤ) → Step c (record c { cfg = record c.cfg { max_tables = n } })
  calms : (calls : List ℤ) → Step c (record c { staff_call_at = calls })
  interrupts : Step c (sigint_handler c)

pub Step-Change : {c d : ServerContext} → Step c d → Change c d
unfolding leave sigint_handler
Step-Change {c} (arrives fd line) = open_session-Change c fd line
Step-Change {c} (sends fd kind table line) = serve-Change c fd kind table line
Step-Change {c} (leaves fd) = same refl refl
Step-Change {c} (notes table) =
    let q = note_staff_call_lem table c in same q.0 (ap (λ k. k.next_order_id) q.1)
Step-Change {c} (announces table) =
    let q = announce_staff_call_lem table c in same q.0 (ap (λ k. k.next_order_id) q.1)
Step-Change {c} (creates table cart) = server_create_order-Change c table cart
Step-Change {c} (updates id st) = server_update_order_status-Change c id st
Step-Change {c} (cancels id table) = server_cancel_order-Change c id table
Step-Change {c} (pays id) = server_pay_order-Change c id
Step-Change {c} saves = let q = server_save_config_lem c in same q.0 (ap (λ k. k.next_order_id) q.1)
Step-Change {c} (edits menu) = same refl refl
Step-Change {c} (seats n) = same refl refl
Step-Change {c} (calms calls) = same refl refl
Step-Change {c} interrupts = same refl refl

pub data Reach (c : ServerContext) : ServerContext → Type 0 where
  here : Reach c c
  next : {d e : ServerContext} → Reach c d → Step d e → Reach c e

-- A server with no order yet, whose next id leaves room for as many orders as there are places.
pub record Starts (c : ServerContext) : Type 0 where
  pub empty : c.orders ≡ []
  pub positive : pos 0 <ℤ c.cfg.next_order_id
  pub room : pos_part c.cfg.next_order_id + max_orders < 2 ^ 31

Starts-Inv : (c : ServerContext) → Starts c → Inv c
Starts-Inv c s = record {
  bounded = rw s.empty (omega arith);
  positive = s.positive;
  room = rw s.empty (omega (arith, s.room));
  distinct = rw s.empty tt;
  kept = rw s.empty tt;
}

-- From a server with no orders whose next id is positive and more than 256 below 2^31, however the
-- threads interleave, at most MAX_ORDERS orders are kept, their ids are positive, distinct and below
-- the next id, which has not overflowed, and each has a line and the total of its lines.
pub Reach-Inv : {c d : ServerContext} → Starts c → Reach c d → Inv d
Reach-Inv {c} s here = Starts-Inv c s
Reach-Inv s (next r st) = Change-Inv (Step-Change st) (Reach-Inv s r)

Reach-Course :
    {c d : ServerContext}
    → Reach c d
    → (k : ℤ) (o : Order) → find order_key k c.orders ≡ some o
    → (p : Order) × (find order_key k d.orders ≡ some p) × Later o p
Reach-Course here k o f = (o, f, Later-refl o)
Reach-Course (next r st) k o f =
    let (p, g, l) = Reach-Course r k o f in
    let (q, h, m) = Change-Later (Step-Change st) k p g in (q, h, Later-trans l m)

-- However the threads interleave, an order that the server has is never lost: it keeps its table,
-- its lines, its total and its time, and its state only goes along the moves; once paid or
-- cancelled it stays so.
pub Reach-Later :
    {c d : ServerContext}
    → Reach c d
    → (k : ℤ) (o : Order) → find order_key k c.orders ≡ some o
    → (p : Order) × (find order_key k d.orders ≡ some p)
      × Later o p
      × ((o.status ≡ paid) ⊎ (o.status ≡ cancelled) → p.status ≡ o.status)
Reach-Later r k o f =
    let (p, g, l) = Reach-Course r k o f in (p, g, l, λ h. Course-closed l.course h)
