-- ===== src/Server/Clients.antt =====
-- What the clients are sent, and the table of clients.
use system_programming_team.Common.{
  ClientKind, no_client, table_client, kitchen_client, Order, OrderStatus, waiting, cooking, done,
  paid, cancelled, max_proto_line,
}
use system_programming_team.Os.Laws.{stream, write_all-Wrote}
use system_programming_team.Os.{
  Reply, fine, fails, interrupted, short, World, send, write_all, write_loop,
}
use system_programming_team.Protocol.{proto_build_order_broadcast}
use system_programming_team.Prelude.{
  ℕ, zero, suc, subst, ◌≡◌, ◌⊎◌, not, All, take, drop, eqb_ℤ, pos, refl, sym, ap, ◌∙◌, List, [],
  ◌∷◌, ◌++◌, append-nil, append_assoc, none, some, Bool, true, false, ◌&&◌, arith, if◌then◌else◌,
  ◌==◌, Bytes, ℤ, Bool-cases, Option-cases, inl, inr, ==_self,
}
use system_programming_team.Server.{
  ClientSlot, broadcast_raw, event_line, is_shown, send_snapshot_locked, server_register_client,
  server_unregister_fd, is_fd, is_closed,
}

-- Replies by which no write fails; it may be short or interrupted.
abbrev pub moves : Reply → Bool
moves fine = true
moves interrupted = true
moves fails = false
moves (short zero) = false
moves (short (suc n)) = true

-- A world in which no write is going to fail.
abbrev pub IsCalm : World → Type 0
IsCalm w = All (λ r. moves r ≡ true) w.replies

write_loop-IsCalm :
    (rs : List Reply) (fd : ℕ) (s : Bytes) (w : World)
    → All (λ r. moves r ≡ true) rs
    → ((write_loop rs fd s w).0 ≡ true) × IsCalm (write_loop rs fd s w).1
unfolding write_loop
write_loop-IsCalm rs fd [] w a = (refl, a)
write_loop-IsCalm [] fd (c ∷ s) w a = (refl, tt)
write_loop-IsCalm (fine ∷ rs) fd (c ∷ s) w a = (refl, a.1)
write_loop-IsCalm (fails ∷ rs) fd (c ∷ s) w a = absurd (ground (arith, a.0))
write_loop-IsCalm (interrupted ∷ rs) fd (c ∷ s) w a = write_loop-IsCalm rs fd (c ∷ s) w a.1
write_loop-IsCalm (short zero ∷ rs) fd (c ∷ s) w a = absurd (ground (arith, a.0))
write_loop-IsCalm (short (suc n) ∷ rs) fd (c ∷ s) w a =
    write_loop-IsCalm rs fd (drop n s) (send fd (c ∷ take n s) w) a.1

-- In a calm world `write_all` sends the whole text on its socket and nothing elsewhere.
write_all-IsCalm :
    (fd i : ℕ) (s : Bytes) (w : World)
    → IsCalm w
    → (stream i (write_all fd s w).1.sent ≡ stream i w.sent ++ (if fd == i then s else []))
      × IsCalm (write_all fd s w).1
unfolding write_all
write_all-IsCalm fd i s w h =
    let (part, rest, e, whole, out, _) = write_all-Wrote fd s w in
    let (sent_all, calm) = write_loop-IsCalm w.replies fd s w h in
    let all : part ≡ s = sym (e ∙ ap (◌++◌ part) (whole sent_all) ∙ append-nil part) in
    (out i ∙ ap (λ t. stream i w.sent ++ (if fd == i then t else [])) all, calm)

-- What the slots have a socket sent.
abbrev pub heard : List ClientSlot → ℕ → Bytes → Bytes
heard [] i msg = []
heard (s ∷ slots) i msg = (if s.in_use && is_fd i s.fd then msg else []) ++ heard slots i msg

-- One round of a broadcast.
abbrev deliver : ClientSlot → Bytes → World → World
deliver s msg w = if s.in_use then elim s.fd [ none ↦ w | some fd ↦ (write_all fd msg w).1 ] else w

deliver-IsCalm :
    (s : ClientSlot) (msg : Bytes) (w : World) (i : ℕ)
    → IsCalm w
    → (stream i (deliver s msg w).sent
        ≡ stream i w.sent ++ (if s.in_use && is_fd i s.fd then msg else []))
      × IsCalm (deliver s msg w)
deliver-IsCalm s msg w i h = elim (Bool-cases s.in_use) [
  | inr e ↦ rw e (sym (append-nil (stream i w.sent)), h)
  | inl e ↦ elim (Option-cases s.fd) [
    | inl n ↦ rw (e, n) (sym (append-nil (stream i w.sent)), h)
    | inr (fd, n) ↦ rw (e, n) (write_all-IsCalm fd i msg w h)
  ]
]

-- While no write fails, whether or not writes are short or interrupted, a broadcast reaches each socket once for every slot in use that holds it,
-- and no other socket.
pub broadcast_raw-heard :
    (slots : List ClientSlot) (msg : Bytes) (w : World) (i : ℕ)
    → IsCalm w
    → (stream i (broadcast_raw slots msg w).sent ≡ stream i w.sent ++ heard slots i msg)
      × IsCalm (broadcast_raw slots msg w)
unfolding broadcast_raw
broadcast_raw-heard [] msg w i h = (sym (append-nil _), h)
broadcast_raw-heard (s ∷ slots) msg w i h =
    let (sent, calm) = deliver-IsCalm s msg w i h in
    let (all, calm') = broadcast_raw-heard slots msg (deliver s msg w) i calm in
    (
      all
          ∙ ap (λ x. x ++ heard slots i msg) sent
          ∙ append_assoc (stream i w.sent) _ (heard slots i msg),
      calm',
    )

-- The orders that a client may see: the kitchen those that are open, a table its own of them.
abbrev pub is_open : OrderStatus → Bool
is_open waiting = true
is_open cooking = true
is_open done = true
is_open paid = false
is_open cancelled = false

abbrev pub may_see : ClientKind → ℤ → Order → Bool
may_see table_client table o = is_open o.status && eqb_ℤ o.table_id table
may_see kitchen_client table o = is_open o.status
may_see no_client table o = is_open o.status

is_closed-is_open : (st : OrderStatus) → is_closed st ≡ not (is_open st)
is_closed-is_open waiting = refl
is_closed-is_open cooking = refl
is_closed-is_open done = refl
is_closed-is_open paid = refl
is_closed-is_open cancelled = refl

is_shown-may_see :
    (kind : ClientKind) (table : ℤ) (o : Order) → is_shown kind table o ≡ may_see kind table o
is_shown-may_see table_client table o = rw (is_closed-is_open o.status) (ground arith)
is_shown-may_see kitchen_client table o = rw (is_closed-is_open o.status) (ground arith)
is_shown-may_see no_client table o = rw (is_closed-is_open o.status) (ground arith)

-- The events of the orders that a client may see, in order.
abbrev pub snapshot : List Order → ClientKind → ℤ → Bytes
snapshot [] kind table = []
snapshot (o ∷ os) kind table =
    (if may_see kind table o
      then proto_build_order_broadcast o max_proto_line ++ b'\n' ∷ []
      else [])
    ++ snapshot os kind table

-- While no write fails, whether or not writes are short or interrupted, a client that comes in is
-- sent the events of exactly the orders that are neither paid nor cancelled and, for a table, are its
-- own, in the order of the array, each as one line.
pub send_snapshot_locked-snapshot :
    (os : List Order) (fd : ℕ) (kind : ClientKind) (table : ℤ) (w : World)
    → IsCalm w
    → (stream fd (send_snapshot_locked os fd kind table w).sent
        ≡ stream fd w.sent ++ snapshot os kind table)
      × IsCalm (send_snapshot_locked os fd kind table w)
unfolding send_snapshot_locked event_line
send_snapshot_locked-snapshot [] fd kind table w h = (sym (append-nil _), h)
send_snapshot_locked-snapshot (o ∷ os) fd kind table w h =
    let same = is_shown-may_see kind table o in
    elim (Bool-cases (may_see kind table o)) [
      | inl e ↦
          let (sent, calm) = write_all-IsCalm fd fd (event_line o) w h in
          let (all, calm') =
            send_snapshot_locked-snapshot os fd kind table (write_all fd (event_line o) w).1 calm in
          let shown : is_shown kind table o ≡ true = same ∙ e in
          rw (shown, send_snapshot_locked)
            (rw e (
              all
                  ∙ ap (λ x. x ++ snapshot os kind table) (sent ∙ rw (==_self fd))
                  ∙ append_assoc (stream fd w.sent) (event_line o) (snapshot os kind table),
              calm',
            ))
      | inr e ↦
          let hidden : is_shown kind table o ≡ false = same ∙ e in
          rw (hidden, send_snapshot_locked)
            (rw e (send_snapshot_locked-snapshot os fd kind table w h))
    ]

-- `ys` is `xs` with its first entry for which `test` holds replaced by `y`, or `xs` where none does.
abbrev pub FirstReplaced :
    (ClientSlot → Type 0) → ClientSlot → List ClientSlot → List ClientSlot → Type 0
FirstReplaced P y xs ys =
    (All (λ s. ¬ P s) xs × (ys ≡ xs))
    ⊎ ((front : List ClientSlot) × (x : ClientSlot) × (behind : List ClientSlot) × (xs
          ≡ front ++ x ∷ behind)
        × All (λ s. ¬ P s) front
        × P x
        × (ys ≡ front ++ y ∷ behind))

FirstReplaced-later :
    (P : ClientSlot → Type 0) (y s : ClientSlot) (xs ys : List ClientSlot)
    → ¬ P s
    → FirstReplaced P y xs ys
    → FirstReplaced P y (s ∷ xs) (s ∷ ys)
FirstReplaced-later P y s xs ys n (inl (a, e)) = inl ((n, a), ap (◌∷◌ s) e)
FirstReplaced-later P y s xs ys n (inr (f, x, b, e, a, p, q)) =
    inr (s ∷ f, x, b, ap (◌∷◌ s) e, (n, a), p, ap (◌∷◌ s) q)

abbrev pub Free : ClientSlot → Type 0
Free s = s.in_use ≡ false

abbrev pub Holds : ℕ → ClientSlot → Type 0
Holds fd s = (s.in_use ≡ true) × (s.fd ≡ some fd)

Holds_lem :
    (fd : ℕ) (s : ClientSlot)
    → (((s.in_use && is_fd fd s.fd) ≡ true) × Holds fd s)
      ⊎ (((s.in_use && is_fd fd s.fd) ≡ false) × (¬ Holds fd s))
Holds_lem fd s = elim (Bool-cases s.in_use) [
  | inr e ↦ inr (rw e refl, λ (h, _). ground (arith, e, h))
  | inl e ↦ elim (Option-cases s.fd) [
    | inl f ↦ inr (rw (e, f) refl, λ (_, h). ground (arith, f, h))
    | inr (i, f) ↦ elim (Bool-cases (i == fd)) [
      | inl g ↦ let same : i ≡ fd = ground (arith, g) in inl (rw (e, f) g, (e, f ∙ ap some same))
      | inr g ↦ inr (
        rw (e, f) g,
        λ (_, h). let same : i ≡ fd = ground (arith, sym f ∙ h) in ground (arith, g, same),
      )
    ]
  ]
]

-- The client's slot, and a free one.
abbrev pub slot_of : ℕ → ClientKind → ℤ → ClientSlot
slot_of fd kind table = record { fd = some fd; in_use = true; kind = kind; table_id = table }

abbrev pub no_slot : ClientSlot
no_slot = record { fd = none; in_use = false; kind = no_client; table_id = pos 0 }

-- Registering a client puts its descriptor, kind and table into the first slot that is free;
-- unregistering makes the first slot in use that holds the descriptor free, with no descriptor, kind
-- or table. Every other slot stays as it is, and all do where there is no such slot.
pub clients_lem :
    (slots : List ClientSlot) (fd : ℕ) (kind : ClientKind) (table : ℤ)
    → FirstReplaced Free (slot_of fd kind table) slots (server_register_client slots fd kind table)
      × FirstReplaced (Holds fd) no_slot slots (server_unregister_fd slots fd)
unfolding server_register_client server_unregister_fd
clients_lem [] fd kind table = (inl (tt, refl), inl (tt, refl))
clients_lem (s ∷ slots) fd kind table =
    let (a, b) = clients_lem slots fd kind table in
    let new = slot_of fd kind table in
    let put : Bool → List ClientSlot =
      λ t. if not t then new ∷ slots else s ∷ server_register_client slots fd kind table in
    let taken_off : Bool → List ClientSlot =
      λ t. if t then no_slot ∷ slots else s ∷ server_unregister_fd slots fd in
    (
      elim (Bool-cases s.in_use) [
        | inr e ↦
            subst (FirstReplaced Free new (s ∷ slots)) (sym (ap put e))
              (inr ([], s, slots, refl, tt, e, refl))
        | inl e ↦
            subst (FirstReplaced Free new (s ∷ slots)) (sym (ap put e))
              (FirstReplaced-later Free new s slots _ (λ h. ground (arith, e, h)) a)
      ],
      elim (Holds_lem fd s) [
        | inl (e, h) ↦
            subst (FirstReplaced (Holds fd) no_slot (s ∷ slots)) (sym (ap taken_off e))
              (inr ([], s, slots, refl, tt, h, refl))
        | inr (e, h) ↦
            subst (FirstReplaced (Holds fd) no_slot (s ∷ slots)) (sym (ap taken_off e))
              (FirstReplaced-later (Holds fd) no_slot s slots _ h b)
      ],
    )
