-- ===== src/Ui/Kitchen/Updates.antt =====
-- What the keys of the kitchen's screen send, and what the server makes of it.
use system_programming_team.Ui.Kitchen.UpdateLines.{
  update_line, update_text-line, update_line-Lacks, update_line-read,
}
use system_programming_team.Common.{
  Order, OrderStatus, waiting, cooking, done, paid, cancelled, max_orders,
}
use system_programming_team.Keyed.Laws.{find-of_absent}
use system_programming_team.Keyed.{find, Distinct}
use system_programming_team.Order.{order_key}
use system_programming_team.Os.{World, write_all}
use system_programming_team.Prelude.{
  ℕ, zero, suc, ◌≡◌, ◌≢◌, refl, sym, ap, subst, ◌∙◌, true, false, List, [], ◌∷◌, ◌++◌, map, none,
  some, ok, arith, length, get_elem?, All, Lacks, Bytes, ℤ, pos, ◌<ℤ◌, eqb_ℤ, eqb_ℤ→eq, eqb_ℤ_self,
  IsInt, Bool-cases, Option-cases, inl, inr, ◌⊎◌,
}
use system_programming_team.Protocol.Parse.{proto_parse_order_update}
use system_programming_team.Server.Orders.{
  valid_kitchen_transition, is_paid, server_get_order, server_update_order_status,
}
use system_programming_team.Server.{ServerContext, is_closed}
use system_programming_team.Ui.Kitchen.{
  active_ids, ui_kitchen_collect_active, asked_status, send_update, kitchen_select, kitchen_key,
}
use system_programming_team.Ui.Rounds.{
  Key, no_key, key_up, key_down, key_left, key_right, key_enter, key_f, char,
}

-- No order is waiting for the kitchen twice, and all have ids that the server gives.
pub record IsBoard (board : List Order) : Type 0 where
  pub distinct : Distinct (map order_key board)
  pub ids : All (λ o. (pos 0 <ℤ o.order_id) × IsInt o.order_id) board

-- A key asks an order that is open only for a state that the server lets it go to.
asked_valid :
    (key : Key) (st new : OrderStatus)
    → is_closed st ≡ false
    → asked_status key st ≡ some new
    → (valid_kitchen_transition st new ≡ true) × (is_paid st ≡ false)
unfolding asked_status valid_kitchen_transition
asked_valid no_key st new c h = cc
asked_valid key_up st new c h = cc
asked_valid key_down st new c h = cc
asked_valid key_enter st new c h = cc
asked_valid (key_f n) st new c h = cc
asked_valid key_left waiting new c h = cc
asked_valid key_left cooking new c h = ground arith
asked_valid key_left done new c h = ground arith
asked_valid key_left paid new c h = cc
asked_valid key_left cancelled new c h = cc
asked_valid key_right waiting new c h = ground arith
asked_valid key_right cooking new c h = ground arith
asked_valid key_right done new c h = cc
asked_valid key_right paid new c h = cc
asked_valid key_right cancelled new c h = cc
asked_valid (char d) waiting new c h = ground arith
asked_valid (char d) cooking new c h = ground arith
asked_valid (char d) done new c h = ground arith
asked_valid (char d) paid new c h = absurd (ground arith)
asked_valid (char d) cancelled new c h = absurd (ground arith)

-- The server accepts a change that its rules allow.
accepted :
    (ctx : ServerContext) (oid : ℤ) (new : OrderStatus) (i : ℕ) (o : Order)
    → server_get_order ctx oid ≡ some (i, o)
    → is_paid o.status ≡ false
    → valid_kitchen_transition o.status new ≡ true
    → (server_update_order_status ctx oid new).0 ≡ ok tt
unfolding server_update_order_status
accepted ctx oid new i o g p v = rw (g, server_update_order_status) (rw (p, v) refl)

-- What an order on the board that the screen sends an update for has to do with the update.
abbrev pub Sends : ℕ → Key → List Order → World → World → Type 0
Sends sock key board w v =
    (o : Order) × (new : OrderStatus) × (text : Bytes) × (find order_key o.order_id board ≡ some o)
    × (asked_status key o.status ≡ some new)
    × Lacks b'\n' text
    × (v ≡ (write_all sock (text ++ b'\n' ∷ []) w).1)
    × (proto_parse_order_update text ≡ ok (o.order_id, new))
    × ((ctx : ServerContext) (i : ℕ) (o' : Order)
        → server_get_order ctx o.order_id ≡ some (i, o')
        → o'.status ≡ o.status
        → (server_update_order_status ctx o.order_id new).0 ≡ ok tt)

-- An open order is found under the id, which is one that the server gives.
abbrev IsOpenAt : List Order → ℤ → Type 0
IsOpenAt os oid =
    (o : Order) × (find order_key oid os ≡ some o)
    × (is_closed o.status ≡ false)
    × (o.order_id ≡ oid)
    × (pos 0 <ℤ oid)
    × IsInt oid

IsOpenAt-later :
    (o : Order) (os : List Order) (oid : ℤ)
    → All (λ j. j ≢ o.order_id) (map order_key os)
    → IsOpenAt os oid
    → IsOpenAt (o ∷ os) oid
unfolding find
IsOpenAt-later o os oid d (x, f, c, q, p, i) = elim (Bool-cases (eqb_ℤ o.order_id oid)) [
  | inl e ↦
      let absent : find order_key oid os ≡ none =
        ap (λ j. find order_key j os) (sym (eqb_ℤ→eq o.order_id oid e))
        ∙ find-of_absent order_key o.order_id os d in
      absurd (ground arith)
  | inr e ↦ (x, ground arith, c, q, p, i)
]

IsOpenAt-first :
    (o : Order) (os : List Order)
    → is_closed o.status ≡ false
    → pos 0 <ℤ o.order_id
    → IsInt o.order_id
    → IsOpenAt (o ∷ os) o.order_id
unfolding find
IsOpenAt-first o os c p i = let e = eqb_ℤ_self o.order_id in (o, rw e refl, c, refl, p, i)

-- An id of the active orders is that of an open order.
active_ids-IsOpenAt :
    (room : ℕ) (os : List Order) (i : ℕ) (oid : ℤ)
    → IsBoard os
    → get_elem? (active_ids room os) i ≡ some oid
    → IsOpenAt os oid
unfolding active_ids
active_ids-IsOpenAt room [] i oid b h = absurd (ground arith)
active_ids-IsOpenAt zero (o ∷ os) i oid b h = absurd (ground arith)
active_ids-IsOpenAt (suc room) (o ∷ os) zero oid b h =
    let tail : IsBoard os = record { distinct = b.distinct.1; ids = b.ids.1 } in
    elim (Bool-cases (is_closed o.status)) [
      | inl e ↦
          IsOpenAt-later o os oid b.distinct.0
            (active_ids-IsOpenAt (suc room) os zero oid tail (ground arith))
      | inr e ↦
          let q : o.order_id ≡ oid = ground arith in
          subst (IsOpenAt (o ∷ os)) q (IsOpenAt-first o os e b.ids.0.0 b.ids.0.1)
    ]
active_ids-IsOpenAt (suc room) (o ∷ os) (suc i) oid b h =
    let tail : IsBoard os = record { distinct = b.distinct.1; ids = b.ids.1 } in
    elim (Bool-cases (is_closed o.status)) [
      | inl e ↦
          IsOpenAt-later o os oid b.distinct.0
            (active_ids-IsOpenAt (suc room) os (suc i) oid tail (ground arith))
      | inr e ↦
          IsOpenAt-later o os oid b.distinct.0
            (active_ids-IsOpenAt room os i oid tail (ground arith))
    ]

send_update-Sends :
    (sock : ℕ) (key : Key) (board : List Order) (oid : ℤ) (w : World)
    → IsOpenAt board oid
    → (send_update sock key board oid w ≡ w)
      ⊎ Sends sock key board w (send_update sock key board oid w)
unfolding send_update
send_update-Sends sock key board oid w (o, f, c, q, p, i) =
    elim (Option-cases (asked_status key o.status)) [
      | inl n ↦ inl (rw (f, send_update) (rw n refl))
      | inr (new, a) ↦
          let (v, unpaid) = asked_valid key o.status new c a in
          inr (
            o,
            new,
            update_line oid new,
            ap (λ j. find order_key j board) q ∙ f,
            a,
            update_line-Lacks oid new,
            rw (f, send_update)
                (rw a (ap (λ t. (write_all sock t w).1) (update_text-line oid new i))),
            update_line-read oid new p i ∙ ap (λ j. ok (j, new)) (sym q),
            λ ctx k o' g s.
                accepted ctx o.order_id new k o' g (ap is_paid s ∙ unpaid)
                  (ap (λ st. valid_kitchen_transition st new) s ∙ v),
          )
    ]

-- On a board whose orders have different ids, all positive ints, a key of the kitchen's screen sends
-- nothing, or one line that the server's parser reads as an order of the board and the state that the
-- key asks for; and while the order has on the server the state that the board shows, the server accepts the change.
pub kitchen_key-Sends :
    (sock : ℕ) (key : Key) (board : List Order) (sel : ℕ) (w : World)
    → IsBoard board
    → ((kitchen_key sock key board sel w).1 ≡ w)
      ⊎ Sends sock key board w (kitchen_key sock key board sel w).1
unfolding kitchen_key ui_kitchen_collect_active
kitchen_key-Sends sock key board sel w b =
    let ids = active_ids max_orders board in
    let sel' = kitchen_select key (length ids) sel in
    elim (Option-cases (get_elem? ids sel')) [
      | inl n ↦ inl (rw (n, kitchen_key) refl)
      | inr (oid, g) ↦
          rw (g, kitchen_key)
            (send_update-Sends sock key board oid w
              (active_ids-IsOpenAt max_orders board sel' oid b g))
    ]
