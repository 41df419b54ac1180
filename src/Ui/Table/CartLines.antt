-- ===== src/Ui/Table/CartLines.antt =====
-- The keys of the cart's screen of src/ui.c, the cart and the selection.
use system_programming_team.Common.{CartItem}
use system_programming_team.Keyed.Laws.{update_first-length}
use system_programming_team.Keyed.{update_first}
use system_programming_team.Order.Lines.{IsValid, cart_set_qty-Replaced, cart_remove_line-Replaced}
use system_programming_team.Order.{Cart, cart_id, cart_init, cart_set_qty, cart_remove_line}
use system_programming_team.Os.{World}
use native.Mathlib.Nat.{mod-lt, zero-lt-suc}
use system_programming_team.Prelude.{
  ℕ, zero, suc, ◌+◌, ◌-◌, ◌%◌, ◌<◌, ◌≡◌, refl, sym, ap, subst, Bool, false, not, ◌&&◌, ◌||◌, ◌==◌,
  List, [], ◌∷◌, some, arith, if◌then◌else◌, leb, length, get_elem?, All, ℤ, pos, negsuc, ◌<ℤ◌,
  ◌+ℤ◌, add_int, wrap, leb_ℤ, int_max, Bool-cases, Option-cases, inl, inr, ◌⊎◌,
}
use system_programming_team.Ui.Rounds.{
  Key, no_key, key_up, key_down, key_left, key_right, key_enter, key_f, char, is_char, or_one,
}
use system_programming_team.Ui.Table.Dishes.{or_cart}
use system_programming_team.Ui.Table.Loop.{
  popup_key, change_qty, or_same, remove_line, clamped, is_order_key, line_arrow, lines_key,
  cart_key,
}
use system_programming_team.Ui.Table.{TableUi, on_cart, clamp}
use system_programming_team.Ui.{ui_submit_cart_order}

-- The selection is at a line of the cart, or is 0.
abbrev pub IsIn : ℕ → Cart → Type 0
IsIn sel cart = (sel < length cart.items) ⊎ (sel ≡ 0)

-- What a key of the cart's screen keeps.
abbrev pub Keeps : TableUi → TableUi → Type 0
Keeps ui v = IsValid v.cart × (v.undefined ≡ ui.undefined) × (v.scr ≡ on_cart → IsIn v.sel v.cart)

at_line :
    {A : Type 0} (xs : List A) (i : ℕ)
    → (i < length xs) ⊎ (i ≡ 0)
    → leb (length xs) 0 ≡ false
    → (x : A) × (get_elem? xs i ≡ some x)
at_line [] i h e = absurd (ground arith)
at_line (x ∷ xs) zero h e = (x, refl)
at_line (x ∷ xs) (suc i) (inr q) e = absurd (omega (arith, q))
at_line (x ∷ []) (suc i) (inl h) e = absurd (omega (arith, h))
at_line (x ∷ y ∷ xs) (suc i) (inl h) e = at_line (y ∷ xs) i (inl (omega (arith, h))) (ground arith)

clamp-IsIn : (sel : ℕ) (c : Cart) → IsIn (clamp (length c.items) sel) c
clamp-IsIn sel c = elim (Bool-cases (leb (length c.items) sel)) [
  | inl e ↦ elim (Bool-cases (length c.items == 0)) [
    | inl z ↦ rw e (inr (ground arith))
    | inr z ↦ rw e (inl (ground arith))
  ]
  | inr e ↦ rw e (inl (ground arith))
]

set-IsValid : (c : Cart) (k q : ℤ) → IsValid c → IsValid (or_cart (cart_set_qty c k q) c)
set-IsValid c k q v = elim (cart_set_qty-Replaced c k q v) [
  | inl (e, p, _) ↦ subst (λ r. IsValid (or_cart r c)) (sym p) v
  | inr (d, p, w) ↦ subst (λ r. IsValid (or_cart r c)) (sym p) w.1
]

remove-IsValid : (c : Cart) (k : ℤ) → IsValid c → IsValid (or_same (cart_remove_line c k) c)
remove-IsValid c k v = elim (cart_remove_line-Replaced c k v) [
  | inl (p, _) ↦ subst (λ r. IsValid (or_same r c)) (sym p) v
  | inr (d, p, _, w) ↦ subst (λ r. IsValid (or_same r c)) (sym p) w
]

-- A positive quantity removes no line.
set_length :
    (c : Cart) (k q : ℤ)
    → leb_ℤ q (pos 0) ≡ false
    → length (or_cart (cart_set_qty c k q) c).items ≡ length c.items
unfolding cart_set_qty
set_length c k q e =
    elim (Option-cases (update_first cart_id (λ l. record l { qty = q }) k c.items)) [
      | inl n ↦ rw (e, n, cart_set_qty) refl
      | inr (items, p) ↦
          rw (e, p, cart_set_qty)
            (update_first-length cart_id (λ l. record l { qty = q }) k (λ l _. refl) c.items items
              p)
    ]

more_positive : (a : ℤ) → pos 0 <ℤ a → a <ℤ int_max → leb_ℤ (add_int a (pos 1)) (pos 0) ≡ false
unfolding add_int wrap ◌+ℤ◌
more_positive a p h = ground (arith, p, h)

All-at :
    {A : Type 0} (P : A → Type 0) (xs : List A) (i : ℕ) (x : A)
    → All P xs
    → get_elem? xs i ≡ some x
    → P x
All-at P [] i x a h = absurd (ground arith)
All-at P (y ∷ xs) zero x a h = let same : y ≡ x = ground (arith, h) in subst P same a.0
All-at P (y ∷ xs) (suc i) x a h = All-at P xs i x a.1 h

line_arrow-IsIn :
    (key : Key) (sel : ℕ) (c : Cart) → IsIn sel c → IsIn (line_arrow key (length c.items) sel) c
unfolding line_arrow
line_arrow-IsIn key sel c h = by_key key
  where
    some_mod :
        (n : ℕ) → leb (length c.items) 0 ≡ false → n % or_one (length c.items) < length c.items
    some_mod n e = go (length c.items) e
      where
        go : (k : ℕ) → leb k 0 ≡ false → n % or_one k < k
        go zero e = absurd (ground arith)
        go (suc k) e =
            let same : or_one (suc k) ≡ suc k = ground arith in
            subst (λ d. n % d < suc k) (sym same) (mod-lt n (zero-lt-suc k))

    by_key : (key : Key) → IsIn (line_arrow key (length c.items) sel) c
    by_key no_key = h
    by_key key_left = h
    by_key key_right = h
    by_key key_enter = h
    by_key (key_f n) = h
    by_key (char d) = h
    by_key key_up = elim (Bool-cases (leb (length c.items) 0)) [
      | inl e ↦ rw (e, line_arrow) h
      | inr e ↦ rw (e, line_arrow) (inl (some_mod (sel + length c.items - 1) e))
    ]
    by_key key_down = elim (Bool-cases (leb (length c.items) 0)) [
      | inl e ↦ rw (e, line_arrow) h
      | inr e ↦ rw (e, line_arrow) (inl (some_mod (sel + 1) e))
    ]

change-Keeps :
    (ui : TableUi) (l : CartItem) (by : ℤ)
    → IsValid ui.cart
    → get_elem? ui.cart.items ui.sel ≡ some l
    → IsValid (change_qty by ui).cart × ((change_qty by ui).undefined ≡ ui.undefined)
unfolding change_qty
change-Keeps ui l by v g =
    rw (g, change_qty) (set-IsValid ui.cart l.menu_id (add_int l.qty by) v, refl)

more-IsIn :
    (ui : TableUi) (l : CartItem)
    → IsIn ui.sel ui.cart
    → get_elem? ui.cart.items ui.sel ≡ some l
    → pos 0 <ℤ l.qty
    → l.qty <ℤ int_max
    → IsIn (change_qty (pos 1) ui).sel (change_qty (pos 1) ui).cart
unfolding change_qty
more-IsIn ui l h g p m =
    let n = set_length ui.cart l.menu_id (add_int l.qty (pos 1)) (more_positive l.qty p m) in
    rw (g, change_qty) (same h n)
  where
    same : {a b : ℕ} → (ui.sel < a) ⊎ (ui.sel ≡ 0) → b ≡ a → (ui.sel < b) ⊎ (ui.sel ≡ 0)
    same (inl l) q = inl (omega (arith, l, q))
    same (inr z) q = inr z

remove-Keeps :
    (ui : TableUi) (l : CartItem)
    → IsValid ui.cart
    → get_elem? ui.cart.items ui.sel ≡ some l
    → IsValid (remove_line ui).cart × ((remove_line ui).undefined ≡ ui.undefined)
unfolding remove_line
remove-Keeps ui l v g = rw (g, remove_line) (remove-IsValid ui.cart l.menu_id v, refl)

clamped-Keeps :
    (ui v : TableUi) → IsValid v.cart × (v.undefined ≡ ui.undefined) → Keeps ui (clamped v)
clamped-Keeps ui v (w, u) = (w, u, λ _. clamp-IsIn v.sel v.cart)

lines_key-Keeps :
    (key : Key) (ui : TableUi)
    → IsValid ui.cart
    → IsIn ui.sel ui.cart
    → All (λ l. l.qty <ℤ int_max) ui.cart.items
    → Keeps ui (lines_key key ui)
unfolding lines_key
lines_key-Keeps key ui v h m =
    let lines = length ui.cart.items in
    elim (Bool-cases ((is_char b'+' key || is_char b'=' key) && not (leb lines 0))) [
      | inl e ↦
          let (l, g) = at_line ui.cart.items ui.sel h (ground arith) in
          let (w, u) = change-Keeps ui l (pos 1) v g in
          rw (e, lines_key)
            (
              w,
              u,
              λ _.
                  more-IsIn ui l h g
                    (All-at (λ x. pos 0 <ℤ x.qty) ui.cart.items ui.sel l v.ordered g)
                    (All-at (λ x. x.qty <ℤ int_max) ui.cart.items ui.sel l m g),
            )
      | inr e1 ↦ elim (Bool-cases (is_char b'-' key && not (leb lines 0))) [
        | inl e ↦
            let (l, g) = at_line ui.cart.items ui.sel h (ground arith) in
            rw (e1, e, lines_key)
              (clamped-Keeps ui (change_qty (negsuc 0) ui) (change-Keeps ui l (negsuc 0) v g))
        | inr e2 ↦ elim (Bool-cases (is_char b'r' key && not (leb lines 0))) [
          | inl e ↦
              let (l, g) = at_line ui.cart.items ui.sel h (ground arith) in
              rw (e1, e2, e, lines_key) (clamped-Keeps ui (remove_line ui) (remove-Keeps ui l v g))
          | inr e3 ↦ elim (Bool-cases (is_char b'm' key)) [
            | inl e ↦ rw (e1, e2, e3, e, lines_key) (v, refl, λ _. inr refl)
            | inr e4 ↦ elim (Bool-cases (is_order_key key)) [
              | inr e ↦
                  rw (e1, e2, e3, e4, e, lines_key)
                    (v, refl, λ _. line_arrow-IsIn key ui.sel ui.cart h)
              | inl e5 ↦ elim (Bool-cases (leb lines 0)) [
                | inl e ↦ rw (e1, e2, e3, e4, e5, e, lines_key) (v, refl, λ _. h)
                | inr e ↦ rw (e1, e2, e3, e4, e5, e, lines_key) (v, refl, λ _. h)
              ]
            ]
          ]
        ]
      ]
    ]

empty-IsValid : IsValid cart_init
unfolding cart_init
empty-IsValid = record { bounded = omega arith; distinct = tt; ordered = tt }

popup_key-Keeps :
    (sock : ℕ) (key : Key) (ui : TableUi) (w : World)
    → IsValid ui.cart
    → IsIn ui.sel ui.cart
    → Keeps ui (popup_key sock key ui w).0
unfolding popup_key ui_submit_cart_order
popup_key-Keeps sock key ui w v h = elim (Bool-cases (is_char b'y' key || is_char b'Y' key)) [
  | inl e ↦ elim (Bool-cases (leb (length ui.cart.items) 0)) [
    | inl z ↦ rw (e, z, popup_key) (v, refl, λ _. h)
    | inr z ↦ rw (e, z, popup_key) (empty-IsValid, refl, λ q. absurd (cc))
  ]
  | inr e ↦ elim (Bool-cases (is_char b'n' key || (is_char b'N' key || is_char 27 key))) [
    | inl f ↦ rw (e, f, popup_key) (v, refl, λ _. h)
    | inr f ↦ rw (e, f, popup_key) (v, refl, λ _. h)
  ]
]

-- While the selection is at a line of a well-formed cart, or at 0, and no quantity is the largest
-- int, a key of the cart's screen reads no line behind the last one, keeps the cart well formed,
-- and leaves the selection at a line or at 0 if the screen stays the cart's.
pub cart_key-Keeps :
    (sock : ℕ) (key : Key) (ui : TableUi) (w : World)
    → IsValid ui.cart
    → IsIn ui.sel ui.cart
    → All (λ l. l.qty <ℤ int_max) ui.cart.items
    → Keeps ui (cart_key sock key ui w).0
unfolding cart_key
cart_key-Keeps sock key ui w v h m =
    let choose : Bool → TableUi × World =
      λ b. if b then popup_key sock key ui w else (lines_key key ui, w) in
    elim (Bool-cases ui.table_confirm_popup) [
      | inl e ↦ subst (λ r. Keeps ui r.0) (sym (ap choose e)) (popup_key-Keeps sock key ui w v h)
      | inr e ↦ subst (λ r. Keeps ui r.0) (sym (ap choose e)) (lines_key-Keeps key ui v h m)
    ]
