-- ===== src/Order/Totals.antt =====
-- `cart_total` of src/order.c and the exact sum.
use system_programming_team.Common.{CartItem}
use system_programming_team.Order.{Cart, cart_total, total_from}
use system_programming_team.Prelude.{
  ℕ, ◌+◌, ◌*◌, ◌^◌, ◌<◌, ◌≡◌, ◌∙◌, ap, List, [], ◌∷◌, arith, All, ℤ, pos, negsuc, pos_part, add_int,
  mul_int, ◌≤ℤ◌,
}

-- The exact sum of price times quantity, for lines that have no negative number.
abbrev pub exact : List CartItem → ℕ
exact [] = 0
exact (l ∷ ls) = pos_part l.price * pos_part l.qty + exact ls

abbrev pub IsPriced : CartItem → Type 0
IsPriced l = (pos 0 ≤ℤ l.price) × (pos 0 ≤ℤ l.qty)

mul_int-pos :
    (a b : ℤ)
    → pos 0 ≤ℤ a
    → pos 0 ≤ℤ b
    → pos_part a * pos_part b < 2 ^ 31
    → mul_int a b ≡ pos (pos_part a * pos_part b)
unfolding mul_int
mul_int-pos (pos a) (pos b) ha hb h = ground arith
mul_int-pos (pos a) (negsuc b) ha hb h = absurd (omega arith)
mul_int-pos (negsuc a) b ha hb h = absurd (omega arith)

add_int-pos : (a b : ℕ) → a + b < 2 ^ 31 → add_int (pos a) (pos b) ≡ pos (a + b)
unfolding add_int
add_int-pos a b h = ground arith

total_from-exact :
    (t : ℕ) (ls : List CartItem)
    → All IsPriced ls
    → t + exact ls < 2 ^ 31
    → total_from (pos t) ls ≡ pos (t + exact ls)
unfolding total_from
total_from-exact t [] p h = ap pos (omega arith)
total_from-exact t (l ∷ ls) p h =
    let q = pos_part l.price * pos_part l.qty in
    rw (mul_int-pos l.price l.qty p.0.0 p.0.1 (omega arith), add_int-pos t q (omega arith))
      (total_from-exact (t + q) ls p.1 (omega arith) ∙ ap pos (omega arith))

-- The total of a cart with no negative price or quantity is the exact sum of price times quantity
-- over its lines, if that sum is below 2 ^ 31: no intermediate `int` overflows.
pub cart_total-exact :
    (c : Cart) → All IsPriced c.items → exact c.items < 2 ^ 31 → cart_total c ≡ pos (exact c.items)
unfolding cart_total
cart_total-exact c p h = total_from-exact 0 c.items p (omega arith) ∙ ap pos (omega arith)
