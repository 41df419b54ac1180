-- ===== src/Ui/Sizes.antt =====
-- The parts of the cashier's screen in src/ui.c: rectangles, the frame, and the sums that are drawn.
use system_programming_team.Common.{CartItem, max_tables}
use system_programming_team.Order.{Cart}
use system_programming_team.Os.{World, time}
use system_programming_team.Prelude.{
  ℕ, ◌+◌, ◌-◌, ◌/◌, ◌≤◌, ◌≡◌, refl, Bool, false, ◌&&◌, not, List, [], ◌∷◌, none, some, arith, ltb,
  leb, if◌then◌else◌, get_elem?, Bytes, ℤ, pos, pos_part, leb_ℤ, ltb_ℤ, eqb_ℤ, ◌+ℤ◌, add_int, sub_ℕ,
  Bool-cases, inl, inr, ◌⊎◌,
}
use system_programming_team.Server.{ServerContext}
use system_programming_team.Text.{codes}
use system_programming_team.Ui.Pos.{PosTab, tab_home, tab_payment, tab_menu, tab_sales, tab_layout}

pub record UiRect : Type 0 where
  pub top : ℤ
  pub left : ℤ
  pub h : ℤ
  pub w : ℤ

unfoldable pub ui_rect : ℤ → ℤ → ℤ → ℤ → UiRect
ui_rect top left h w = record { top = top; left = left; h = h; w = w }

unfoldable pub ui_rect_contains : UiRect → ℤ → ℤ → Bool
unfolding add_int
ui_rect_contains r y x =
    leb_ℤ r.top y
    && (ltb_ℤ y (add_int r.top r.h) && (leb_ℤ r.left x && ltb_ℤ x (add_int r.left r.w)))

unfoldable pub ui_pos_tab_name : PosTab → Bytes
ui_pos_tab_name tab_home = codes "테이블"
ui_pos_tab_name tab_payment = codes "결제"
ui_pos_tab_name tab_menu = codes "메뉴"
ui_pos_tab_name tab_sales = codes "매출"
ui_pos_tab_name tab_layout = codes "배치"

-- The header, the main part, the side and the footer of a screen.
pub record Frame : Type 0 where
  pub header : UiRect
  pub main : UiRect
  pub side : UiRect
  pub footer : UiRect

-- `cols / 3`, between 26 and 42.
abbrev pub wanted_side : ℕ → ℕ
wanted_side cols =
    let third = cols / 3 in if ltb third 26 then 26 else if ltb 42 third then 42 else third

-- The width of the main part behind `wanted_side`, 0 where it would be negative.
abbrev pub wanted_main : ℕ → ℕ
wanted_main cols = cols - wanted_side cols - 1

-- The size of the terminal is never negative; a main part of less than 20 takes the whole width.
unfoldable pub ui_pos_layout_frame : ℕ → ℕ → Frame
unfolding ui_rect
ui_pos_layout_frame rows cols =
    let inner_h = if ltb (rows - 4) 6 then 6 else rows - 4 in
    let narrow = ltb (wanted_main cols) 20 in
    let main_w = if narrow then cols else wanted_main cols in
    let side_w = if narrow then 0 else wanted_side cols in
    record {
      header = ui_rect (pos 0) (pos 0) (pos 2) (pos cols);
      main = ui_rect (pos 2) (pos 0) (pos inner_h) (pos main_w);
      side =
          if leb side_w 0
          then ui_rect (pos 2) (pos cols) (pos inner_h) (pos 0)
          else ui_rect (pos 2) (pos (main_w + 1)) (pos inner_h) (pos side_w);
      footer = ui_rect (sub_ℕ rows 2) (pos 0) (pos 2) (pos cols);
    }

unfoldable pub total_qty : ℤ → List CartItem → ℤ
unfolding add_int
total_qty total [] = total
total_qty total (l ∷ ls) = total_qty (add_int total l.qty) ls

unfoldable pub ui_cart_total_qty : Cart → ℤ
unfolding total_qty
ui_cart_total_qty cart = total_qty (pos 0) cart.items

-- The time of the table's last call, 0 where there is none.
abbrev pub call_time : ServerContext → ℤ → ℤ
call_time ctx table_id =
    if not (leb_ℤ table_id (pos 0)) && leb_ℤ table_id (pos max_tables)
    then elim (get_elem? ctx.staff_call_at (pos_part table_id)) [ none ↦ pos 0 | some at ↦ at ]
    else pos 0

-- Whether a call is less than 180 seconds old, and the world behind `time`.
unfoldable pub ui_pos_staff_active : ServerContext → ℤ → Bool × World
unfolding time ◌+ℤ◌
ui_pos_staff_active ctx table_id =
    let at = call_time ctx table_id in
    let (now, w) = time ctx.world in
    if eqb_ℤ at (pos 0) then (false, ctx.world) else (ltb_ℤ (pos now) (at +ℤ pos 180), w)

-- The main part and the side lie beside each other within the screen's width, and a side that is
-- shown leaves the main part at least 20 columns.
pub ui_pos_layout_frame_lem :
    (rows cols : ℕ)
    → ((ui_pos_layout_frame rows cols).main.left ≡ pos 0)
      × ((((ui_pos_layout_frame rows cols).main.w ≡ pos cols)
            × ((ui_pos_layout_frame rows cols).side.w ≡ pos 0))
          ⊎ ((20 ≤ wanted_main cols)
              × ((ui_pos_layout_frame rows cols).main.w ≡ pos (wanted_main cols))
              × ((ui_pos_layout_frame rows cols).side.left ≡ pos (wanted_main cols + 1))
              × ((ui_pos_layout_frame rows cols).side.w ≡ pos (wanted_side cols))
              × (wanted_main cols + 1 + wanted_side cols ≡ cols)))
unfolding ui_pos_layout_frame ui_rect
ui_pos_layout_frame_lem rows cols = elim (Bool-cases (ltb (wanted_main cols) 20)) [
  | inl e ↦ rw (e, ui_pos_layout_frame) (refl, inl (refl, refl))
  | inr e ↦
      let shown : leb (wanted_side cols) 0 ≡ false = ground arith in
      rw (e, shown, ui_pos_layout_frame)
        (refl, inr (ground (arith, e), refl, refl, refl, ground (arith, e)))
]
