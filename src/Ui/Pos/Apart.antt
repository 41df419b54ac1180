-- ===== src/Ui/Pos/Apart.antt =====
-- Tables that are apart: no two active ones have one id or stand at one place.
use system_programming_team.Keyed.Laws.{All-remove_at}
use system_programming_team.Keyed.{remove_at}
use system_programming_team.Layout.{TablePlacement}
use system_programming_team.Prelude.{
  ℕ, zero, suc, ◌≡◌, ◌≢◌, refl, sym, ap, subst, ◌∙◌, true, List, [], ◌∷◌, ◌++◌, some, arith, length,
  get_elem?, set, All, All-append,
}
use system_programming_team.Text.{is_true}

abbrev pub Clear : TablePlacement → TablePlacement → Type 0
Clear a b =
    is_true a.active ≡ true
    → is_true b.active ≡ true
    → (a.table_id ≢ b.table_id) × (a.row ≡ b.row → a.col ≢ b.col)

abbrev pub Apart : List TablePlacement → Type 0
Apart [] = Unit
Apart (tp ∷ tps) = All (Clear tp) tps × Apart tps

pub Clear-sym : (a b : TablePlacement) → Clear a b → Clear b a
Clear-sym a b c ha hb = let (i, p) = c hb ha in ((λ e. i (sym e)), λ r q. p (sym r) (sym q))

-- The two are the same to the other tables.
pub record IsAlike (a b : TablePlacement) : Type 0 where
  pub id : b.table_id ≡ a.table_id
  pub row : b.row ≡ a.row
  pub col : b.col ≡ a.col
  pub active : b.active ≡ a.active

Clear-alike : (a b c : TablePlacement) → IsAlike a b → Clear a c → Clear b c
Clear-alike a b c h k ha hc =
    let (i, p) = k (ap is_true (sym h.active) ∙ ha) hc in
    ((λ e. i (sym h.id ∙ e)), λ r q. p (sym h.row ∙ r) (sym h.col ∙ q))

All-alike :
    (a b : TablePlacement) (tps : List TablePlacement)
    → IsAlike a b
    → All (Clear a) tps
    → All (Clear b) tps
All-alike a b [] h k = tt
All-alike a b (c ∷ tps) h k = (Clear-alike a b c h k.0, All-alike a b tps h k.1)

All-set :
    (P : TablePlacement → Type 0) (tps : List TablePlacement) (i : ℕ) (y : TablePlacement)
    → All P tps
    → ((x : TablePlacement) → get_elem? tps i ≡ some x → P x → P y)
    → All P (set tps i y)
All-set P [] i y a f = tt
All-set P (x ∷ tps) zero y a f = (f x refl a.0, a.1)
All-set P (x ∷ tps) (suc i) y a f = (a.0, All-set P tps i y a.1 f)

-- A change that the other tables do not see keeps the tables apart.
pub Apart-alike :
    (tps : List TablePlacement) (i : ℕ) (x y : TablePlacement)
    → get_elem? tps i ≡ some x
    → IsAlike x y
    → Apart tps
    → Apart (set tps i y)
Apart-alike [] i x y g h a = tt
Apart-alike (z ∷ tps) zero x y g h a =
    let same : x ≡ z = ground (arith, g) in
    (All-alike z y tps (subst (λ t. IsAlike t y) same h) a.0, a.1)
Apart-alike (z ∷ tps) (suc i) x y g h a = (
  All-set (Clear z) tps i y a.0 (λ u q c.
      let same : x ≡ u = ground (arith, sym g ∙ q) in
      Clear-sym y z (Clear-alike u y z (subst (λ t. IsAlike t y) same h) (Clear-sym z u c))),
  Apart-alike tps i x y g h a.1,
)

-- So does a new table that is clear of all, in a slot or behind the last.
pub Apart-fresh :
    (tps : List TablePlacement) (i : ℕ) (y : TablePlacement)
    → All (Clear y) tps
    → Apart tps
    → Apart (set tps i y)
Apart-fresh [] i y c a = tt
Apart-fresh (x ∷ tps) zero y c a = (c.1, a.1)
Apart-fresh (x ∷ tps) (suc i) y c a =
    (All-set (Clear x) tps i y a.0 (λ u q d. Clear-sym y x c.0), Apart-fresh tps i y c.1 a.1)

pub Apart-behind :
    (tps : List TablePlacement) (old y : TablePlacement)
    → All (Clear y) tps
    → Apart tps
    → Apart (set (tps ++ old ∷ []) (length tps) y)
Apart-behind [] old y c a = (tt, tt)
Apart-behind (x ∷ tps) old y c a = (
  subst (All (Clear x)) (sym (set_last tps old y))
      (All-append (Clear x) tps (y ∷ []) a.0 (Clear-sym y x c.0, tt)),
  Apart-behind tps old y c.1 a.1,
)
  where
    set_last :
        (tps : List TablePlacement) (old y : TablePlacement)
        → set (tps ++ old ∷ []) (length tps) y ≡ tps ++ y ∷ []
    set_last [] old y = refl
    set_last (z ∷ tps) old y = ap (◌∷◌ z) (set_last tps old y)

pub Apart-remove_at : (tps : List TablePlacement) (i : ℕ) → Apart tps → Apart (remove_at tps i)
Apart-remove_at [] i a = tt
Apart-remove_at (x ∷ tps) zero a = a.1
Apart-remove_at (x ∷ tps) (suc i) a = (All-remove_at (Clear x) tps i a.0, Apart-remove_at tps i a.1)
