-- ===== src/Ui/Rounds.antt =====
-- What drives the screens of src/ui.c: the keys that `wgetch` returns, and the lines that the reader
-- thread has put in the queue when a round of the loop begins.
use system_programming_team.Prelude.{
  ℕ, ◌==◌, Bool, true, false, ◌||◌, List, [], ◌∷◌, none, some, if◌then◌else◌, Bytes,
}
use system_programming_team.Text.{after_prefix}
use system_programming_team.Ui.{ui_net_enqueue}

-- `no_key` is ERR: the time ran out.
pub data Key : Type 0 where
  no_key key_up key_down key_left key_right key_enter : Key
  key_f char : ℕ → Key

abbrev pub is_char : ℕ → Key → Bool
is_char c (char d) = d == c
is_char c _ = false

-- `ch == 'q' || ch == 'Q'`
abbrev pub is_quit : Key → Bool
is_quit k = is_char b'q' k || is_char b'Q' k

-- `ch == '\n' || ch == KEY_ENTER`
abbrev pub is_enter : Key → Bool
is_enter key_enter = true
is_enter k = is_char b'\n' k

-- The lines that arrive before a round, in order, and the round's key.
pub record Round : Type 0 where
  pub arrived : List Bytes
  pub key : Key

-- The reader thread's lines in the queue.
unfoldable pub arrive : List Bytes → List Bytes → List Bytes
unfolding ui_net_enqueue
arrive q [] = q
arrive q (l ∷ ls) = arrive (ui_net_enqueue q l) ls

-- `strncmp (s, p, strlen p) == 0`
abbrev pub begins : Bytes → Bytes → Bool
begins p s = elim (after_prefix p s) [ none ↦ false | some _ ↦ true ]

-- `n ? n : 1`
abbrev pub or_one : ℕ → ℕ
or_one n = if n == 0 then 1 else n
