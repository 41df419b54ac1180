-- ===== src/Storage/Config.antt =====
-- The text that `rewrite_config_lines` of src/storage.c writes, and the loader's loop on it.
pub mod Lines
pub mod Missing
use system_programming_team.Common.{max_tables}
use system_programming_team.Prelude.{
  ℕ, zero, suc, ◌+◌, ◌≤◌, ◌<◌, ◌≢◌, sym, subst, Bool, true, ◌||◌, List, ◌∷◌, append-nil,
  append_assoc, Option, none, if◌then◌else◌, ltb, leb, length, length-append, All, All-append,
  Lacks, Bytes, ℤ, pos, ◌<ℤ◌, ◌≤ℤ◌, IsInt, Bool-cases, Option-cases, inl, inr, ◌⊎◌,
}
use system_programming_team.Storage.{
  StoreConfig, is_comment, config_line, through_tmp, new_line, found, rewrite_loop, put_tail,
  put_missing,
}
use system_programming_team.Text.Decimal.{show-Lacks, show-ne-nil, show_short, atoi-show_alone}
use system_programming_team.Text.Tokens.{IsToken, tokens_field, tokens_last}
use system_programming_team.Text.{codes, fit, after_prefix, tokens, atoi, show}
use system_programming_team.Storage.Config.Lines.{body, written, tables-IsToken, next-IsToken}

-- A configuration that the loader takes as it is. The cashier's layout can give the server more tables
-- than that.
pub record IsGood (cfg : StoreConfig) : Type 0 where
  pub tables : pos 0 <ℤ cfg.max_tables
  pub tables_max : cfg.max_tables ≤ℤ pos max_tables
  pub next : pos 0 <ℤ cfg.next_order_id
  pub next_int : IsInt cfg.next_order_id

-- A file whose lines, as they will be written, fit the buffers.
pub record FitsBuffers (cfg : StoreConfig) (text : Bytes) : Type 0 where
  pub lines : All (λ l. length (body cfg l) + 1 < 512) (tokens b'\n' (fit 8192 text))
  pub all : length (written cfg (tokens b'\n' (fit 8192 text))) + 45 < 8192
