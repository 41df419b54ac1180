-- ===== src/Ui/Programs.antt =====
-- The arguments of the clients' programs: src/table_client.c and src/kitchen_client.c, with the
-- records of include/ui.h.
use system_programming_team.Prelude.{
  ℕ, ◌%◌, ◌^◌, ◌-◌, ◌==◌, ◌||◌, List, ◌∷◌, Option, none, some, if◌then◌else◌, Bytes, ℤ, pos, negsuc,
  leb_ℤ,
}
use system_programming_team.Text.{fit, atoi}

pub record TableUiArgs : Type 0 where
  pub host : Bytes
  pub port : ℕ
  pub table_id : ℤ

pub record KitchenUiArgs : Type 0 where
  pub host : Bytes
  pub port : ℕ

-- `(uint16_t) n`
abbrev pub to_port : ℤ → ℕ
to_port (pos n) = n % 2 ^ 16
to_port (negsuc n) = 2 ^ 16 - 1 - n % 2 ^ 16

-- `main` of src/table_client.c up to `ui_run_table`, on the arguments with the program's name; none
-- where it prints the usage and returns 1.
unfoldable pub table_main : List Bytes → Option TableUiArgs
unfolding atoi
table_main (prog ∷ host ∷ port ∷ table ∷ _) =
    if (to_port (atoi port) == 0) || leb_ℤ (atoi table) (pos 0)
    then none
    else some (record { host = fit 128 host; port = to_port (atoi port); table_id = atoi table })
table_main _ = none

-- `main` of src/kitchen_client.c up to `ui_run_kitchen`.
unfoldable pub kitchen_main : List Bytes → Option KitchenUiArgs
unfolding atoi
kitchen_main (prog ∷ host ∷ port ∷ _) =
    if to_port (atoi port) == 0
    then none
    else some (record { host = fit 128 host; port = to_port (atoi port) })
kitchen_main _ = none
