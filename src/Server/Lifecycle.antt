-- ===== src/Server/Lifecycle.antt =====
-- The start and the end of the server in src/server.c, and the interrupt handler.
use system_programming_team.Common.{no_client, max_clients, max_tables}
use system_programming_team.Menu.Files.{menu_load_file, menu_save_file}
use system_programming_team.Menu.{menu_init_catalog}
use system_programming_team.Os.{World}
use system_programming_team.Prelude.{
  ℕ, ◌+◌, true, false, List, [], ◌∷◌, ◌++◌, Option, none, some, Result, ok, err, if◌then◌else◌,
  replicate, pos,
}
use system_programming_team.Server.{
  ClientSlot, ServerContext, with_world, server_save_config, config_path, menu_path,
}
use system_programming_team.Storage.{storage_load_config, try}
use system_programming_team.Os.{next_reply, after_reply}
use system_programming_team.Text.{codes}

abbrev pub zero_slot : ClientSlot
zero_slot = record { fd = some 0; in_use = false; kind = no_client; table_id = pos 0 }

-- The context behind `memset` and the first assignments.
abbrev pub blank : World → ServerContext
blank w = record {
  menu = menu_init_catalog;
  orders = [];
  cfg = record { max_tables = pos 8; next_order_id = pos 1 };
  listen_fd = none;
  shutting_down = false;
  orders_revision = pos 0;
  staff_revision = pos 0;
  clients = replicate max_clients zero_slot;
  accept_thread_started = false;
  last_staff_message = [];
  last_staff_time = pos 0;
  staff_call_at = replicate (max_tables + 1) (pos 0);
  world = w;
  undefined = false;
}

-- `socket` yields the descriptor `ls` if it succeeds.
unfoldable pub server_init : ℕ → World → Result (Unit {0}) × ServerContext
unfolding menu_init_catalog next_reply after_reply
server_init ls w =
    let (made, w1) = try w in
    let (bound, w2) = try w1 in
    let (listens, w3) = try w2 in
    if made
    then (if bound
        then (if listens
            then (ok tt, record (blank w3) { listen_fd = some ls })
            else (err (codes "listen: " ++ w.error_text), blank w3))
        else (err (codes "bind: " ++ w.error_text), blank w2))
    else (err (codes "socket: " ++ w.error_text), blank w1)

unfoldable pub close_slots : List ClientSlot → List ClientSlot
close_slots [] = []
close_slots (s ∷ slots) =
    (if s.in_use then elim s.fd [ none ↦ s | some _ ↦ record s { in_use = false } ] else s)
    ∷ close_slots slots

-- The accept thread is joined, the clients are closed, and the configuration and the menu saved.
unfoldable pub server_shutdown : ServerContext → ServerContext
unfolding close_slots server_save_config menu_save_file
server_shutdown ctx =
    let saved = server_save_config (record ctx {
      shutting_down = true;
      listen_fd = none;
      accept_thread_started = false;
      clients = close_slots ctx.clients;
    }) in
    with_world saved (menu_save_file saved.menu menu_path saved.world).1

-- The fuel is for the loading of the menu; none where it runs out.
unfoldable pub server_load_persistent :
    ℕ → ServerContext → Option (Result (Unit {0})) × ServerContext
unfolding storage_load_config menu_load_file menu_init_catalog
server_load_persistent fuel ctx =
    let (r, w) = storage_load_config config_path ctx.world in
    elim r [
      | err e ↦ (some (err e), with_world ctx w)
      | ok cfg ↦
          let (m, w') = menu_load_file fuel menu_path w in
          elim m [
            | none ↦ (none, record (with_world ctx w') { cfg = cfg; menu = menu_init_catalog })
            | some (err e) ↦
                (some (err e), record (with_world ctx w') { cfg = cfg; menu = menu_init_catalog })
            | some (ok menu) ↦
                (some (ok tt), record (with_world ctx w') { cfg = cfg; menu = menu; orders = [] })
          ]
    ]

-- The handler of SIGINT: the flag goes up and the listening socket is closed.
unfoldable pub sigint_handler : ServerContext → ServerContext
sigint_handler ctx = record ctx { shutting_down = true; listen_fd = none }
