-- ===== src/Server/Session.antt =====
-- A client's thread in src/server.c: the handshake, the loop over its lines, and its end.
pub mod Steps
pub mod Rights
use system_programming_team.Common.{ClientKind, no_client, table_client, kitchen_client}
use system_programming_team.Os.{World, write_all}
use system_programming_team.Prelude.{
  ℕ, Bool, true, false, not, List, [], ◌∷◌, ◌++◌, Option, none, some, Result, ok, err,
  if◌then◌else◌, take, Bytes, bytes_eq, ℤ, pos,
}
use system_programming_team.Protocol.Parse.{proto_parse_hello_table}
use system_programming_team.Server.Handlers.{
  reply, handle_menu_request, handle_order_create_client, handle_order_cancel_client,
  handle_order_update_client, handle_call_staff,
}
use system_programming_team.Server.{
  ServerContext, with_world, server_register_client, server_unregister_fd, send_snapshot_locked,
}
use system_programming_team.Text.{codes, after_prefix}

abbrev pub begins : Bytes → Bytes → Bool
begins p s = elim (after_prefix p s) [ none ↦ false | some _ ↦ true ]

-- Who a client says it is in its first line; the text that is sent to one that is refused.
unfoldable pub hello : Bytes → Result (ClientKind × ℤ)
unfolding proto_parse_hello_table
hello line =
    if begins (codes "HELLO TABLE") line
    then elim (proto_parse_hello_table line) [
      | err e ↦ err (take 22 (codes "ERROR|bad hello table\n"))
      | ok table ↦ ok (table_client, table)
    ]
    else if bytes_eq line (codes "HELLO KITCHEN")
    then ok (kitchen_client, pos 0)
    else err (take 23 (codes "ERROR|handshake required\n"))

-- A registered client gets the open orders, in one critical section.
unfoldable pub enter : ℕ → ClientKind → ℤ → ServerContext → ServerContext
unfolding server_register_client send_snapshot_locked
enter fd kind table_id ctx = record ctx {
  clients = server_register_client ctx.clients fd kind table_id;
  world = send_snapshot_locked ctx.orders fd kind table_id ctx.world;
}

unfoldable pub leave : ℕ → ServerContext → ServerContext
unfolding server_unregister_fd
leave fd ctx = record ctx { clients = server_unregister_fd ctx.clients fd }

-- The part of `client_thread_main` in front of its loop; none ends the thread.
unfoldable pub open_session : ℕ → Bytes → ServerContext → Option (ClientKind × ℤ) × ServerContext
unfolding hello reply enter leave write_all
open_session fd line ctx = elim (hello line) [
  | err e ↦ (none, reply fd e ctx)
  | ok (kind, table_id) ↦
      let (sent, w) = write_all fd (codes "OK|hello\n") ctx.world in
      if sent
      then (some (kind, table_id), enter fd kind table_id (with_world ctx w))
      else (none, leave fd (with_world ctx w))
]

abbrev pub is_table : ClientKind → Bool
is_table table_client = true
is_table no_client = false
is_table kitchen_client = false

abbrev pub is_kitchen : ClientKind → Bool
is_kitchen kitchen_client = true
is_kitchen no_client = false
is_kitchen table_client = false

abbrev forbidden : ℕ → ServerContext → ServerContext
forbidden fd ctx = reply fd (take 16 (codes "ERROR|forbidden\n")) ctx

-- One round of the loop.
unfoldable pub serve : ℕ → ClientKind → ℤ → Bytes → ServerContext → ServerContext
unfolding handle_menu_request handle_order_create_client handle_order_cancel_client
    handle_order_update_client handle_call_staff reply
serve fd kind table_id line ctx =
    if bytes_eq line (codes "MENU_REQUEST")
    then handle_menu_request fd ctx
    else if begins (codes "ORDER_CREATE|") line
    then (if is_table kind
        then handle_order_create_client fd line table_id ctx
        else forbidden fd ctx)
    else if begins (codes "ORDER_CANCEL|") line
    then (if is_table kind
        then handle_order_cancel_client fd line table_id ctx
        else forbidden fd ctx)
    else if begins (codes "ORDER_UPDATE|") line
    then (if is_kitchen kind then handle_order_update_client line ctx else forbidden fd ctx)
    else if begins (codes "CALL_STAFF|") line
    then (if is_table kind
        then reply fd (take 9 (codes "OK|staff\n")) (handle_call_staff line ctx)
        else forbidden fd ctx)
    else if bytes_eq line (codes "PING")
    then reply fd (take 5 (codes "PONG\n")) ctx
    else reply fd (take 14 (codes "ERROR|unknown\n")) ctx

-- The loop on the lines that the socket yields, and the end of the thread. The flag is read in
-- front of each line.
unfoldable pub serve_lines : ℕ → ClientKind → ℤ → List Bytes → ServerContext → ServerContext
unfolding serve leave
serve_lines fd kind table_id [] ctx = leave fd ctx
serve_lines fd kind table_id (line ∷ lines) ctx =
    let next = serve_lines fd kind table_id lines (serve fd kind table_id line ctx) in
    if ctx.shutting_down then leave fd ctx else next

-- A thread that runs by itself, on the lines that `sock_read_line` returns.
unfoldable pub client_thread_main : ℕ → List Bytes → ServerContext → ServerContext
unfolding open_session serve_lines
client_thread_main fd [] ctx = ctx
client_thread_main fd (line ∷ lines) ctx =
    let (who, ctx1) = open_session fd line ctx in
    elim who [ none ↦ ctx1 | some (kind, table_id) ↦ serve_lines fd kind table_id lines ctx1 ]
