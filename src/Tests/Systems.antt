-- ===== src/Tests/Systems.antt =====
-- Sockets, logs and the table of clients.
use system_programming_team.Common.{table_client, kitchen_client}
use system_programming_team.Os.Laws.{Wrote, stream, write_all-Wrote}
use system_programming_team.Os.{Reply, write_all, fine, short, interrupted, fails}
use system_programming_team.Prelude.{◌≡◌, refl, pos, [], ◌∷◌, ◌++◌, List}
use system_programming_team.Server.Clients.{
  IsCalm, heard, snapshot, FirstReplaced, Free, Holds, slot_of, no_slot, broadcast_raw-heard,
  send_snapshot_locked-snapshot, clients_lem,
}
use system_programming_team.Server.Lifecycle.{zero_slot}
use system_programming_team.Server.{
  ClientSlot, broadcast_raw, send_snapshot_locked, server_register_client, server_unregister_fd,
}
use system_programming_team.Tests.{system, order}
use system_programming_team.Text.{codes}

write_all-Wrote_example :
    Wrote 5
      (codes "PONG\n")
      (system (short 2 ∷ interrupted ∷ fails ∷ []))
      (write_all 5 (codes "PONG\n") (system (short 2 ∷ interrupted ∷ fails ∷ [])))
write_all-Wrote_example =
    write_all-Wrote 5 (codes "PONG\n") (system (short 2 ∷ interrupted ∷ fails ∷ []))

abbrev slots : List ClientSlot
slots = server_register_client (zero_slot ∷ zero_slot ∷ []) 5 table_client (pos 4)

-- Writes that are short and interrupted.
abbrev broken : List Reply
broken = short 2 ∷ interrupted ∷ fine ∷ short 1 ∷ []

broadcast_raw-heard_example :
    (stream 5 (broadcast_raw slots (codes "hi\n") (system broken)).sent
      ≡ stream 5 [] ++ heard slots 5 (codes "hi\n"))
    × IsCalm (broadcast_raw slots (codes "hi\n") (system broken))
broadcast_raw-heard_example =
    broadcast_raw-heard slots (codes "hi\n") (system broken) 5 (refl, (refl, (refl, (refl, tt))))

send_snapshot_locked-snapshot_example :
    (stream 5 (send_snapshot_locked (order ∷ []) 5 table_client (pos 4) (system broken)).sent
      ≡ stream 5 [] ++ snapshot (order ∷ []) table_client (pos 4))
    × IsCalm (send_snapshot_locked (order ∷ []) 5 table_client (pos 4) (system broken))
send_snapshot_locked-snapshot_example =
    send_snapshot_locked-snapshot (order ∷ []) 5 table_client (pos 4) (system broken)
      (refl, (refl, (refl, (refl, tt))))

clients_lem_example :
    FirstReplaced Free
      (slot_of 7 kitchen_client (pos 0))
      slots
      (server_register_client slots 7 kitchen_client (pos 0))
    × FirstReplaced (Holds 7) no_slot slots (server_unregister_fd slots 7)
clients_lem_example = clients_lem slots 7 kitchen_client (pos 0)
