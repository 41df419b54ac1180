-- ===== src/Common/Names.antt =====
-- The names of the order states.
use system_programming_team.Common.{
  OrderStatus, waiting, cooking, done, paid, cancelled, status_to_string, status_from_string,
}
use system_programming_team.Prelude.{
  ◌≡◌, ◌≢◌, refl, some, Bytes, arith, true, bytes_eq, bytes_eq→eq,
}
use system_programming_team.Text.{codes}

-- The name of a state is read back as that state, and a text that is the name of no state is read
-- as WAITING.
pub status-round_trip :
    ((st : OrderStatus) → status_from_string (some (status_to_string st)) ≡ st)
    × ((s : Bytes)
        → ((st : OrderStatus) → s ≢ status_to_string st)
        → status_from_string (some s) ≡ waiting)
unfolding status_to_string status_from_string
status-round_trip = (known, unknown)
  where
    known : (st : OrderStatus) → status_from_string (some (status_to_string st)) ≡ st
    known waiting = refl
    known cooking = refl
    known done = refl
    known paid = refl
    known cancelled = refl

    unknown :
        (s : Bytes)
        → ((st : OrderStatus) → s ≢ status_to_string st)
        → status_from_string (some s) ≡ waiting
    unknown s h = ground (
      arith,
      λ (e : bytes_eq s (codes "COOKING") ≡ true). h cooking (bytes_eq→eq s (codes "COOKING") e),
      λ (e : bytes_eq s (codes "DONE") ≡ true). h done (bytes_eq→eq s (codes "DONE") e),
      λ (e : bytes_eq s (codes "PAID") ≡ true). h paid (bytes_eq→eq s (codes "PAID") e),
      λ (e : bytes_eq s (codes "CANCELLED") ≡ true).
          h cancelled (bytes_eq→eq s (codes "CANCELLED") e),
    )
