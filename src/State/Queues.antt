-- ===== src/State/Queues.antt =====
-- crates/skysaga-state/src/lib.rs: the accounts that are expected to connect, the requests of
-- administrators, and the view of the game that is published for readers.
use sky_saga_rs.Common.{
  ℕ, Bool, false, List, [], ◌∷◌, ◌++◌, Option, none, some, length, ltb, if◌then◌else◌,
}
use sky_saga_rs.Common.Equality.{◌=?◌, Eq_nat, Eq_list}
use sky_saga_rs.Common.Text.{Text, trim, to_ascii_lowercase}
use sky_saga_rs.State.Types.{AppState, AdminCommand, PlayerSummary, ServerSnapshot}

abbrev pub max_reservations : ℕ
max_reservations = 8

-- The loop of `reserve_slot`, which drops from the front while there are too many.
unfoldable pub keep_newest : List Text → List Text
keep_newest [] = []
keep_newest (oldest ∷ newer) =
    let rest = keep_newest newer in
    if ltb max_reservations (length (oldest ∷ newer)) then rest else oldest ∷ newer

unfoldable pub reserve_slot : (account : Text) → AppState → AppState
unfolding keep_newest
reserve_slot account s = record s {
  inner = record (s.inner) { reservations = keep_newest (s.inner.reservations ++ (account ∷ [])) };
}

abbrev pub popped : AppState → List Text → Option Text × AppState
popped s [] = (none, s)
popped s (oldest ∷ newer) =
    (some oldest, record s { inner = record (s.inner) { reservations = newer } })

unfoldable pub claim_slot : AppState → Option Text × AppState
claim_slot s = popped s s.inner.reservations

unfoldable pub push_command : AdminCommand → AppState → AppState
push_command command s = record s {
  inner = record (s.inner) { commands = s.inner.commands ++ (command ∷ []) };
}

unfoldable pub take_commands : AppState → List AdminCommand × AppState
take_commands s = (s.inner.commands, record s { inner = record (s.inner) { commands = [] } })

abbrev is_account : Text → PlayerSummary → Bool
is_account wanted player = elim (player.account) [
  | none ↦ false
  | some name ↦ to_ascii_lowercase name =? wanted
]

abbrev find_account : Text → List PlayerSummary → Option PlayerSummary
find_account wanted [] = none
find_account wanted (player ∷ others) =
    let rest = find_account wanted others in if is_account wanted player then some player else rest

-- `ServerSnapshot::player`
unfoldable pub player : (account : Text) → ServerSnapshot → Option PlayerSummary
unfolding trim to_ascii_lowercase
player account snapshot = find_account (to_ascii_lowercase (trim account)) snapshot.players
