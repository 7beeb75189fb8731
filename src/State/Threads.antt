-- ===== src/State/Threads.antt =====
-- Threads that share the state of crates/skysaga-state/src/lib.rs. A call changes the state under the
-- lock, releases it, and only then calls `record`, so that the calls of other threads, and their
-- reports, come between the two.
use sky_saga_rs.Common.{◌≡◌, ◌≢◌, List, [], ◌∷◌, ◌++◌, none, some, ◌⊎◌}
use sky_saga_rs.State.Types.{Change, AppState, with_sink}
use sky_saga_rs.State.Saves.{report}
use sky_saga_rs.State.Steps.{Step}

-- The state, whose sink has what was recorded, and the changes that are made but not yet recorded,
-- the oldest first.
pub record Threads : Type 0 where
  pub state : AppState
  pub due : List Change

abbrev pub reported_by : AppState → List Change
reported_by t = elim t.sink [ none ↦ [] | some log ↦ log ]

-- What a thread does under the lock: a call, whose report is due.
abbrev pub changed : Threads → AppState → Threads
changed x t = record { state = record t { sink = x.state.sink }; due = x.due ++ reported_by t }

-- One turn of some thread. A call is made beside an empty sink, which keeps what it has to report.
-- Any report that is due may be the next to be recorded. A call that looks before it takes the lock,
-- `ensure_character`, is where others come between no call, or one of `create_character`.
pub data Turn : Threads → Threads → Type 0 where
  changes : (x : Threads) (t : AppState) → Step (with_sink (x.state)) t → Turn x (changed x t)
  records :
      (x : Threads) (before : List Change) (change : Change) (after : List Change)
      → x.due ≡ before ++ (change ∷ after)
      → Turn x (record { state = report change (x.state); due = before ++ after })

pub data Turns : Threads → Threads → Type 0 where
  start : (x : Threads) → Turns x x
  then_turn : {x y z : Threads} → Turns x y → Turn y z → Turns x z

-- The changes that the calls made, in the order in which they held the lock.
abbrev pub made_by : {x y : Threads} → Turns x y → List Change
made_by (start x) = []
made_by (then_turn turns (changes x t step)) = made_by turns ++ reported_by t
made_by (then_turn turns (records x before change after e)) = made_by turns

-- Whether a report is recorded before one that was due earlier: in a turn, and in any of them.
abbrev pub Overtaking : {x y : Threads} → Turn x y → Type 0
Overtaking (changes x t step) = ⊥
Overtaking (records x before change after e) = before ≢ []

abbrev pub Overtaken : {x y : Threads} → Turns x y → Type 0
Overtaken (start x) = ⊥
Overtaken (then_turn turns turn) = Overtaken turns ⊎ Overtaking turn
