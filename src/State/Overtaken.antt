-- ===== src/State/Overtaken.antt =====
-- crates/skysaga-state/src/lib.rs: two reports that are recorded in the other order.
use sky_saga_rs.Common.{◌≡◌, refl, subst, false, List, [], ◌∷◌, some}
use sky_saga_rs.Common.Equality.{◌=?◌, Eq_nat, Eq_list}
use sky_saga_rs.Common.Text.{Text}
use sky_saga_rs.State.Types.{Change, home_title_change, AppState, with_sink}
use sky_saga_rs.State.Saves.{report, holds, home_title, set_home_title}
use sky_saga_rs.State.Stored.{stored, apply, replay}
use sky_saga_rs.State.Steps.{Step, sets_home_title}
use sky_saga_rs.State.Threads.{Threads, Turns, changes, records, changed, start, then_turn}

-- What two threads can leave that set the island's title at once.
record Stale (older newer : Text) (s : AppState) : Type 0 where
  threads : Threads
  turns : Turns (record { state = with_sink s; due = [] }) threads
  all_recorded : threads.due ≡ []
  held : home_title (threads.state) ≡ some newer
  log : List Change
  recorded : threads.state.sink ≡ some log
  kept : (replay log (stored (s.inner))).home_title ≡ some older

abbrev titled : Text → AppState → AppState
titled title s =
    report (home_title_change title)
      (record s { inner = record (s.inner) { home_title = some title } })

titles :
    (title : Text) (s : AppState) → holds s.inner.home_title title ≡ false → Step s (titled title s)
unfolding set_home_title
titles title s new = subst (Step s) (rw new refl) (sets_home_title title s)

-- Two threads that set the island to two titles, one after the other, can have them recorded in the
-- other order, and then what is replayed has the older title where the state has the newer.
home_title_overtaken :
    (older newer : Text) (s : AppState)
    → holds s.inner.home_title older ≡ false
    → (older =? newer) ≡ false
    → Stale older newer s
unfolding replay apply
home_title_overtaken older newer s first second =
    let x0 : Threads = record { state = with_sink s; due = [] } in
    let t1 = titled older (with_sink s) in
    let x1 = changed x0 t1 in
    let t2 = titled newer (with_sink (x1.state)) in
    let x2 = changed x1 t2 in
    let old = home_title_change older in
    let new = home_title_change newer in
    let x3 : Threads = record { state = report new (x2.state); due = old ∷ [] } in
    record {
      threads = record { state = report old (x3.state); due = [] };
      turns =
          then_turn
            (then_turn
              (then_turn (then_turn (start x0) (changes x0 t1 (titles older (with_sink s) first)))
                (changes x1 t2 (titles newer (with_sink (x1.state)) second)))
              (records x2 (old ∷ []) new [] refl))
            (records x3 [] old [] refl);
      all_recorded = refl;
      held = refl;
      log = new ∷ old ∷ [];
      recorded = refl;
      kept = refl;
    }
