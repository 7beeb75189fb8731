-- ===== src/State/Tests.antt =====
-- The server's state at concrete values.
use sky_saga_rs.Common.{◌≡◌, ◌⊎◌, inl, inr, ◌≤◌, refl, true, [], ◌∷◌, ◌++◌, none, some, ◌↔◌, arith}
use sky_saga_rs.Common.Equality.{Eq_nat, Eq_list}
use sky_saga_rs.Common.Table.{look, put}
use sky_saga_rs.Packets.Customisation.{default_customisation}
use sky_saga_rs.Common.Text.{
  Text, is_whitespace, trim_start, trim_end, trim, to_ascii_lowercase, split, split_once,
}
use sky_saga_rs.State.Types.{
  any_non_empty, fixed, Change, account_change, mail_change, Session, ok, no_such_account,
  Character, StoredItem, default_progress, AppState, new, with_sink,
}
use sky_saga_rs.State.Policy.{entry_of, entries, parse, is_allowed_character_name}
use sky_saga_rs.State.Saves.{
  report, mail, set_mail, inventory, set_inventory, progress, set_progress, hotbar, set_hotbar,
}
use sky_saga_rs.State.Accounts.{
  bind_peer, account_for_peer, display_name_of, open_session, authenticate, account_for_token,
}
use sky_saga_rs.State.Characters.{character_of, create_character, ensure_character}
use sky_saga_rs.State.Queues.{claim_slot}
use sky_saga_rs.State.Stored.{stored}
use sky_saga_rs.State.Steps.{Steps, rest, then_step, authenticates, creates_character, sets_mail}
use sky_saga_rs.State.Sound.{IsSound, IsSound-default}
use sky_saga_rs.State.Threads.{
  Threads, Turns, changes, records, changed, start as start_turns, then_turn,
}
use sky_saga_rs.State.Replay.{Made, replay-Turns}
use sky_saga_rs.State.Reached.{Steps-IsSound}
use sky_saga_rs.State.Sessions.{
  authenticate-err, account_for_token-authenticate, account_for_token-authenticate_other,
  account_for_peer-bind_peer,
}
use sky_saga_rs.State.Reservations.{
  reserve_all, newest, reserve_all-newest, claims, claim_slot-reserve_all,
}
use sky_saga_rs.State.Spelled.{SameName}
use sky_saga_rs.State.Kept.{kept_for_account}
use sky_saga_rs.State.Names.{Each, IsNameChar, is_allowed_character_name_iff}
use sky_saga_rs.State.Lifecycle.{ensure_character_again}

-- "Bob", " BOB ", "bob", and a list of one account.
abbrev bob : Text
bob = 66 ∷ 111 ∷ 98 ∷ []

abbrev loud_bob : Text
loud_bob = 32 ∷ 66 ∷ 79 ∷ 66 ∷ 32 ∷ []

-- "BOB"
abbrev loud : Text
loud = 66 ∷ 79 ∷ 66 ∷ []

abbrev start : AppState
start = new any_non_empty

abbrev signed_in : Session
signed_in = record { account = bob; token = 49 ∷ [] }

abbrev entered : AppState
entered = (authenticate (49 ∷ []) bob [] start).1

-- A thread signs Bob in and another empties his inbox before the sign-in is recorded.
abbrev before_calls : Threads
before_calls = record { state = with_sink start; due = [] }

abbrev after_sign_in : Threads
after_sign_in = changed before_calls (authenticate (49 ∷ []) bob [] (with_sink start)).1

abbrev after_mail : Threads
after_mail = changed after_sign_in (set_mail bob [] (with_sink (after_sign_in.state)))

abbrev signed_change : Change
signed_change = account_change (98 ∷ 111 ∷ 98 ∷ []) bob

abbrev mail_due : Change
mail_due = mail_change (98 ∷ 111 ∷ 98 ∷ []) []

abbrev after_report : Threads
after_report = record {
  state = report signed_change (after_mail.state);
  due = [] ++ (mail_due ∷ []);
}

abbrev turns_of_two : Turns before_calls after_report
unfolding authenticate open_session set_mail trim trim_start trim_end is_whitespace
    to_ascii_lowercase look put
turns_of_two =
    then_turn
      (then_turn
        (then_turn (start_turns before_calls) (
          changes before_calls (authenticate (49 ∷ []) bob [] (with_sink start)).1
            (authenticates (49 ∷ []) bob [] (with_sink start))))
        (changes after_sign_in (set_mail bob [] (with_sink (after_sign_in.state)))
          (sets_mail bob [] (with_sink (after_sign_in.state)))))
      (records after_mail [] signed_change (mail_due ∷ []) refl)

abbrev calls : Steps (with_sink start) (
    set_mail bob []
      (create_character 7 bob none (authenticate (49 ∷ []) bob [] (with_sink start)).1).1)
calls =
    then_step
      (then_step (then_step rest (authenticates (49 ∷ []) bob [] (with_sink start)))
        (creates_character 7 bob none (authenticate (49 ∷ []) bob [] (with_sink start)).1))
      (sets_mail bob []
        (create_character 7 bob none (authenticate (49 ∷ []) bob [] (with_sink start)).1).1)

-- "b:p:q, ,x" has one entry, whose password keeps its colon.
parse_one :
    parse (98 ∷ 58 ∷ 112 ∷ 58 ∷ 113 ∷ 44 ∷ 32 ∷ 44 ∷ 120 ∷ [])
    ≡ fixed ((98 ∷ [], 112 ∷ 58 ∷ 113 ∷ []) ∷ [])
unfolding parse split entries entry_of trim trim_start trim_end is_whitespace split_once
    to_ascii_lowercase put
parse_one = refl

abbrev closed : AppState
closed = new (fixed ((98 ∷ [], 112 ∷ []) ∷ []))

replay-Turns_example : Made (stored start.inner) turns_of_two
replay-Turns_example = replay-Turns start turns_of_two

Steps-IsSound_example :
    IsSound
      (set_mail bob []
        (create_character 7 bob none (authenticate (49 ∷ []) bob [] (with_sink start)).1).1).inner
Steps-IsSound_example = Steps-IsSound calls IsSound-default

authenticate-err_example : (authenticate (49 ∷ []) bob [] closed).1 ≡ closed
unfolding authenticate trim trim_start trim_end is_whitespace to_ascii_lowercase look
authenticate-err_example = authenticate-err (49 ∷ []) bob [] closed no_such_account refl

account_for_token-authenticate_example :
    (signed_in.token ≡ 49 ∷ []) × (account_for_token (49 ∷ []) entered ≡ some bob)
unfolding authenticate open_session trim trim_start trim_end is_whitespace to_ascii_lowercase look
account_for_token-authenticate_example =
    account_for_token-authenticate (49 ∷ []) bob [] start signed_in refl

account_for_token-authenticate_other_example :
    account_for_token (50 ∷ []) entered ≡ account_for_token (50 ∷ []) start
account_for_token-authenticate_other_example =
    account_for_token-authenticate_other (49 ∷ []) bob [] (50 ∷ []) start IsSound-default refl

reserve_all-newest_example :
    (reserve_all (bob ∷ loud_bob ∷ []) start).inner.reservations
    ≡ newest ([] ++ (bob ∷ loud_bob ∷ []))
reserve_all-newest_example = reserve_all-newest (bob ∷ loud_bob ∷ []) start (omega arith)

claim_slot-reserve_all_example :
    (claim_slot (claims 1 (reserve_all (bob ∷ loud_bob ∷ []) start))).0 ≡ some loud_bob
claim_slot-reserve_all_example = claim_slot-reserve_all (bob ∷ loud_bob ∷ []) start 1 (omega arith)

abbrev stack : StoredItem
stack = record { slot = 9; item = 4; count = 2 }

kept_for_account_example :
    (SameName bob loud_bob
      × (mail bob (set_mail loud_bob [] start) ≡ [])
      × (inventory bob (set_inventory loud_bob (stack ∷ []) start) ≡ stack ∷ [])
      × (progress bob (set_progress loud_bob default_progress start) ≡ default_progress)
      × (hotbar bob (set_hotbar loud_bob [] start) ≡ []))
    ⊎ ((¬ SameName bob loud_bob)
        × (mail bob (set_mail loud_bob [] start) ≡ mail bob start)
        × (inventory bob (set_inventory loud_bob (stack ∷ []) start) ≡ inventory bob start)
        × (progress bob (set_progress loud_bob default_progress start) ≡ progress bob start)
        × (hotbar bob (set_hotbar loud_bob [] start) ≡ hotbar bob start))
kept_for_account_example = kept_for_account loud_bob bob [] (stack ∷ []) default_progress [] start

-- The first of the two is what holds of them.
bob-SameName : SameName bob loud_bob
unfolding is_whitespace
bob-SameName = record {
  one = bob;
  other = loud;
  one_in = record { front = []; back = []; text_is = refl; front_blank = tt; back_blank = tt };
  other_in = record {
    front = 32 ∷ [];
    back = 32 ∷ [];
    text_is = refl;
    front_blank = (refl, tt);
    back_blank = (refl, tt);
  };
  letters = (inl refl, (inr (inr (omega arith)), (inr (inr (omega arith)), tt)));
}

is_allowed_character_name_iff_example :
    (is_allowed_character_name bob ≡ true) ↔ ((1 ≤ 3) × (3 ≤ 32) × Each IsNameChar bob)
is_allowed_character_name_iff_example = is_allowed_character_name_iff bob

abbrev made : Character
made = record { uuid = 7; name = bob; home_biome = none; appearance = default_customisation }

ensure_character_again_example :
    ensure_character 8 bob (ensure_character 7 bob entered).1
    ≡ (ok made, (ensure_character 7 bob entered).1)
unfolding authenticate open_session trim trim_start trim_end is_whitespace to_ascii_lowercase look
    put ensure_character create_character character_of
ensure_character_again_example = ensure_character_again 7 8 bob entered made refl

abbrev with_one : AppState
with_one = (create_character 7 bob none entered).1

account_for_peer-bind_peer_example :
    account_for_peer (127 ∷ 0 ∷ 0 ∷ 1 ∷ []) (bind_peer (127 ∷ 0 ∷ 0 ∷ 1 ∷ []) loud entered)
    ≡ display_name_of (to_ascii_lowercase loud) entered
unfolding authenticate open_session trim trim_start trim_end is_whitespace to_ascii_lowercase look
    put
account_for_peer-bind_peer_example =
    account_for_peer-bind_peer (127 ∷ 0 ∷ 0 ∷ 1 ∷ []) loud entered refl
