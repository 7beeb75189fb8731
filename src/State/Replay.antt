-- ===== src/State/Replay.antt =====
-- The changes that crates/skysaga-state/src/lib.rs reports, replayed, where threads share the state.
use sky_saga_rs.Common.{
  ◌≡◌, ◌≢◌, arith, subst, refl, sym, ap, ◌∙◌, ◌⊎◌, inl, inr, append-nil, append_assoc, List, [],
  ◌∷◌, ◌++◌, some,
}
use sky_saga_rs.Common.Equality.{Eq_nat, Eq_list, Eq_pair}
use mathlib.Core.List.{Perm, perm_middle}
use mathlib.Core.List.Perm
use sky_saga_rs.State.Threads.{made_by}
use sky_saga_rs.State.Threads.{Threads, Turns, changes, records, start, then_turn, Overtaken}
use sky_saga_rs.State.Types.{
  Change, AppState, with_sink, Eq_triple, Eq_StoredMail, Eq_StoredItem, Eq_StoredBinding,
  Eq_StoredProgress, Eq_StoredBlock, Eq_StoredDevice,
}
use sky_saga_rs.State.Saves.{given, set_item_catalogue}
use sky_saga_rs.State.Characters.{set_character_name, set_appearance}
use sky_saga_rs.State.Queues.{reserve_slot, push_command, take_commands}
use sky_saga_rs.State.Stored.{stored, Stored, apply, replay, replay-append}
use sky_saga_rs.State.Steps.{
  Step, sets_mail, sets_inventory, sets_progress, sets_hotbar, sets_home_title, sets_device,
  sets_block, saves_photo, publishes_snapshot, sets_item_catalogue, authenticates, binds_peer,
  creates_character, ensures_character, deletes_character, sets_character_name, sets_home_biome,
  sets_appearance, reserves_slot, claims_slot, pushes_command, takes_commands,
}
use sky_saga_rs.State.Effects.{
  silent, reported, Effect, set_mail-Effect, set_inventory-Effect, set_progress-Effect,
  set_hotbar-Effect, set_home_title-Effect, set_device-Effect, set_block-Effect,
  authenticate-Effect, bind_peer-Effect, save_photo-Effect, claim_slot-Effect,
}
use sky_saga_rs.State.Effects.Characters.{
  create_character-Effect, ensure_character-Effect, delete_character-Effect,
  update_character-Effect, set_home_biome-Effect,
}

-- A step does nothing to what is stored, or one change, which it reports.
pub Step-Effect : {s t : AppState} → Step s t → Effect s t
unfolding set_character_name set_appearance set_item_catalogue reserve_slot push_command
    take_commands
Step-Effect (sets_mail account mail s) = set_mail-Effect account mail s
Step-Effect (sets_inventory account items s) = set_inventory-Effect account items s
Step-Effect (sets_progress account progress s) = set_progress-Effect account progress s
Step-Effect (sets_hotbar account bindings s) = set_hotbar-Effect account bindings s
Step-Effect (sets_home_title title s) = set_home_title-Effect title s
Step-Effect (sets_device device s) = set_device-Effect device s
Step-Effect (sets_block block s) = set_block-Effect block s
Step-Effect (saves_photo id bytes captured_at s) = save_photo-Effect id bytes captured_at s
Step-Effect (publishes_snapshot snapshot s) = silent _ refl
Step-Effect (sets_item_catalogue names s) = silent _ refl
Step-Effect (authenticates token username password s) =
    authenticate-Effect token username password s
Step-Effect (binds_peer peer account s) = bind_peer-Effect peer account s
Step-Effect (creates_character uuid account name s) = create_character-Effect uuid account name s
Step-Effect (ensures_character uuid account s) = ensure_character-Effect uuid account s
Step-Effect (deletes_character account s) = delete_character-Effect account s
Step-Effect (sets_character_name account name s) =
    update_character-Effect account (λ c. record c { name = name }) s
Step-Effect (sets_home_biome account biome s) = set_home_biome-Effect account biome s
Step-Effect (sets_appearance account looks s) =
    update_character-Effect account (λ c. record c { appearance = looks }) s
Step-Effect (reserves_slot account s) = silent _ refl
Step-Effect (claims_slot s) = claim_slot-Effect s
Step-Effect (pushes_command command s) = silent _ refl
Step-Effect (takes_commands s) = silent _ refl

-- What comes of these turns: what the changes make of what was stored; which of them are recorded;
-- and whether that is in their order.
pub record Made (first : Stored) {x y : Threads} (turns : Turns x y) : Type 0 where
  pub replayed : replay (made_by turns) first ≡ stored (y.state.inner)
  pub log : List Change
  pub recorded : y.state.sink ≡ some log
  pub same : Perm (log ++ y.due) (made_by turns)
  pub in_order : Overtaken turns ⊎ (log ++ y.due ≡ made_by turns)

-- A call by a thread.
Made-changes :
    {first : Stored} {x y : Threads} (turns : Turns x y) (t : AppState)
    (step : Step (with_sink (y.state)) t)
    → Effect (with_sink (y.state)) t
    → Made first turns
    → Made first (then_turn turns (changes y t step))
Made-changes {first} {y = y} turns t step (silent next e) m =
    let due = append-nil y.due in
    record {
      replayed = ap (λ c. replay c first) (append-nil (made_by turns)) ∙ (m.replayed ∙ sym e);
      log = m.log;
      recorded = m.recorded;
      same =
          subst (λ d. Perm (m.log ++ d) (made_by turns ++ [])) (sym due)
            (subst (Perm (m.log ++ y.due)) (sym (append-nil (made_by turns))) m.same);
      in_order = elim m.in_order [
        | inl late ↦ inl (inl late)
        | inr same ↦ inr (ap (λ d. m.log ++ d) due ∙ (same ∙ sym (append-nil (made_by turns))))
      ];
    }
Made-changes {first} {y = y} turns t step (reported change next e) m =
    let longer = append_assoc m.log y.due (change ∷ []) in
    record {
      replayed = replay-append (made_by turns) change first ∙ (ap (apply change) m.replayed ∙ e);
      log = m.log;
      recorded = m.recorded;
      same =
          subst (λ l. Perm l (made_by turns ++ (change ∷ []))) longer
            (Perm.append m.same (Perm.refl (change ∷ [])));
      in_order = elim m.in_order [
        | inl late ↦ inl (inl late)
        | inr same ↦ inr (sym longer ∙ ap (λ l. l ++ (change ∷ [])) same)
      ];
    }

-- A report by a thread.
Made-records :
    {first : Stored} {x y : Threads} (turns : Turns x y) (before : List Change) (change : Change)
    (after : List Change) (e : y.due ≡ before ++ (change ∷ after))
    → Made first turns
    → Made first (then_turn turns (records y before change after e))
Made-records {y = y} turns before change after e m = record {
  replayed = m.replayed;
  log = m.log ++ (change ∷ []);
  recorded = ap (λ o. given o change) m.recorded;
  same =
      Perm.trans
        (subst (λ l. Perm l (m.log ++ y.due))
          (sym (append_assoc m.log (change ∷ []) (before ++ after)))
          (Perm.append (Perm.refl m.log) (
            subst (λ d. Perm (change ∷ (before ++ after)) d) (sym e)
              (Perm.symm (perm_middle before after)))))
        m.same;
  in_order = ordered before e m.in_order;
}
  where
    ordered :
        (ahead : List Change)
        → y.due ≡ ahead ++ (change ∷ after)
        → Overtaken turns ⊎ (m.log ++ y.due ≡ made_by turns)
        → (Overtaken turns ⊎ (ahead ≢ []))
          ⊎ ((m.log ++ (change ∷ [])) ++ (ahead ++ after) ≡ made_by turns)
    ordered ahead d (inl late) = inl (inl late)
    ordered [] d (inr same) =
        inr (append_assoc m.log (change ∷ []) after ∙ (ap (λ due. m.log ++ due) (sym d) ∙ same))
    ordered (a ∷ ahead) d (inr same) = inl (inr (λ no. ground arith))

-- From any state, with the sink attached, and for threads whose calls and reports come in any order:
-- the changes in the order in which the calls made them turn what was stored at the start into what
-- would be stored now; what was recorded and what is due are these changes, in some order, none lost
-- and none twice; and in just this order, unless a report was recorded before one due earlier.
pub replay-Turns :
    (s : AppState) {y : Threads} (turns : Turns (record { state = with_sink s; due = [] }) y)
    → Made (stored (s.inner)) turns
unfolding replay
replay-Turns s (start x) = record {
  replayed = refl;
  log = [];
  recorded = refl;
  same = Perm.refl [];
  in_order = inr refl;
}
replay-Turns s (then_turn turns (changes y t step)) =
    Made-changes turns t step (Step-Effect step) (replay-Turns s turns)
replay-Turns s (then_turn turns (records y before change after e)) =
    Made-records turns before change after e (replay-Turns s turns)
