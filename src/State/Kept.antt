-- ===== src/State/Kept.antt =====
-- crates/skysaga-state/src/lib.rs: what is kept for a player is found again.
use sky_saga_rs.Common.{
  ◌≡◌, ◌≢◌, ◌⊎◌, false, subst, refl, ap, ◌∙◌, true, List, [], Option, none, some, inl, inr,
  Bool-cases, if◌then◌else◌, arith,
}
use sky_saga_rs.Common.Options.{unwrap_or}
use sky_saga_rs.Common.Equality.{Eq, ◌=?◌, Eq_nat, Eq_list}
use sky_saga_rs.Common.Table.{Table, look, put, look-put_same, look-put_other}
use sky_saga_rs.Common.Text.{Text}
use sky_saga_rs.State.Types.{
  StoredMail, StoredItem, StoredBinding, StoredProgress, default_progress, AppState, Eq_StoredMail,
  Eq_StoredItem, Eq_StoredBinding, Eq_StoredProgress,
}
use sky_saga_rs.State.Spelled.{SameName, account_key-SameName, SameName-account_key}
use sky_saga_rs.State.Saves.{
  holds, account_key, mail, set_mail, inventory, set_inventory, progress, set_progress, hotbar,
  set_hotbar,
}

holds-eq {ℓ} :
    {A : Type ℓ} ⦃e : Eq A⦄ (o : Option A) (value : A) → holds o value ≡ true → o ≡ some value
holds-eq none value h = ground arith
holds-eq ⦃e⦄ (some held) value h = ap some (e.same-eq held value h)

unwrapped-put {ℓ} :
    {V : Type ℓ} (d : V) (t : Table Text V) (key other : Text) (value : V)
    → unwrap_or d (look (put t key value) other)
      ≡ (if other =? key then value else unwrap_or d (look t other))
unwrapped-put d t key other value = elim (Bool-cases (other =? key)) [
  | inl here ↦ rw here (
      ap (λ k. unwrap_or d (look (put t key value) k)) (Eq_list.same-eq other key here)
      ∙ ap (unwrap_or d) (look-put_same t key value))
  | inr away ↦ rw away (ap (unwrap_or d) (look-put_other t key other value away))
]

=?-apart : (s t : Text) → (s =? t) ≡ false → s ≢ t
=?-apart s t away same =
    let here : (s =? t) ≡ true = subst (λ u. (s =? u) ≡ true) same (Eq_list.same_refl s) in
    ground (arith, here, away)

mail-set_mail :
    (account other : Text) (value : List StoredMail) (s : AppState)
    → mail other (set_mail account value s)
      ≡ (if account_key other =? account_key account then value else mail other s)
unfolding mail set_mail
mail-set_mail account other value s =
    elim (Bool-cases (holds (look s.inner.mail (account_key account)) value)) [
      | inl same ↦ rw same (elim (Bool-cases (account_key other =? account_key account)) [
        | inl here ↦ rw here (
            ap (λ k. unwrap_or [] (look s.inner.mail k))
              (Eq_list.same-eq (account_key other) (account_key account) here)
            ∙ ap (unwrap_or []) (holds-eq (look s.inner.mail (account_key account)) value same))
        | inr away ↦ rw away refl
      ])
      | inr new ↦
          rw new (unwrapped-put [] s.inner.mail (account_key account) (account_key other) value)
    ]

inventory-set_inventory :
    (account other : Text) (value : List StoredItem) (s : AppState)
    → inventory other (set_inventory account value s)
      ≡ (if account_key other =? account_key account then value else inventory other s)
unfolding inventory set_inventory
inventory-set_inventory account other value s =
    elim (Bool-cases (holds (look s.inner.inventories (account_key account)) value)) [
      | inl same ↦ rw same (elim (Bool-cases (account_key other =? account_key account)) [
        | inl here ↦ rw here (
            ap (λ k. unwrap_or [] (look s.inner.inventories k))
              (Eq_list.same-eq (account_key other) (account_key account) here)
            ∙ ap (unwrap_or [])
                (holds-eq (look s.inner.inventories (account_key account)) value same))
        | inr away ↦ rw away refl
      ])
      | inr new ↦
          rw new
            (unwrapped-put [] s.inner.inventories (account_key account) (account_key other) value)
    ]

progress-set_progress :
    (account other : Text) (value : StoredProgress) (s : AppState)
    → progress other (set_progress account value s)
      ≡ (if account_key other =? account_key account then value else progress other s)
unfolding progress set_progress
progress-set_progress account other value s =
    elim (Bool-cases (holds (look s.inner.progress (account_key account)) value)) [
      | inl same ↦ rw same (elim (Bool-cases (account_key other =? account_key account)) [
        | inl here ↦ rw here (
            ap (λ k. unwrap_or default_progress (look s.inner.progress k))
              (Eq_list.same-eq (account_key other) (account_key account) here)
            ∙ ap (unwrap_or default_progress)
                (holds-eq (look s.inner.progress (account_key account)) value same))
        | inr away ↦ rw away refl
      ])
      | inr new ↦ rw new (
          unwrapped-put default_progress s.inner.progress (account_key account) (account_key other)
            value)
    ]

hotbar-set_hotbar :
    (account other : Text) (value : List StoredBinding) (s : AppState)
    → hotbar other (set_hotbar account value s)
      ≡ (if account_key other =? account_key account then value else hotbar other s)
unfolding hotbar set_hotbar
hotbar-set_hotbar account other value s =
    elim (Bool-cases (holds (look s.inner.hotbars (account_key account)) value)) [
      | inl same ↦ rw same (elim (Bool-cases (account_key other =? account_key account)) [
        | inl here ↦ rw here (
            ap (λ k. unwrap_or [] (look s.inner.hotbars k))
              (Eq_list.same-eq (account_key other) (account_key account) here)
            ∙ ap (unwrap_or []) (holds-eq (look s.inner.hotbars (account_key account)) value same))
        | inr away ↦ rw away refl
      ])
      | inr new ↦
          rw new (unwrapped-put [] s.inner.hotbars (account_key account) (account_key other) value)
    ]

-- What is set for an account, be it the inbox, the inventory, the progress or the hotbar, is what is
-- got for every name that is the same but for the blanks around it and the case of its ASCII letters;
-- and what is got for any other name stays as it was.
pub kept_for_account :
    (account other : Text) (new_mail : List StoredMail) (items : List StoredItem)
    (new_progress : StoredProgress) (bindings : List StoredBinding) (s : AppState)
    → (SameName other account
        × (mail other (set_mail account new_mail s) ≡ new_mail)
        × (inventory other (set_inventory account items s) ≡ items)
        × (progress other (set_progress account new_progress s) ≡ new_progress)
        × (hotbar other (set_hotbar account bindings s) ≡ bindings))
      ⊎ ((¬ SameName other account)
          × (mail other (set_mail account new_mail s) ≡ mail other s)
          × (inventory other (set_inventory account items s) ≡ inventory other s)
          × (progress other (set_progress account new_progress s) ≡ progress other s)
          × (hotbar other (set_hotbar account bindings s) ≡ hotbar other s))
kept_for_account account other new_mail items new_progress bindings s =
    let kept_mail = mail-set_mail account other new_mail s in
    let kept_items = inventory-set_inventory account other items s in
    let kept_progress = progress-set_progress account other new_progress s in
    let kept_hotbar = hotbar-set_hotbar account other bindings s in
    elim (Bool-cases (account_key other =? account_key account)) [
      | inl here ↦ inl (
        SameName-account_key other account
            (Eq_list.same-eq (account_key other) (account_key account) here),
        rw here at kept_mail,
        rw here at kept_items,
        rw here at kept_progress,
        rw here at kept_hotbar,
      )
      | inr away ↦ inr (
        λ same.
            =?-apart (account_key other) (account_key account) away
              (account_key-SameName other account same),
        rw away at kept_mail,
        rw away at kept_items,
        rw away at kept_progress,
        rw away at kept_hotbar,
      )
    ]
