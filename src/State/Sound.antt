-- ===== src/State/Sound.antt =====
-- What holds of the state of crates/skysaga-state/src/lib.rs after any calls, and that it does.
use sky_saga_rs.Common.{
  ℕ, ◌≡◌, ◌≤◌, refl, sym, subst, true, false, List, [], ◌∷◌, Option, none, some, inl, inr,
  Bool-cases, length, ltb, arith,
}
use sky_saga_rs.Common.Equality.{◌=?◌, Eq_nat, Eq_list, Eq_pair}
use sky_saga_rs.Common.Table.{
  Table, look, put, look-put_same, look-put_other, look-put_cases, some-eq,
}
use sky_saga_rs.Common.Text.{Text, trim, is_empty}
use sky_saga_rs.State.Types.{Account, Character, CredentialPolicy, Inner, new}
use sky_saga_rs.State.Accounts.{has}
use sky_saga_rs.State.Queues.{max_reservations, keep_newest}

abbrev pub HasAccount : Inner → Text → Type 0
HasAccount i key = has (look i.accounts key) ≡ true

-- The home biome of the account's character, if it has one, is not blank.
abbrev pub IsPlaced : Account → Type 0
IsPlaced account =
    (c : Character) (biome : Text)
    → account.character ≡ some c
    → c.home_biome ≡ some biome
    → is_empty (trim biome) ≡ false

-- Sessions, addresses and the latest sign-in are those of accounts that are there, no home biome is
-- blank, and no more accounts are expected than are kept.
abbrev pub IsSound : Inner → Type 0
IsSound i =
    ((token key : Text) → look i.sessions token ≡ some key → HasAccount i key)
    × ((peer : List ℕ) (key : Text) → look i.peers peer ≡ some key → HasAccount i key)
    × ((key : Text) → i.most_recent ≡ some key → HasAccount i key)
    × ((key : Text) (account : Account) → look i.accounts key ≡ some account → IsPlaced account)
    × (length i.reservations ≤ max_reservations)

has-some : {V : Type 0} (o : Option V) → has o ≡ true → (v : V) × (o ≡ some v)
has-some none h = ground arith
has-some (some v) h = (v, refl)

-- Accounts are never lost.
HasAccount-put :
    (t : Table Text Account) (key j : Text) (account : Account)
    → has (look t j) ≡ true
    → has (look (put t key account) j) ≡ true
HasAccount-put t key j account h = elim (Bool-cases (j =? key)) [
  | inl here ↦
      let same = Eq_list.same-eq j key here in rw same (rw (look-put_same t key account) refl)
  | inr away ↦ rw (look-put_other t key j account away) h
]

-- An account is written whose character's biome is not blank.
pub IsSound-put :
    (i : Inner) (key : Text) (account : Account)
    → IsSound i
    → IsPlaced account
    → IsSound (record i { accounts = put i.accounts key account })
IsSound-put i key account h placed = (
  λ token k e. HasAccount-put i.accounts key k account (h.0 token k e),
  λ peer k e. HasAccount-put i.accounts key k account (h.1 peer k e),
  λ k e. HasAccount-put i.accounts key k account (h.2 k e),
  λ k other e. elim (look-put_cases i.accounts key account k other e) [
    | inl (same, new) ↦ subst IsPlaced (sym new) placed
    | inr old ↦ h.3 k other old
  ],
  h.4,
)

-- A session is opened for an account that is there.
pub IsSound-session :
    (i : Inner) (token key : Text)
    → IsSound i
    → HasAccount i key
    → IsSound (record i { sessions = put i.sessions token key; most_recent = some key })
IsSound-session i token key h there = (
  λ t k e. elim (look-put_cases i.sessions token key t k e) [
    | inl (same, new) ↦ subst (HasAccount i) (sym new) there
    | inr old ↦ h.0 t k old
  ],
  h.1,
  λ k e. subst (HasAccount i) (some-eq e) there,
  h.3,
  h.4,
)

-- An address is bound to an account that is there.
pub IsSound-peer :
    (i : Inner) (peer : List ℕ) (key : Text)
    → IsSound i
    → HasAccount i key
    → IsSound (record i { peers = put i.peers peer key; most_recent = some key })
IsSound-peer i peer key h there = (
  h.0,
  λ p k e. elim (look-put_cases i.peers peer key p k e) [
    | inl (same, new) ↦ subst (HasAccount i) (sym new) there
    | inr old ↦ h.1 p k old
  ],
  λ k e. subst (HasAccount i) (some-eq e) there,
  h.3,
  h.4,
)

pub length-keep_newest : (names : List Text) → length (keep_newest names) ≤ max_reservations
unfolding keep_newest
length-keep_newest [] = omega arith
length-keep_newest (oldest ∷ newer) =
    elim (Bool-cases (ltb max_reservations (length (oldest ∷ newer)))) [
      | inl many ↦ rw many (length-keep_newest newer)
      | inr few ↦ rw few (ground arith)
    ]

pub IsSound-default : IsSound (new CredentialPolicy.any_non_empty).inner
unfolding look
IsSound-default = (
  λ token k e. ground arith,
  λ peer k e. ground arith,
  λ k e. ground arith,
  λ k a e. ground arith,
  omega arith,
)
