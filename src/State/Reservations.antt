-- ===== src/State/Reservations.antt =====
-- crates/skysaga-state/src/lib.rs: the queue of the accounts that are expected to connect.
use sky_saga_rs.Common.{
  ℕ, zero, suc, ◌≡◌, ◌≤◌, ◌-◌, ◌+◌, refl, sym, ap, ◌∙◌, List, [], ◌∷◌, ◌++◌, inl, inr, Bool-cases,
  length, length-append, drop, length-drop, drop-drop, drop-append, get_elem?, ltb, append-nil,
  append_assoc, arith,
}
use sky_saga_rs.Common.Text.{Text}
use sky_saga_rs.State.Types.{AppState}
use sky_saga_rs.State.Sound.{length-keep_newest}
use sky_saga_rs.State.Queues.{max_reservations, keep_newest, reserve_slot, popped, claim_slot}

-- The loop drops the oldest ones that are too many, and stops.
pub keep_newest-drop :
    (names : List Text) → keep_newest names ≡ drop (length names - max_reservations) names
unfolding keep_newest
keep_newest-drop [] = refl
keep_newest-drop (oldest ∷ newer) =
    elim (Bool-cases (ltb max_reservations (length (oldest ∷ newer)))) [
      | inl many ↦
          let one_more : length (oldest ∷ newer) - max_reservations
              ≡ suc (length newer - max_reservations) =
            ground arith in
          rw (many, one_more) (keep_newest-drop newer)
      | inr few ↦
          let none_too_many : length (oldest ∷ newer) - max_reservations ≡ 0 = ground arith in
          rw (few, none_too_many) refl
    ]

-- Every name is reserved for, in order.
abbrev pub reserve_all : List Text → AppState → AppState
reserve_all [] s = s
reserve_all (name ∷ names) s = reserve_all names (reserve_slot name s)

-- The newest of `names`, which are all of them when they are not too many.
abbrev pub newest : List Text → List Text
newest names = drop (length names - max_reservations) names

newest-append : (old names : List Text) → newest (newest old ++ names) ≡ newest (old ++ names)
newest-append old names =
    let b = length old - max_reservations in
    let whole : drop b old ++ names ≡ drop b (old ++ names) =
      drop-append b old names (omega arith) in
    let count : b + (length (old ++ names) - b - max_reservations)
        ≡ length (old ++ names) - max_reservations =
      omega (arith, length-append old names) in
    rw whole (
      rw (length-drop b (old ++ names)) (
        drop-drop (length (old ++ names) - b - max_reservations) b (old ++ names)
        ∙ ap (λ n. drop n (old ++ names)) count))

newest_few : (names : List Text) → length names ≤ max_reservations → newest names ≡ names
newest_few names few =
    let none_too_many : length names - max_reservations ≡ 0 = omega arith in rw none_too_many refl

-- After any number of reservations, those that stand are the newest eight of all, the oldest first.
pub reserve_all-newest :
    (names : List Text) (s : AppState)
    → length s.inner.reservations ≤ max_reservations
    → (reserve_all names s).inner.reservations ≡ newest (s.inner.reservations ++ names)
unfolding reserve_slot
reserve_all-newest [] s few =
    sym (ap newest (append-nil s.inner.reservations) ∙ newest_few s.inner.reservations few)
reserve_all-newest (name ∷ names) s few =
    let old = s.inner.reservations in
    reserve_all-newest names (reserve_slot name s) (length-keep_newest (old ++ (name ∷ [])))
    ∙ (ap (λ kept. newest (kept ++ names)) (keep_newest-drop (old ++ (name ∷ [])))
        ∙ (newest-append (old ++ (name ∷ [])) names
            ∙ ap newest (append_assoc old (name ∷ []) names)))

-- The state after `k` claims.
abbrev pub claims : ℕ → AppState → AppState
claims zero s = s
claims (suc k) s = claims k (claim_slot s).1

claim_slot-claims :
    (k : ℕ) (s : AppState) → (claim_slot (claims k s)).0 ≡ get_elem? s.inner.reservations k
unfolding claim_slot
claim_slot-claims zero s = first (s.inner.reservations)
  where
    first : (rs : List Text) → (popped s rs).0 ≡ get_elem? rs zero
    first [] = refl
    first (oldest ∷ newer) = refl
claim_slot-claims (suc k) s =
    claim_slot-claims k (claim_slot s).1 ∙ later (s.inner.reservations) refl
  where
    later :
        (rs : List Text)
        → s.inner.reservations ≡ rs
        → get_elem? (popped s rs).1.inner.reservations k ≡ get_elem? rs (suc k)
    later [] e = ap (λ rs. get_elem? rs k) e
    later (oldest ∷ newer) e = refl

-- Accounts that are reserved for while there is room are claimed in the order of their reservations, each
-- by the claim of its place in the queue, and the claims after the last find none.
pub claim_slot-reserve_all :
    (names : List Text) (s : AppState) (k : ℕ)
    → length (s.inner.reservations ++ names) ≤ max_reservations
    → (claim_slot (claims k (reserve_all names s))).0 ≡ get_elem? (s.inner.reservations ++ names) k
claim_slot-reserve_all names s k room =
    claim_slot-claims k (reserve_all names s)
    ∙ ap (λ rs. get_elem? rs k)
        (reserve_all-newest names s (omega (arith, length-append s.inner.reservations names))
          ∙ newest_few (s.inner.reservations ++ names) room)
