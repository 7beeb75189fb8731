-- ===== src/Common/Table.antt =====
-- A `HashMap` whose entries are walked over: the entries in the order of their first insertion.
use mathlib.Core.Path.{◌≡◌, sym, ap, ◌∙◌}
use mathlib.Core.Logic.{◌⊎◌, inl, inr}
use mathlib.Core.Bool.{false}
use mathlib.Core.Option.{Option, none, some}
use mathlib.Core.List.{List, [], ◌∷◌}
use native.Mathlib.Omega.{arith}
use sky_saga_rs.Common.Tests.{if◌then◌else◌, Bool-cases}
use sky_saga_rs.Common.Equality.{Eq, ◌=?◌}

abbrev pub Table {ℓ κ} : Type ℓ → Type κ → Type (ℓ ⊔ κ)
Table K V = List (K × V)

pub some-eq {ℓ} : {A : Type ℓ} {x y : A} → some x ≡ some y → x ≡ y
some-eq {x = x} h = ap (λ o. elim o [ none ↦ x | some y ↦ y ]) h

module _ {ℓ κ} {K : Type ℓ} {V : Type κ} ⦃e : Eq K⦄ where
  -- `get`
  unfoldable pub look : Table K V → K → Option V
  look [] k = none
  look ((j, v) ∷ t) k = if k =? j then some v else look t k

  -- `insert`
  unfoldable pub put : Table K V → K → V → Table K V
  put [] k v = (k, v) ∷ []
  put ((j, w) ∷ t) k v = let rest = put t k v in if k =? j then (j, v) ∷ t else (j, w) ∷ rest

  -- `extend`
  unfoldable pub put_all : Table K V → List (K × V) → Table K V
  unfolding put
  put_all t [] = t
  put_all t ((k, v) ∷ more) = put_all (put t k v) more

  -- `values`
  unfoldable pub values : Table K V → List V
  values [] = []
  values ((k, v) ∷ t) = v ∷ values t

  pub look-put_same : (t : Table K V) (k : K) (v : V) → look (put t k v) k ≡ some v
  unfolding look put
  look-put_same [] k v = rw (e.same_refl k)
  look-put_same ((j, w) ∷ t) k v = elim (Bool-cases (e.same k j)) [
    | inl here ↦ rw here (rw here)
    | inr away ↦ rw away (rw away (look-put_same t k v))
  ]

  pub look-put_other :
      (t : Table K V) (k i : K) (v : V) → (i =? k) ≡ false → look (put t k v) i ≡ look t i
  unfolding look put
  look-put_other [] k i v h = rw h
  look-put_other ((j, w) ∷ t) k i v h = elim (Bool-cases (e.same k j)) [
    | inl here ↦
        let keys = e.same-eq k j here in
        let apart : e.same i j ≡ false = rw keys at h in rw here (rw apart)
    | inr away ↦
        rw away (ap (λ rest. if e.same i j then some w else rest) (look-put_other t k i v h))
  ]

  -- What is found after a write is what was written, or was found before it.
  pub look-put_cases :
      (t : Table K V) (k : K) (v : V) (i : K) (w : V)
      → look (put t k v) i ≡ some w
      → ((i ≡ k) × (w ≡ v)) ⊎ (look t i ≡ some w)
  look-put_cases t k v i w h = elim (Bool-cases (e.same i k)) [
    | inl here ↦
        let key = e.same-eq i k here in
        inl (key, some-eq (sym h ∙ (ap (look (put t k v)) key ∙ look-put_same t k v)))
    | inr away ↦ inr (sym (look-put_other t k i v away) ∙ h)
  ]

  -- Writing what is there changes nothing.
  pub put-look : (t : Table K V) (k : K) (v : V) → look t k ≡ some v → put t k v ≡ t
  unfolding look put
  put-look [] k v h = ground arith
  put-look ((j, w) ∷ t) k v h = elim (Bool-cases (e.same k j)) [
    | inl here ↦
        let found : some w ≡ some v = rw here at h in
        rw here (ap (λ x. (j, x) ∷ t) (some-eq (sym found)))
    | inr away ↦
        let later : look t k ≡ some v = rw away at h in
        rw away (ap (λ rest. (j, w) ∷ rest) (put-look t k v later))
  ]

  -- Of two writes to a key, the last one stays.
  pub put-put : (t : Table K V) (k : K) (v w : V) → put (put t k v) k w ≡ put t k w
  unfolding put
  put-put [] k v w = rw (e.same_refl k)
  put-put ((j, x) ∷ t) k v w = elim (Bool-cases (e.same k j)) [
    | inl here ↦ rw here (rw here)
    | inr away ↦ rw away (rw away (ap (λ rest. (j, x) ∷ rest) (put-put t k v w)))
  ]
