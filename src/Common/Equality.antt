-- ===== src/Common/Equality.antt =====
-- `PartialEq`, as the source derives it: equality field by field.
use Prim.Native.Nat.{ℕ}
use mathlib.Core.Path.{◌≡◌, refl, sym, ap, ◌∙◌}
use mathlib.Core.Bool.{Bool, true, false, ◌&&◌}
use mathlib.Core.Option.{Option, none, some}
use mathlib.Core.List.{List, [], ◌∷◌}
use native.Mathlib.Omega.{arith}
use sky_saga_rs.Common.Tests.{◌==◌, ==_iff}

pub record Eq {ℓ} (A : Type ℓ) : Type ℓ where
  pub same : A → A → Bool
  pub same-eq : (x y : A) → same x y ≡ true → x ≡ y
  pub same_refl : (x : A) → same x x ≡ true

infix 50 ◌=?◌
abbrev pub ◌=?◌ {ℓ} : {A : Type ℓ} ⦃e : Eq A⦄ → A → A → Bool
◌=?◌ ⦃e⦄ = e.same

instance abbrev pub Eq_nat : Eq ℕ
Eq_nat = record {
  same = ◌==◌;
  same-eq = λ x. λ y. λ h. (==_iff x y).0 h;
  same_refl = λ x. (==_iff x x).1 refl;
}

module _ {ℓ} {A : Type ℓ} ⦃e : Eq A⦄ where
  abbrev same_option : Option A → Option A → Bool
  same_option none none = true
  same_option (some x) (some y) = e.same x y
  same_option _ _ = false

  pub same_option-eq : (x y : Option A) → same_option x y ≡ true → x ≡ y
  same_option-eq none none h = refl
  same_option-eq none (some y) h = ground arith
  same_option-eq (some x) none h = ground arith
  same_option-eq (some x) (some y) h = ap some (e.same-eq x y h)

  pub same_option_refl : (x : Option A) → same_option x x ≡ true
  same_option_refl none = refl
  same_option_refl (some x) = e.same_refl x

  instance abbrev pub Eq_option : Eq (Option A)
  Eq_option = record { same = same_option; same-eq = same_option-eq; same_refl = same_option_refl }

  abbrev same_list : List A → List A → Bool
  same_list [] [] = true
  same_list (x ∷ xs) (y ∷ ys) = e.same x y && same_list xs ys
  same_list _ _ = false

  pub same_list-eq : (xs ys : List A) → same_list xs ys ≡ true → xs ≡ ys
  same_list-eq [] [] h = refl
  same_list-eq [] (y ∷ ys) h = ground arith
  same_list-eq (x ∷ xs) [] h = ground arith
  same_list-eq (x ∷ xs) (y ∷ ys) h =
      let heads = e.same-eq x y (ground arith) in
      let tails = same_list-eq xs ys (ground arith) in rw (heads, tails)

  pub same_list_refl : (xs : List A) → same_list xs xs ≡ true
  same_list_refl [] = refl
  same_list_refl (x ∷ xs) = rw (e.same_refl x, same_list_refl xs)

  instance abbrev pub Eq_list : Eq (List A)
  Eq_list = record { same = same_list; same-eq = same_list-eq; same_refl = same_list_refl }

module _ {ℓ κ} {A : Type ℓ} {B : Type κ} ⦃e : Eq A⦄ ⦃f : Eq B⦄ where
  abbrev same_pair : A × B → A × B → Bool
  same_pair p q = e.same p.0 q.0 && f.same p.1 q.1

  pub same_pair-eq : (p q : A × B) → same_pair p q ≡ true → p ≡ q
  same_pair-eq (a, b) (c, d) h =
      let firsts = e.same-eq a c (ground arith) in
      let seconds = f.same-eq b d (ground arith) in rw (firsts, seconds)

  pub same_pair_refl : (p : A × B) → same_pair p p ≡ true
  same_pair_refl p = rw (e.same_refl p.0, f.same_refl p.1)

  instance abbrev pub Eq_pair : Eq (A × B)
  Eq_pair = record { same = same_pair; same-eq = same_pair-eq; same_refl = same_pair_refl }

-- The equality of a record is that of its fields, put into a pair.
abbrev pub Eq-by {ℓ κ} :
    {A : Type ℓ} {B : Type κ} ⦃e : Eq B⦄ (fields : A → B) (made : B → A)
    → ((x : A) → made (fields x) ≡ x)
    → Eq A
Eq-by ⦃e⦄ fields made back = record {
  same = λ x. λ y. e.same (fields x) (fields y);
  same-eq = λ x. λ y. λ h. sym (back x) ∙ (ap made (e.same-eq (fields x) (fields y) h) ∙ back y);
  same_refl = λ x. e.same_refl (fields x);
}
