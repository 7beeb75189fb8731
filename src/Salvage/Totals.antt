-- ===== src/Salvage/Totals.antt =====
-- How much a dismantled item gives back.
use sky_saga_rs.Common.{
  ℕ, zero, suc, ◌+◌, ◌-◌, ◌<◌, min, ◌≡◌, refl, inl, inr, List, [], ◌∷◌, Option, none, some, length,
  ◌==◌, ltb, Bool-cases, Option-cases, arith,
}
use sky_saga_rs.Common.Options.{◌>>=◌}
use sky_saga_rs.Salvage.{
  Component, available_from, next_seed, position_of, add_drawn, take_one, original_at, pick,
  forced_or_picked, choose, draw_loop, draw,
}

unfoldable pub total : List Component → ℕ
total [] = 0
total (c ∷ cs) = c.quantity + total cs

unfoldable pub sum : List ℕ → ℕ
sum [] = 0
sum (q ∷ qs) = q + sum qs

-- No entry is empty.
unfoldable AllThere : List Component → Type 0
AllThere [] = Unit
AllThere (c ∷ cs) = (0 < c.quantity) × AllThere cs

total-nil : total [] ≡ 0
unfolding total
total-nil = refl

total-add_drawn : (i : ℕ) (cs : List Component) → total (add_drawn i cs) ≡ total cs + 1
unfolding total add_drawn
total-add_drawn i [] = refl
total-add_drawn i (c ∷ cs) = ground (arith, total-add_drawn i cs)

total-take_one :
    (k : ℕ) (cs : List Component)
    → k < length cs
    → AllThere cs
    → total (take_one k cs) + 1 ≡ total cs
unfolding total take_one AllThere
total-take_one k [] h a = absurd (omega arith)
total-take_one zero (c ∷ cs) h a = ground (arith, a.0)
total-take_one (suc k) (c ∷ cs) h a = omega (arith, total-take_one k cs (omega arith) a.1)

take_one-AllThere : (k : ℕ) (cs : List Component) → AllThere cs → AllThere (take_one k cs)
unfolding take_one AllThere
take_one-AllThere k [] a = a
take_one-AllThere zero (c ∷ cs) a = elim (Bool-cases (c.quantity - 1 == 0)) [
  | inl last ↦ rw last a.1
  | inr more ↦ rw more (ground arith, a.1)
]
take_one-AllThere (suc k) (c ∷ cs) a = (a.0, take_one-AllThere k cs a.1)

available_from-AllThere : (i : ℕ) (qs : List ℕ) → AllThere (available_from i qs)
unfolding available_from AllThere
available_from-AllThere i [] = tt
available_from-AllThere i (q ∷ qs) = elim (Bool-cases (ltb 0 q)) [
  | inl there ↦ rw there (ground arith, available_from-AllThere (i + 1) qs)
  | inr none_there ↦ rw none_there (available_from-AllThere (i + 1) qs)
]

total-available_from : (i : ℕ) (qs : List ℕ) → total (available_from i qs) ≡ sum qs
unfolding total available_from sum
total-available_from i [] = refl
total-available_from i (q ∷ qs) = ground (arith, total-available_from (i + 1) qs)

position_of-below : (i k : ℕ) (cs : List Component) → position_of i cs ≡ some k → k < length cs
unfolding position_of
position_of-below i k [] h = cc
position_of-below i k (c ∷ cs) h = elim (Bool-cases (c.original == i)) [
  | inl here ↦ ground (arith, h)
  | inr later ↦ elim (Option-cases (position_of i cs)) [
    | inl n ↦ ground (arith, n, h)
    | inr (j, e) ↦ ground (arith, e, h, position_of-below i j cs e)
  ]
]

pick-below : (seed n : ℕ) → 0 < n → pick seed n < n
unfolding pick
pick-below seed zero h = h
pick-below seed (suc n) h = omega arith

forced-below :
    (first : Option ℕ) (cs : List Component) (k : ℕ)
    → (first >>= λ index. position_of index cs) ≡ some k
    → k < length cs
forced-below none cs k e = cc
forced-below (some i) cs k e = position_of-below i k cs e

forced_or_picked-below :
    (forced : Option ℕ) (seed : ℕ) (cs : List Component)
    → ((k : ℕ) → forced ≡ some k → k < length cs)
    → 0 < length cs
    → (forced_or_picked forced seed cs).0 < length cs
unfolding forced_or_picked
forced_or_picked-below none seed cs f h = pick-below (next_seed seed) (length cs) h
forced_or_picked-below (some k) seed cs f h = f k refl

-- A position drawn is one that there is.
choose-below :
    (seed : ℕ) (first : Option ℕ) (cs : List Component)
    → 0 < length cs
    → (choose seed first cs).0 < length cs
unfolding choose
choose-below seed first cs h =
    forced_or_picked-below (first >>= λ index. position_of index cs) seed cs (forced-below first cs)
      h

total-draw_loop :
    (turns seed : ℕ) (first : Option ℕ) (cs drawn : List Component)
    → AllThere cs
    → total (draw_loop turns seed first cs drawn) ≡ total drawn + min turns (total cs)
unfolding draw_loop total
total-draw_loop zero seed first cs drawn a = omega arith
total-draw_loop (suc turns) seed first [] drawn a = omega arith
total-draw_loop (suc turns) seed first (c ∷ cs) drawn a =
    let chosen = choose seed first (c ∷ cs) in
    let index = original_at chosen.0 (c ∷ cs) in
    let taken =
      total-take_one chosen.0 (c ∷ cs) (choose-below seed first (c ∷ cs) (omega arith)) a in
    let rest =
      total-draw_loop turns chosen.1 none (take_one chosen.0 (c ∷ cs)) (add_drawn index drawn)
        (take_one-AllThere chosen.0 (c ∷ cs) a) in
    omega (arith, taken, rest, total-add_drawn index drawn)

-- Whatever the seed and the forced ingredient, a dismantled item gives back as many components as
-- are asked for, or all that it is made of if there are fewer.
pub total-draw :
    (seed : ℕ) (ingredients : List ℕ) (count : ℕ) (first : Option ℕ)
    → total (draw seed ingredients count first) ≡ min count (sum ingredients)
unfolding draw
total-draw seed ingredients count first =
    let drawn =
      total-draw_loop count seed first (available_from 0 ingredients) []
        (available_from-AllThere 0 ingredients) in
    omega (arith, drawn, total-available_from 0 ingredients, total-nil)
