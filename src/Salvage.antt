-- ===== src/Salvage.antt =====
-- crates/skysaga-game/src/salvage.rs: which components a dismantled item gives back.
pub mod Totals
pub mod Tests
use sky_saga_rs.Common.{
  ℕ, zero, suc, ◌+◌, ◌-◌, ◌*◌, ◌/◌, ◌%◌, ◌^◌, Bool, true, false, List, [], ◌∷◌, ◌++◌, Option, none,
  some, length, get_elem?, set, ◌==◌, ltb, if◌then◌else◌,
}
use sky_saga_rs.Common.Options.{◌>>=◌, unwrap_or}

-- An index into the ingredients, and a quantity of them.
pub record Component : Type 0 where
  pub original : ℕ
  pub quantity : ℕ

-- `enumerate` and `filter`, from the index `i` on.
unfoldable pub available_from : ℕ → List ℕ → List Component
available_from i [] = []
available_from i (q ∷ qs) =
    let rest = available_from (i + 1) qs in
    if ltb 0 q then record { original = i; quantity = q } ∷ rest else rest

-- One turn of the generator, on a u32.
unfoldable pub next_seed : ℕ → ℕ
next_seed seed = (seed * 0x343fd + 0x269ec3) % 2 ^ 32

-- `position`: where the ingredient stands among those available.
unfoldable pub position_of : ℕ → List Component → Option ℕ
position_of index [] = none
position_of index (c ∷ cs) =
    let rest = position_of index cs in
    if c.original == index then some 0 else (rest >>= λ i. some (suc i))

-- `drawn` with one more of an ingredient, a new entry at its end if there is none.
unfoldable pub add_drawn : ℕ → List Component → List Component
add_drawn index [] = record { original = index; quantity = 1 } ∷ []
add_drawn index (c ∷ cs) =
    let rest = add_drawn index cs in
    if c.original == index
    then record { original = c.original; quantity = c.quantity + 1 } ∷ cs
    else c ∷ rest

-- One fewer at a position, which goes when none is left.
unfoldable pub take_one : ℕ → List Component → List Component
take_one position [] = []
take_one zero (c ∷ cs) =
    if c.quantity - 1 == 0
    then cs
    else record { original = c.original; quantity = c.quantity - 1 } ∷ cs
take_one (suc position) (c ∷ cs) = c ∷ take_one position cs

-- The ingredient at a position.
unfoldable pub original_at : ℕ → List Component → ℕ
original_at position [] = 0
original_at zero (c ∷ cs) = c.original
original_at (suc position) (c ∷ cs) = original_at position cs

-- `(seed >> 16) & 0x7fff`, modulo the number of ingredients available.
unfoldable pub pick : ℕ → ℕ → ℕ
pick seed zero = 0
pick seed (suc n) = seed / 2 ^ 16 % 2 ^ 15 % suc n

-- The position that is forced, or one from the next turn of the generator.
unfoldable pub forced_or_picked : Option ℕ → ℕ → List Component → ℕ × ℕ
unfolding next_seed pick
forced_or_picked (some position) seed available = (position, seed)
forced_or_picked none seed available = (pick (next_seed seed) (length available), next_seed seed)

unfoldable pub choose : ℕ → Option ℕ → List Component → ℕ × ℕ
unfolding position_of forced_or_picked
choose seed first available =
    forced_or_picked (first >>= λ index. position_of index available) seed available

-- The loop; `first` is for its first turn only.
unfoldable pub draw_loop : ℕ → ℕ → Option ℕ → List Component → List Component → List Component
unfolding choose add_drawn take_one original_at
draw_loop zero seed first available drawn = drawn
draw_loop (suc turns) seed first [] drawn = drawn
draw_loop (suc turns) seed first (c ∷ cs) drawn =
    let chosen = choose seed first (c ∷ cs) in
    draw_loop turns chosen.1 none (take_one chosen.0 (c ∷ cs))
      (add_drawn (original_at chosen.0 (c ∷ cs)) drawn)

unfoldable pub draw : ℕ → List ℕ → ℕ → Option ℕ → List Component
unfolding available_from draw_loop
draw seed ingredients count first = draw_loop count seed first (available_from 0 ingredients) []
