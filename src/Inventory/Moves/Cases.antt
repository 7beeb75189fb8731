-- ===== src/Inventory/Moves/Cases.antt =====
-- When a split or a merge happens, and what it then does.
use sky_saga_rs.Common.{
  ℕ, ◌+◌, ◌-◌, ◌<◌, ◌≤◌, min, Bool, true, false, not, ◌&&◌, ◌||◌, ◌≡◌, ◌≢◌, refl, [], ◌∷◌, Option,
  none, some, ltb, leb, ◌==◌, if◌then◌else◌, arith,
}
use sky_saga_rs.Common.Options.{◌>>=◌, ◌>>◌, guard}
use sky_saga_rs.Inventory.{
  Inventories, InventoryItem, item_created, item_changed, slots_changed, get_limit, slot, set_slot,
  set_count, create_stack,
}
use sky_saga_rs.Inventory.Moves.{Outcome, same_name, settle, try_split, try_merge}

-- The stack that a split takes from, and the split's outcome.
pub record Splits (v : Inventories) (o i p j n : ℕ) (out : Outcome) : Type 0 where
  pub source_item : ℕ
  pub stack : InventoryItem
  pub empty_target : slot v p j ≡ some 0
  pub source_there : slot v o i ≡ some source_item
  pub stack_there : v.items source_item ≡ some stack
  pub some_taken : 0 < n
  pub some_left : n < stack.count
  pub outcome :
      let made = create_stack (set_count v source_item (stack.count - n)) stack.name n in
      out ≡ (
        item_changed source_item ∷ item_created made.0 ∷ slots_changed p ∷ [],
        set_slot made.1 p j made.0,
      )

-- What there is to a step that succeeds.
pub bind-some {ℓ κ} :
    {A : Type ℓ} {B : Type κ} (m : Option A) (f : A → Option B) {b : B}
    → (m >>= f) ≡ some b
    → (a : A) × (m ≡ some a) × (f a ≡ some b)
bind-some none f h = cc
bind-some (some a) f h = (a, refl, h)

pub guard-some {ℓ} :
    {B : Type ℓ} (t : Bool) (k : Option B) {b : B}
    → (guard t >> k) ≡ some b
    → (t ≡ true) × (k ≡ some b)
guard-some true k h = (refl, h)
guard-some false k h = cc

pub the_same {ℓ} : {A : Type ℓ} {a b : A} → some a ≡ some b → b ≡ a
the_same h = cc

pub try_split-Splits :
    (v : Inventories) (o i p j n : ℕ) (out : Outcome)
    → try_split v o i p j n ≡ some out
    → Splits v o i p j n out
unfolding try_split
try_split-Splits v o i p j n out h =
    let (y, at_target, h₁) = bind-some (slot v p j) _ h in
    let (empty, h₂) = guard-some (y == 0) _ h₁ in
    let (x, at_source, h₃) = bind-some (slot v o i) _ h₂ in
    let (stack, there, h₄) = bind-some (v.items x) _ h₃ in
    let (partial, h₅) = guard-some (not (n == 0 || leb stack.count n)) _ h₄ in
    record {
      source_item = x;
      stack = stack;
      empty_target = ground arith;
      source_there = at_source;
      stack_there = there;
      some_taken = ground arith;
      some_left = ground arith;
      outcome = the_same h₅;
    }

-- The two stacks of a merge, the number moved, and the merge's outcome.
pub record Merges (v : Inventories) (o i p j n : ℕ) (out : Outcome) : Type 0 where
  pub source_item : ℕ
  pub target_item : ℕ
  pub source : InventoryItem
  pub target : InventoryItem
  pub name : ℕ
  pub moved : ℕ
  pub apart : (o == p && i == j) ≡ false
  pub source_there : slot v o i ≡ some source_item
  pub target_there : slot v p j ≡ some target_item
  pub no_zeros : (source_item ≢ 0) × (target_item ≢ 0)
  pub stack_there : v.items source_item ≡ some source
  pub target_stack_there : v.items target_item ≡ some target
  pub source_name : source.name ≡ some name
  pub target_name : target.name ≡ some name
  pub some_moved : 0 < moved
  pub moved_there : moved ≤ source.count
  pub moved_fits : target.count + moved ≤ get_limit v.limits name
  pub moved_wanted : (0 < n) → moved ≤ n
  pub outcome :
      out
      ≡ settle
          (set_count v target_item (target.count + moved))
          o
          i
          source_item
          target_item
          (source.count - moved)

same_name-≡ : (a : Option ℕ) (b : ℕ) → same_name a (some b) ≡ true → a ≡ some b
same_name-≡ none b h = cc
same_name-≡ (some a) b h = ground arith

not-true : (t : Bool) → not t ≡ true → t ≡ false
not-true t h = ground arith

both_there : (x y : ℕ) → not (x == 0 || y == 0) ≡ true → (x ≢ 0) × (y ≢ 0)
both_there x y h = ground arith

-- What is moved: all that is asked for and there, as far as the room goes.
abbrev amount : ℕ → ℕ → ℕ → ℕ
amount n there space = min (if ltb 0 n then min n there else there) space

amount-bounds :
    (n there space : ℕ)
    → not (amount n there space == 0) ≡ true
    → (0 < amount n there space)
      × (amount n there space ≤ there)
      × (amount n there space ≤ space)
      × ((0 < n) → amount n there space ≤ n)
amount-bounds n there space h = ground arith

fits : (a m limit : ℕ) → 0 < m → m ≤ limit - a → a + m ≤ limit
fits a m limit h k = omega arith

pub try_merge-Merges :
    (v : Inventories) (o i p j n : ℕ) (out : Outcome)
    → try_merge v o i p j n ≡ some out
    → Merges v o i p j n out
unfolding try_merge
try_merge-Merges v o i p j n out h =
    let (apart, h₁) = guard-some (not (o == p && i == j)) _ h in
    let (x, at_source, h₂) = bind-some (slot v o i) _ h₁ in
    let (y, at_target, h₃) = bind-some (slot v p j) _ h₂ in
    let (full, h₄) = guard-some (not (x == 0 || y == 0)) _ h₃ in
    let (source, there, h₅) = bind-some (v.items x) _ h₄ in
    let (name, named, h₆) = bind-some source.name _ h₅ in
    let (target, target_there, h₇) = bind-some (v.items y) _ h₆ in
    let (same, h₈) = guard-some (same_name target.name (some name)) _ h₇ in
    let space = get_limit v.limits name - target.count in
    let (roomy, h₉) = guard-some (not (space == 0)) _ h₈ in
    let moved = amount n source.count space in
    let (moving, h₁₀) = guard-some (not (moved == 0)) _ h₉ in
    let (some_moved, moved_there, moved_fits, moved_wanted) =
      amount-bounds n source.count space moving in
    record {
      source_item = x;
      target_item = y;
      source = source;
      target = target;
      name = name;
      moved = moved;
      apart = not-true _ apart;
      source_there = at_source;
      target_there = at_target;
      no_zeros = both_there x y full;
      stack_there = there;
      target_stack_there = target_there;
      source_name = named;
      target_name = same_name-≡ target.name name same;
      some_moved = some_moved;
      moved_there = moved_there;
      moved_fits = fits target.count moved (get_limit v.limits name) some_moved moved_fits;
      moved_wanted = moved_wanted;
      outcome = the_same h₁₀;
    }
