-- ===== src/Inventory/Sound.antt =====
-- The well-formedness of all inventories together, and the steps that keep it.
pub mod Kept
pub mod Opened
pub mod Loose
use sky_saga_rs.Common.{
  ℕ, zero, suc, ◌+◌, ◌%◌, ◌^◌, ◌<◌, ◌≤◌, Bool, true, false, ◌&&◌, ◌≡◌, ◌≢◌, refl, ◌∙◌, sym, ap, inl,
  inr, ◌⊎◌, List, [], ◌∷◌, Option, none, some, ◌==◌, if◌then◌else◌, Bool-cases, arith,
}
use sky_saga_rs.Inventory.{
  Inventories, InventoryItem, slot, held, set_slot, set_count, remove_item, create_stack, new_item,
}
use sky_saga_rs.Inventory.Slots.{
  slot-set_slot, items-set_slot, next_entity_id-set_slot, slot-set_count, next_entity_id-set_count,
  items-remove_item, slot-remove_item, next_entity_id-remove_item, create_stack-id,
  slot-create_stack, items-create_stack, next_entity_id-create_stack, items-set_count-none,
  items-set_count-some,
}
use sky_saga_rs.Inventory.Moves.{exchange}

-- 0 stands for an empty square and is no item. No id from the next one on is in use. A square that
-- is not empty holds an item that there is, and no other square holds it.
pub record IsSound (v : Inventories) : Type 0 where
  pub no_zero : v.items 0 ≡ none
  pub fresh : (e : ℕ) → v.next_entity_id ≤ e → v.items e ≡ none
  pub held_exist : (o i e : ℕ) → slot v o i ≡ some e → e ≢ 0 → v.items e ≢ none
  pub held_once :
      (o i p j e : ℕ) → slot v o i ≡ some e → slot v p j ≡ some e → e ≢ 0 → (o ≡ p) × (i ≡ j)

pub set_count-IsSound : (v : Inventories) (e n : ℕ) → IsSound v → IsSound (set_count v e n)
set_count-IsSound v e n h = record {
  no_zero = items-set_count-none v e n 0 h.no_zero;
  fresh =
      λ d le. items-set_count-none v e n d (h.fresh d (rw (next_entity_id-set_count v e n) at le));
  held_exist = λ o i d s nz m.
      h.held_exist o i d (rw (slot-set_count v e n o i) at s) nz (items-set_count-some v e n d m);
  held_once = λ o i p j d s t nz.
      h.held_once o i p j d (rw (slot-set_count v e n o i) at s)
        (rw (slot-set_count v e n p j) at t) nz;
}

-- A square is emptied, and its item stays.
pub clear-IsSound :
    (v : Inventories) (o i x : ℕ) → slot v o i ≡ some x → IsSound v → IsSound (set_slot v o i 0)
clear-IsSound v o i x there h = record {
  no_zero = rw (items-set_slot v o i 0) h.no_zero;
  fresh =
      λ d le. rw (items-set_slot v o i 0) (h.fresh d (rw (next_entity_id-set_slot v o i 0) at le));
  held_exist = λ p j d s nz.
      rw (items-set_slot v o i 0)
        (h.held_exist p j d (ground (arith, slot-set_slot v o i x 0 p j there)) nz);
  held_once = λ p j q k d s t nz.
      h.held_once p j q k d (ground (arith, slot-set_slot v o i x 0 p j there))
        (ground (arith, slot-set_slot v o i x 0 q k there)) nz;
}

-- The square's item goes with it.
pub drop-IsSound :
    (v : Inventories) (o i x : ℕ)
    → slot v o i ≡ some x
    → x ≢ 0
    → IsSound v
    → IsSound (remove_item (set_slot v o i 0) x)
drop-IsSound v o i x there nx h = record {
  no_zero = removed 0 h.no_zero;
  fresh = λ d le. removed d (
      h.fresh d (
        rw (next_entity_id-remove_item (set_slot v o i 0) x, next_entity_id-set_slot v o i 0) at
          le));
  held_exist = λ p j d s nz m. ground (
    arith,
    old p j d s,
    h.held_exist p j d,
    items-remove_item (set_slot v o i 0) x d,
    items-set_slot v o i 0,
    h.held_once p j o i d,
    slot-remove_item (set_slot v o i 0) x p j,
    slot-set_slot v o i x 0 p j there,
  );
  held_once = λ p j q k d s t nz. h.held_once p j q k d (old p j d s nz) (old q k d t nz) nz;
}
  where
    removed : (d : ℕ) → v.items d ≡ none → (remove_item (set_slot v o i 0) x).items d ≡ none
    removed d e =
        rw (items-remove_item (set_slot v o i 0) x d, items-set_slot v o i 0) (ground arith)

    old :
        (p j d : ℕ)
        → slot (remove_item (set_slot v o i 0) x) p j ≡ some d
        → d ≢ 0
        → slot v p j ≡ some d
    old p j d s nz =
        ground (arith, slot-remove_item (set_slot v o i 0) x p j, slot-set_slot v o i x 0 p j there)

module _ (v : Inventories) (o i : ℕ) (name : Option ℕ) (n : ℕ) (there : slot v o i ≡ some 0)
    (pos : 0 < v.next_entity_id) (room : v.next_entity_id + 1 < 2 ^ 32) (h : IsSound v) where
  abbrev placed : Inventories
  placed = set_slot (create_stack v name n).1 o i (create_stack v name n).0

  pub slot-placed :
      (p j : ℕ) → slot placed p j ≡ (if p == o && j == i then some v.next_entity_id else slot v p j)
  slot-placed p j =
      slot-set_slot (create_stack v name n).1 o i 0 _ p j (slot-create_stack v name n o i ∙ there)
      ∙ rw (create_stack-id v name n, slot-create_stack v name n p j)

  pub items-placed :
      (d : ℕ)
      → placed.items d
        ≡ (if d == v.next_entity_id then some (new_item name n v.next_entity_id) else v.items d)
  items-placed d =
      rw (items-set_slot (create_stack v name n).1 o i (create_stack v name n).0)
        (items-create_stack v name n d)

  next_entity_id-placed : placed.next_entity_id ≡ v.next_entity_id + 1
  next_entity_id-placed =
      next_entity_id-set_slot (create_stack v name n).1 o i _
      ∙ next_entity_id-create_stack v name n room

  next-not_held : (p j : ℕ) → slot v p j ≢ some v.next_entity_id
  next-not_held p j e =
      h.held_exist p j v.next_entity_id e (omega arith) (h.fresh v.next_entity_id (omega arith))

  -- A new stack goes into an empty square. The ids have not run out.
  pub place-IsSound : IsSound placed
  place-IsSound = record {
    no_zero = ground (arith, items-placed 0, h.no_zero);
    fresh = λ d le. ground (
      arith,
      items-placed d,
      next_entity_id-placed,
      h.fresh d (omega (arith, next_entity_id-placed, le)),
    );
    held_exist =
        λ p j d s nz m. ground (arith, items-placed d, slot-placed p j, h.held_exist p j d);
    held_once = λ p j q k d s t nz. ground (
      arith,
      slot-placed p j,
      slot-placed q k,
      next-not_held p j,
      next-not_held q k,
      h.held_once p j q k d,
    );
  }

module _ (v : Inventories) (o i x p j y : ℕ) (s : slot v o i ≡ some x)
    (t : slot v p j ≡ some y) where
  pub slot-exchange :
      (q k : ℕ)
      → slot (exchange v o i p j).1 q k
        ≡ (if q == p && k == j then some x else if q == o && k == i then some y else slot v q k)
  unfolding exchange
  slot-exchange q k =
      rw (s, t)
        (elim (Bool-cases (p == o && j == i)) [
          | inl same ↦
              slot-set_slot (set_slot v o i y) p j y x q k (slot-set_slot v o i x y p j s ∙ rw same)
              ∙ ground (arith, slot-set_slot v o i x y q k s)
          | inr apart ↦
              slot-set_slot (set_slot v o i y) p j y x q k
                (slot-set_slot v o i x y p j s ∙ rw apart t)
              ∙ ground (arith, slot-set_slot v o i x y q k s)
        ])

  pub items-exchange : (exchange v o i p j).1.items ≡ v.items
  unfolding exchange
  items-exchange = items-set_slot _ p j _ ∙ items-set_slot v o i _

  pub next_entity_id-exchange : (exchange v o i p j).1.next_entity_id ≡ v.next_entity_id
  unfolding exchange
  next_entity_id-exchange = next_entity_id-set_slot _ p j _ ∙ next_entity_id-set_slot v o i _

  -- The square whose contents a square has after the exchange.
  abbrev came_from : ℕ → ℕ → ℕ × ℕ
  came_from q k = if q == p && k == j then (o, i) else if q == o && k == i then (p, j) else (q, k)

  slot-came_from :
      (q k : ℕ) → slot (exchange v o i p j).1 q k ≡ slot v (came_from q k).0 (came_from q k).1
  slot-came_from q k = ground (arith, slot-exchange q k)

  came_from-injective :
      (q k r l : ℕ)
      → (came_from q k).0 ≡ (came_from r l).0
      → (came_from q k).1 ≡ (came_from r l).1
      → (q ≡ r) × (k ≡ l)
  came_from-injective q k r l e f = ground arith

  -- Two squares change places.
  pub exchange-IsSound : IsSound v → IsSound (exchange v o i p j).1
  exchange-IsSound h = record {
    no_zero = rw items-exchange h.no_zero;
    fresh = λ d le. rw items-exchange (h.fresh d (rw next_entity_id-exchange at le));
    held_exist = λ q k d e nz.
        rw items-exchange
          (h.held_exist (came_from q k).0 (came_from q k).1 d (sym (slot-came_from q k) ∙ e) nz);
    held_once = λ q k r l d e f nz.
        let same =
          h.held_once (came_from q k).0 (came_from q k).1 (came_from r l).0 (came_from r l).1 d
            (sym (slot-came_from q k) ∙ e) (sym (slot-came_from r l) ∙ f) nz in
        came_from-injective q k r l same.0 same.1;
  }
