-- ===== src/Inventory/Slots.antt =====
-- Reading after writing: what each write to the inventories changes, and what it leaves alone.
use sky_saga_rs.Common.{
  ℕ, zero, suc, ◌+◌, ◌^◌, ◌<◌, ◌&&◌, ◌≡◌, refl, inl, inr, List, [], ◌∷◌, Option, none, some,
  get_elem?, set, ◌==◌, if◌then◌else◌, Option-cases, arith,
}
use sky_saga_rs.Inventory.{
  Inventories, InventoryItem, slot, set_slot, set_count, with_count, remove_item, create_stack,
  new_item,
}

get_elem?-set :
    (l : List ℕ) (i j x e : ℕ)
    → get_elem? l i ≡ some x
    → get_elem? (set l i e) j ≡ (if j == i then some e else get_elem? l j)
get_elem?-set [] i j x e h = cc
get_elem?-set (y ∷ l) zero zero x e h = refl
get_elem?-set (y ∷ l) zero (suc j) x e h = ground arith
get_elem?-set (y ∷ l) (suc i) zero x e h = ground arith
get_elem?-set (y ∷ l) (suc i) (suc j) x e h = ground (arith, get_elem?-set l i j x e)

-- A write to a slot that there is.
pub slot-set_slot :
    (v : Inventories) (o i x e p j : ℕ)
    → slot v o i ≡ some x
    → slot (set_slot v o i e) p j ≡ (if p == o && j == i then some e else slot v p j)
unfolding slot set_slot
slot-set_slot v o i x e p j h = elim (Option-cases (v.slots o)) [
  | inl n ↦ cc
  | inr (l, n) ↦ ground (arith, get_elem?-set l i j x e)
]

module _ (v : Inventories) (o i e : ℕ) where
  pub items-set_slot : (set_slot v o i e).items ≡ v.items
  unfolding set_slot
  items-set_slot = ground arith

  pub next_entity_id-set_slot : (set_slot v o i e).next_entity_id ≡ v.next_entity_id
  unfolding set_slot
  next_entity_id-set_slot = ground arith

  pub limits-set_slot : (set_slot v o i e).limits ≡ v.limits
  unfolding set_slot
  limits-set_slot = ground arith

module _ (v : Inventories) (e n : ℕ) where
  pub slot-set_count : (o i : ℕ) → slot (set_count v e n) o i ≡ slot v o i
  unfolding slot set_count
  slot-set_count o i = ground arith

  pub next_entity_id-set_count : (set_count v e n).next_entity_id ≡ v.next_entity_id
  unfolding set_count
  next_entity_id-set_count = ground arith

  pub limits-set_count : (set_count v e n).limits ≡ v.limits
  unfolding set_count
  limits-set_count = ground arith

  -- The item keeps everything but its count.
  pub items-set_count :
      (x : InventoryItem) (d : ℕ)
      → v.items e ≡ some x
      → (set_count v e n).items d ≡ (if d == e then some (with_count n x) else v.items d)
  unfolding set_count
  items-set_count x d h = ground arith

  pub items-set_count-none : (d : ℕ) → v.items d ≡ none → (set_count v e n).items d ≡ none
  unfolding set_count
  items-set_count-none d h = ground arith

  pub items-set_count-some : (d : ℕ) → (set_count v e n).items d ≡ none → v.items d ≡ none
  unfolding set_count
  items-set_count-some d h = ground arith

module _ (v : Inventories) (e : ℕ) where
  pub slot-remove_item : (o i : ℕ) → slot (remove_item v e) o i ≡ slot v o i
  unfolding slot remove_item
  slot-remove_item o i = refl

  pub next_entity_id-remove_item : (remove_item v e).next_entity_id ≡ v.next_entity_id
  unfolding remove_item
  next_entity_id-remove_item = refl

  pub items-remove_item : (d : ℕ) → (remove_item v e).items d ≡ (if d == e then none else v.items d)
  unfolding remove_item
  items-remove_item d = refl

-- A new stack has the next id, and is the only new item.
module _ (v : Inventories) (name : Option ℕ) (n : ℕ) where
  pub create_stack-id : (create_stack v name n).0 ≡ v.next_entity_id
  unfolding create_stack
  create_stack-id = refl

  pub slot-create_stack : (o i : ℕ) → slot (create_stack v name n).1 o i ≡ slot v o i
  unfolding slot create_stack
  slot-create_stack o i = refl

  pub items-create_stack :
      (d : ℕ)
      → (create_stack v name n).1.items d
        ≡ (if d == v.next_entity_id then some (new_item name n v.next_entity_id) else v.items d)
  unfolding create_stack
  items-create_stack d = refl

  pub next_entity_id-create_stack :
      v.next_entity_id + 1 < 2 ^ 32
      → (create_stack v name n).1.next_entity_id ≡ v.next_entity_id + 1
  unfolding create_stack
  next_entity_id-create_stack h = omega arith
