-- ===== src/Inventory/Sound/Loose.antt =====
-- Stacks that lie in no slot, and inventories that are closed, keep sound inventories sound.
use sky_saga_rs.Common.{
  ℕ, suc, ◌+◌, ◌-◌, ◌%◌, ◌^◌, ◌<◌, min, false, ◌≡◌, ◌≢◌, refl, sym, ap, ◌∙◌, inl, inr, List, [],
  ◌∷◌, none, some, get_elem?, ltb, ◌==◌, Bool-cases, Option-cases, arith,
}
use sky_saga_rs.Common.Maps
use sky_saga_rs.Common.Maps.{Map}
use sky_saga_rs.Common.Options.{◌>>=◌, unwrap_or}
use sky_saga_rs.Inventory.{
  Inventories, InventoryItem, StackLimits, slot, slot_list, set_slot, set_count, set_limits,
  remove_item, remove_items, close, create_loose, create_loose_with_id, reserve_ids_from, get_limit,
  first_free_rucksack_slot,
}
use sky_saga_rs.Inventory.Slots.{
  slot-set_slot, items-set_slot, next_entity_id-set_slot, slot-set_count, slot-create_stack,
  items-create_stack, next_entity_id-create_stack,
}
use sky_saga_rs.Inventory.Rucksack.{first_free_rucksack_slot-least}
use sky_saga_rs.Inventory.Moves.{
  find_mergeable, collect_into, collect_named, collect, consume_loose,
}
use sky_saga_rs.Inventory.Sound.{IsSound, set_count-IsSound}

-- An item that there may be, and that no slot holds.
pub record IsLoose (v : Inventories) (e : ℕ) : Type 0 where
  pub no_empty : e ≢ 0
  pub unheld : (o i : ℕ) → slot v o i ≢ some e

-- A loose stack goes.
remove_item-IsSound :
    (v : Inventories) (e : ℕ) → IsLoose v e → IsSound v → IsSound (remove_item v e)
unfolding remove_item slot
remove_item-IsSound v e l h = record {
  no_zero = removed 0 h.no_zero;
  fresh = λ d le. removed d (h.fresh d le);
  held_exist = λ o i d s nz m. elim (Bool-cases (d == e)) [
    | inl here ↦ l.unheld o i (s ∙ ap some (ground (arith, here)))
    | inr away ↦ h.held_exist o i d s nz (rw away at m)
  ];
  held_once = λ o i p j d s t nz. h.held_once o i p j d s t nz;
}
  where
    removed : (d : ℕ) → v.items d ≡ none → (remove_item v e).items d ≡ none
    removed d n = rw n (ground arith)

pub consume_loose-IsSound :
    (v : Inventories) (e n : ℕ) → IsLoose v e → IsSound v → IsSound (consume_loose v e n).1
unfolding consume_loose
consume_loose-IsSound v e n l h = elim (Option-cases (v.items e)) [
  | inl gone ↦ rw (gone, consume_loose) h
  | inr (stack, there) ↦ elim (Bool-cases (ltb stack.count n)) [
    | inl few ↦ rw (there, consume_loose, few) h
    | inr enough ↦ elim (Bool-cases (stack.count - n == 0)) [
      | inl all ↦ rw (there, consume_loose, enough, all) (remove_item-IsSound v e l h)
      | inr left ↦
          rw (there, consume_loose, enough, left) (set_count-IsSound v e (stack.count - n) h)
    ]
  ]
]

set_count-IsLoose : (v : Inventories) (into n e : ℕ) → IsLoose v e → IsLoose (set_count v into n) e
set_count-IsLoose v into n e l = record {
  no_empty = l.no_empty;
  unheld = λ o i s. l.unheld o i (rw (slot-set_count v into n o i) at s);
}

collect_into-IsSound :
    (v : Inventories) (e into n room : ℕ)
    → IsLoose v e
    → IsSound v
    → IsSound (collect_into v e into n room).1
unfolding collect_into
collect_into-IsSound v e into n room l h =
    let grown = unwrap_or 0 (v.items into >>= λ x. some x.count) + min n room in
    let sound = set_count-IsSound v into grown h in
    elim (Bool-cases (n - min n room == 0)) [
      | inl all ↦ rw all (
          remove_item-IsSound (set_count v into grown) e (set_count-IsLoose v into grown e l) sound)
      | inr left ↦ rw left (set_count-IsSound (set_count v into grown) e (n - min n room) sound)
    ]

-- A loose stack is put into an empty slot.
hold-IsSound :
    (v : Inventories) (o i e : ℕ)
    → slot v o i ≡ some 0
    → IsLoose v e
    → v.items e ≢ none
    → IsSound v
    → IsSound (set_slot v o i e)
hold-IsSound v o i e there l exists h = record {
  no_zero = rw (items-set_slot v o i e) h.no_zero;
  fresh =
      λ d le. rw (items-set_slot v o i e) (h.fresh d (rw (next_entity_id-set_slot v o i e) at le));
  held_exist = λ p j d s nz. rw (items-set_slot v o i e) (λ m.
      ground (arith, slot-set_slot v o i 0 e p j there, s, nz, m, exists, h.held_exist p j d));
  held_once = λ p j q k d s t nz. ground (
    arith,
    slot-set_slot v o i 0 e p j there,
    slot-set_slot v o i 0 e q k there,
    l.unheld p j,
    l.unheld q k,
    h.held_once p j q k d,
  );
}

collect_named-IsSound :
    (v : Inventories) (owner e name n : ℕ)
    → IsLoose v e
    → v.items e ≢ none
    → IsSound v
    → IsSound (collect_named v owner e name n).1
unfolding collect_named
collect_named-IsSound v owner e name n l exists h =
    elim (Option-cases (find_mergeable v name (get_limit v.limits name) (slot_list v owner))) [
      | inr (into, found) ↦
          rw (found, collect_named)
            (collect_into-IsSound v e into n
              (get_limit v.limits name - unwrap_or 0 (v.items into >>= λ x. some x.count)) l h)
      | inl alone ↦ elim (Option-cases (first_free_rucksack_slot v owner)) [
        | inl full ↦ rw (alone, collect_named, full) h
        | inr (free, there) ↦
            rw (alone, collect_named, there)
              (hold-IsSound v owner free e (first_free_rucksack_slot-least v owner free there).1 l
                exists h)
      ]
    ]

pub collect-IsSound :
    (v : Inventories) (owner e : ℕ) → IsLoose v e → IsSound v → IsSound (collect v owner e).1
unfolding collect
collect-IsSound v owner e l h = elim (Option-cases (v.items e)) [
  | inl gone ↦ rw (gone, collect) h
  | inr (stack, there) ↦ elim (Option-cases stack.name) [
    | inl nameless ↦ rw (there, collect, nameless) h
    | inr (name, named) ↦
        rw (there, collect, named)
          (collect_named-IsSound v owner e name stack.count l (λ m. ground (arith, there, m)) h)
  ]
]

pub create_loose-IsSound :
    (v : Inventories) (name n : ℕ)
    → 0 < v.next_entity_id
    → v.next_entity_id + 1 < 2 ^ 32
    → IsSound v
    → IsSound (create_loose v name n).1
unfolding create_loose
create_loose-IsSound v name n pos room h = record {
  no_zero = ground (arith, items-create_stack v (some name) n 0, h.no_zero);
  fresh = λ d le. ground (
    arith,
    items-create_stack v (some name) n d,
    next_entity_id-create_stack v (some name) n room,
    h.fresh d (omega (arith, next_entity_id-create_stack v (some name) n room, le)),
  );
  held_exist = λ o i d s nz m. ground (
    arith,
    items-create_stack v (some name) n d,
    slot-create_stack v (some name) n o i,
    h.held_exist o i d,
  );
  held_once = λ o i p j d s t nz.
      h.held_once o i p j d (sym (slot-create_stack v (some name) n o i) ∙ s)
        (sym (slot-create_stack v (some name) n p j) ∙ t) nz;
}

-- An id that a drop brings from the world, of whoever put it down.
pub create_loose_with_id-IsSound :
    (v : Inventories) (e name n : ℕ)
    → 0 < e
    → e + 1 < 2 ^ 32
    → IsSound v
    → IsSound (create_loose_with_id v e name n)
unfolding create_loose_with_id reserve_ids_from slot
create_loose_with_id-IsSound v e name n pos room h =
    let next : (e + 1) % 2 ^ 32 ≡ e + 1 = omega arith in
    elim (Option-cases (v.items e)) [
      | inr (stack, there) ↦
          rw (there, create_loose_with_id, next)
            (record {
              no_zero = h.no_zero;
              fresh = λ d le. h.fresh d (omega (arith, le));
              held_exist = h.held_exist;
              held_once = h.held_once;
            })
      | inl gone ↦
          rw (gone, create_loose_with_id, next)
            (record {
              no_zero = ground (arith, h.no_zero);
              fresh = λ d le. ground (arith, h.fresh d (omega (arith, le)));
              held_exist = λ o i d s nz m. ground (arith, h.held_exist o i d s nz, m);
              held_once = h.held_once;
            })
    ]

remove_items-none :
    (items : Map InventoryItem) (es : List ℕ) (d : ℕ)
    → items d ≡ none
    → remove_items items es d ≡ none
unfolding remove_items
remove_items-none items [] d n = n
remove_items-none items (e ∷ es) d n = elim (Bool-cases (e == 0)) [
  | inl empty ↦ rw empty (remove_items-none items es d n)
  | inr taken ↦ rw taken (remove_items-none (Maps.remove items e) es d (rw n (ground arith)))
]

remove_items-other :
    (items : Map InventoryItem) (es : List ℕ) (d : ℕ)
    → ((i : ℕ) → get_elem? es i ≢ some d)
    → remove_items items es d ≡ items d
unfolding remove_items
remove_items-other items [] d n = refl
remove_items-other items (e ∷ es) d n =
    let apart : (d == e) ≡ false = ground (arith, n 0) in
    elim (Bool-cases (e == 0)) [
      | inl empty ↦ rw empty (remove_items-other items es d (λ i. n (suc i)))
      | inr taken ↦
          rw taken (remove_items-other (Maps.remove items e) es d (λ i. n (suc i)) ∙ rw apart refl)
    ]

in_list :
    (v : Inventories) (owner : ℕ) (es : List ℕ) (j d : ℕ)
    → v.slots owner ≡ some es
    → get_elem? es j ≡ some d
    → slot v owner j ≡ some d
unfolding slot
in_list v owner es j d there g = rw there g

-- A slot of an inventory that stays open.
slot-closed :
    (v : Inventories) (owner o i e : ℕ) (es : List ℕ)
    → slot (record v { slots = Maps.remove v.slots owner; items = remove_items v.items es }) o i
      ≡ some e
    → (o ≢ owner) × (slot v o i ≡ some e)
unfolding slot
slot-closed v owner o i e es s = elim (Bool-cases (o == owner)) [
  | inl same ↦ let none_there : none ≡ some e = rw same at s in absurd (ground (arith, none_there))
  | inr other ↦ (ground (arith, other), rw other at s)
]

pub close-IsSound : (v : Inventories) (owner : ℕ) → IsSound v → IsSound (close v owner)
unfolding close
close-IsSound v owner h = elim (Option-cases (v.slots owner)) [
  | inl shut ↦ rw (shut, close) h
  | inr (es, there) ↦
      rw (there, close)
        (record {
          no_zero = remove_items-none v.items es 0 h.no_zero;
          fresh = λ d le. remove_items-none v.items es d (h.fresh d le);
          held_exist = λ o i d s nz m.
              let (other, before) = slot-closed v owner o i d es s in
              h.held_exist o i d before nz (
                sym (
                  remove_items-other v.items es d (λ j g.
                    other (h.held_once o i owner j d before (in_list v owner es j d there g) nz).0))
                ∙ m);
          held_once = λ o i p j d s t nz.
              h.held_once o i p j d (slot-closed v owner o i d es s).1
                (slot-closed v owner p j d es t).1 nz;
        })
]

pub set_limits-IsSound :
    (v : Inventories) (limits : StackLimits) → IsSound v → IsSound (set_limits v limits)
unfolding set_limits slot
set_limits-IsSound v limits h = record {
  no_zero = h.no_zero;
  fresh = h.fresh;
  held_exist = h.held_exist;
  held_once = h.held_once;
}

pub reserve_ids_from-IsSound :
    (v : Inventories) (next : ℕ) → IsSound v → IsSound (reserve_ids_from v next)
unfolding reserve_ids_from slot
reserve_ids_from-IsSound v next h = record {
  no_zero = h.no_zero;
  fresh = λ d le. h.fresh d (omega (arith, le));
  held_exist = h.held_exist;
  held_once = h.held_once;
}
