-- ===== src/Inventory/Conserves.antt =====
-- A merge and a split make nothing and lose nothing.
use sky_saga_rs.Common.{
  ℕ, ◌+◌, ◌-◌, ◌^◌, ◌<◌, ◌≤◌, false, ◌≡◌, ◌≢◌, refl, sym, ◌∙◌, ap, inl, inr, Option, some, ltb,
  ◌==◌, if◌then◌else◌, Bool-cases, arith,
}
use sky_saga_rs.Common.Options.{unwrap_or}
use sky_saga_rs.Inventory.{
  Inventories, InventoryItem, count, name, slot, held, get_limit, set_slot, set_count, remove_item,
  create_stack, new_item,
}
use sky_saga_rs.Inventory.Slots.{
  items-set_slot, items-set_count, items-remove_item, slot-set_count, items-create_stack,
  next_entity_id-set_count,
}
use sky_saga_rs.Inventory.Moves.{Outcome, settle, try_split, try_merge}
use sky_saga_rs.Inventory.Moves.Cases.{Splits, Merges, try_split-Splits, try_merge-Merges}
use sky_saga_rs.Inventory.Sound.{IsSound, set_count-IsSound, slot-placed}

-- The size of a stack, 0 where there is none.
abbrev pub amount_of : Inventories → ℕ → ℕ
unfolding count
amount_of v e = unwrap_or 0 (count v e)

amount_of-some :
    (v : Inventories) (e : ℕ) (x : InventoryItem) → v.items e ≡ some x → amount_of v e ≡ x.count
unfolding count
amount_of-some v e x h = rw h refl

amount_of-set_count :
    (v : Inventories) (e n d : ℕ) (x : InventoryItem)
    → v.items e ≡ some x
    → amount_of (set_count v e n) d ≡ (if d == e then n else amount_of v d)
unfolding count
amount_of-set_count v e n d x h = elim (Bool-cases (d == e)) [
  | inl same ↦ rw (items-set_count v e n x d h, same) refl
  | inr other ↦ rw (items-set_count v e n x d h, other) refl
]

amount_of-removed :
    (v : Inventories) (o i x d : ℕ)
    → amount_of (remove_item (set_slot v o i 0) x) d ≡ (if d == x then 0 else amount_of v d)
unfolding count
amount_of-removed v o i x d = elim (Bool-cases (d == x)) [
  | inl same ↦ rw (items-remove_item (set_slot v o i 0) x d, same) refl
  | inr other ↦ rw (items-remove_item (set_slot v o i 0) x d, other, items-set_slot v o i 0) refl
]

amount_of-placed :
    (v : Inventories) (o i : ℕ) (name : Option ℕ) (n d : ℕ)
    → let made = create_stack v name n in
      amount_of (set_slot made.1 o i made.0) d
      ≡ (if d == v.next_entity_id then n else amount_of v d)
unfolding count new_item
amount_of-placed v o i name n d =
    let made = create_stack v name n in
    elim (Bool-cases (d == v.next_entity_id)) [
      | inl same ↦ rw (items-set_slot made.1 o i made.0, items-create_stack v name n d, same) refl
      | inr other ↦ rw (items-set_slot made.1 o i made.0, items-create_stack v name n d, other) refl
    ]

-- What is left of the source's stack is what it has in the end, be it nothing.
amount_of-settle :
    (v : Inventories) (o i x y left d : ℕ) (stack : InventoryItem)
    → v.items x ≡ some stack
    → amount_of (settle v o i x y left).1 d ≡ (if d == x then left else amount_of v d)
unfolding settle
amount_of-settle v o i x y left d stack h = elim (Bool-cases (ltb 0 left)) [
  | inl some_left ↦ rw some_left (amount_of-set_count v x left d stack h)
  | inr none_left ↦
      let zero_left : left ≡ 0 = ground arith in rw zero_left (amount_of-removed v o i x d)
]

module _ (v : Inventories) (o i p j n : ℕ) (out : Outcome) (h : IsSound v) where
  apart-items : (m : Merges v o i p j n out) → m.source_item ≢ m.target_item
  apart-items m same =
      let both =
        h.held_once o i p j m.source_item m.source_there (m.target_there ∙ ap some (sym same))
          m.no_zeros.0 in
      ground (arith, both, m.apart)

  amount_of-merge :
      (m : Merges v o i p j n out) (d : ℕ)
      → amount_of out.1 d ≡ (
          if d == m.source_item
          then m.source.count - m.moved
          else if d == m.target_item
          then m.target.count + m.moved
          else amount_of v d)
  amount_of-merge m d =
      let more = m.target.count + m.moved in
      let kept : (set_count v m.target_item more).items m.source_item ≡ some m.source =
        items-set_count v m.target_item more m.target m.source_item m.target_stack_there
        ∙ rw (apart-test m) m.stack_there in
      ap (λ q. amount_of q.1 d) m.outcome
      ∙ amount_of-settle (set_count v m.target_item more) o i m.source_item m.target_item
          (m.source.count - m.moved) d m.source kept
      ∙ ap (λ a. if d == m.source_item then m.source.count - m.moved else a)
          (amount_of-set_count v m.target_item more d m.target m.target_stack_there)
    where
      apart-test : (m : Merges v o i p j n out) → (m.source_item == m.target_item) ≡ false
      apart-test m = ground (arith, apart-items m)

  Merges-conserves :
      (m : Merges v o i p j n out)
      → (amount_of out.1 m.source_item + amount_of out.1 m.target_item
          ≡ amount_of v m.source_item + amount_of v m.target_item)
        × (amount_of v m.target_item < amount_of out.1 m.target_item)
        × (amount_of out.1 m.target_item ≤ get_limit v.limits m.name)
        × ((d : ℕ) → d ≢ m.source_item → d ≢ m.target_item → amount_of out.1 d ≡ amount_of v d)
  Merges-conserves m =
      let s = amount_of-some v m.source_item m.source m.stack_there in
      let t = amount_of-some v m.target_item m.target m.target_stack_there in
      let s' : amount_of out.1 m.source_item ≡ m.source.count - m.moved =
        ground (arith, amount_of-merge m m.source_item) in
      let t' : amount_of out.1 m.target_item ≡ m.target.count + m.moved =
        ground (arith, amount_of-merge m m.target_item, apart-items m) in
      (
        omega (arith, s, t, s', t', m.moved_there),
        omega (arith, t, t', m.some_moved),
        omega (arith, t', m.moved_fits),
        λ d a b. ground (arith, amount_of-merge m d),
      )

  named-same : (m : Merges v o i p j n out) (of : ℕ) → name v (held v p j) ≡ some of → m.name ≡ of
  unfolding name
  named-same m of e =
      let named : name v m.target_item ≡ some of = rw m.target_there at e in
      ground (arith, m.target_name, m.target_stack_there, named)

  -- In sound inventories a merge takes from the source's stack what it adds to the target's, which
  -- grows, and changes
  -- the size of no other stack.
  pub try_merge-conserves :
      try_merge v o i p j n ≡ some out
      → (amount_of out.1 (held v o i) + amount_of out.1 (held v p j)
          ≡ amount_of v (held v o i) + amount_of v (held v p j))
        × (amount_of v (held v p j) < amount_of out.1 (held v p j))
        × ((d : ℕ) → d ≢ held v o i → d ≢ held v p j → amount_of out.1 d ≡ amount_of v d)
  try_merge-conserves e = conserved (try_merge-Merges v o i p j n out e)
    where
      conserved :
          Merges v o i p j n out
          → (amount_of out.1 (held v o i) + amount_of out.1 (held v p j)
              ≡ amount_of v (held v o i) + amount_of v (held v p j))
            × (amount_of v (held v p j) < amount_of out.1 (held v p j))
            × ((d : ℕ) → d ≢ held v o i → d ≢ held v p j → amount_of out.1 d ≡ amount_of v d)
      conserved m =
          let (sum, more, within, others) = Merges-conserves m in
          rw (m.source_there, m.target_there) (sum, more, others)

  -- In sound inventories the stack that a merge adds to stays within the limit of its name.
  pub try_merge-limit :
      (of : ℕ)
      → try_merge v o i p j n ≡ some out
      → name v (held v p j) ≡ some of
      → amount_of out.1 (held v p j) ≤ get_limit v.limits of
  try_merge-limit of e named = limited (try_merge-Merges v o i p j n out e)
    where
      limited : Merges v o i p j n out → amount_of out.1 (held v p j) ≤ get_limit v.limits of
      limited m =
          let (sum, more, within, others) = Merges-conserves m in
          let same : m.name ≡ of = named-same m of named in rw (m.target_there, sym same) within

module _ (v : Inventories) (o i p j n : ℕ) (out : Outcome) (h : IsSound v)
    (pos : 0 < v.next_entity_id) (room : v.next_entity_id + 1 < 2 ^ 32) where
  amount_of-split :
      (t : Splits v o i p j n out) (d : ℕ)
      → amount_of out.1 d ≡ (
          if d == v.next_entity_id
          then n
          else if d == t.source_item
          then t.stack.count - n
          else amount_of v d)
  amount_of-split t d =
      let less = set_count v t.source_item (t.stack.count - n) in
      let next = next_entity_id-set_count v t.source_item (t.stack.count - n) in
      ap (λ q. amount_of q.1 d) t.outcome
      ∙ amount_of-placed less p j t.stack.name n d
      ∙ ap (λ k. if d == k then n else amount_of less d) next
      ∙ ap (λ a. if d == v.next_entity_id then n else a)
          (amount_of-set_count v t.source_item (t.stack.count - n) d t.stack t.stack_there)

  slot-split : Splits v o i p j n out → slot out.1 p j ≡ some v.next_entity_id
  slot-split t =
      let less = set_count v t.source_item (t.stack.count - n) in
      let next = next_entity_id-set_count v t.source_item (t.stack.count - n) in
      ap (λ q. slot q.1 p j) t.outcome
      ∙ slot-placed less p j t.stack.name n
          (slot-set_count v t.source_item (t.stack.count - n) p j ∙ t.empty_target)
          (omega (arith, next, pos)) (omega (arith, next, room))
          (set_count-IsSound v t.source_item (t.stack.count - n) h) p j
      ∙ ground (arith, next)

  -- In sound inventories whose ids have not run out, a split takes the number asked for from the
  -- source's stack, and puts it, under the next id,
  -- into the target's square. No other stack changes its size.
  pub try_split-conserves :
      try_split v o i p j n ≡ some out
      → (amount_of out.1 (held v o i) + amount_of out.1 v.next_entity_id ≡ amount_of v (held v o i))
        × (amount_of out.1 v.next_entity_id ≡ n)
        × (slot out.1 p j ≡ some v.next_entity_id)
        × ((d : ℕ) → d ≢ held v o i → d ≢ v.next_entity_id → amount_of out.1 d ≡ amount_of v d)
  try_split-conserves e = conserved (try_split-Splits v o i p j n out e)
    where
      conserved :
          Splits v o i p j n out
          → (amount_of out.1 (held v o i) + amount_of out.1 v.next_entity_id
              ≡ amount_of v (held v o i))
            × (amount_of out.1 v.next_entity_id ≡ n)
            × (slot out.1 p j ≡ some v.next_entity_id)
            × ((d : ℕ) → d ≢ held v o i → d ≢ v.next_entity_id → amount_of out.1 d ≡ amount_of v d)
      conserved t =
          let not_new : t.source_item ≢ v.next_entity_id =
            λ same. ground (arith, t.stack_there, h.fresh t.source_item (omega (arith, same))) in
          let there = amount_of-some v t.source_item t.stack t.stack_there in
          let old : amount_of out.1 t.source_item ≡ t.stack.count - n =
            ground (arith, amount_of-split t t.source_item, not_new) in
          let new : amount_of out.1 v.next_entity_id ≡ n =
            ground (arith, amount_of-split t v.next_entity_id) in
          rw t.source_there (
            omega (arith, there, old, new, t.some_left),
            new,
            slot-split t,
            λ d a b. ground (arith, amount_of-split t d),
          )
