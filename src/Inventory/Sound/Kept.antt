-- ===== src/Inventory/Sound/Kept.antt =====
-- Every operation keeps the inventories sound.
use sky_saga_rs.Common.{
  ℕ, zero, suc, ◌+◌, ◌-◌, ◌^◌, ◌<◌, true, false, not, ◌&&◌, ◌||◌, length, ◌≡◌, ◌≢◌, refl, sym, ◌∙◌,
  inl, inr, some, ltb, ◌==◌, Bool-cases, Option-cases, arith, ap,
}
use sky_saga_rs.Common.Options.{◌>>=◌, unwrap_or}
use sky_saga_rs.Inventory.{
  Inventories, slot, held, slot_list, is_open, set_count, give, is_hand_slot,
  first_free_rucksack_slot,
}
use sky_saga_rs.Inventory.Slots.{slot-set_count, next_entity_id-set_count}
use sky_saga_rs.Inventory.Rucksack.{first_free_rucksack_slot-least}
use sky_saga_rs.Inventory.Moves.{
  Outcome, refused, or_else, is_there, addressable, exchange, settle, try_split, try_merge,
  transfer_to_slot, merge_first, take_slot, take_slots, transfer_all, swap, destroy, equip, unequip,
  detach,
}
use sky_saga_rs.Inventory.Moves.Cases.{
  bind-some, guard-some, the_same, try_split-Splits, try_merge-Merges,
}
use sky_saga_rs.Inventory.Sound.{
  IsSound, set_count-IsSound, clear-IsSound, drop-IsSound, place-IsSound, exchange-IsSound,
}

-- A slot that holds something is there.
held-slot : (v : Inventories) (o i : ℕ) → (held v o i == 0) ≡ false → slot v o i ≡ some (held v o i)
held-slot v o i h = elim (Option-cases (slot v o i)) [
  | inl n ↦ absurd (ground (arith, n))
  | inr (x, s) ↦ rw s refl
]

is_there-slot :
    (v : Inventories) (o i : ℕ) → is_there (slot v o i) ≡ true → slot v o i ≡ some (held v o i)
is_there-slot v o i h = elim (Option-cases (slot v o i)) [
  | inl n ↦ absurd (ground (arith, n))
  | inr (x, s) ↦ rw s refl
]

addressable-slots :
    (v : Inventories) (o i p j : ℕ)
    → addressable v o i p j ≡ true
    → (slot v o i ≡ some (held v o i)) × (slot v p j ≡ some (held v p j))
unfolding addressable
addressable-slots v o i p j h =
    (is_there-slot v o i (ground arith), is_there-slot v p j (ground arith))

settle-IsSound :
    (v : Inventories) (o i x y left : ℕ)
    → slot v o i ≡ some x
    → x ≢ 0
    → IsSound v
    → IsSound (settle v o i x y left).1
unfolding settle
settle-IsSound v o i x y left s nz h = elim (Bool-cases (ltb 0 left)) [
  | inl some_left ↦ rw some_left (set_count-IsSound v x left h)
  | inr none_left ↦ rw none_left (drop-IsSound v o i x s nz h)
]

module _ (v : Inventories) (o i p j : ℕ) (h : IsSound v) where
  try_merge-IsSound : (n : ℕ) (out : Outcome) → try_merge v o i p j n ≡ some out → IsSound out.1
  try_merge-IsSound n out e =
      let m = try_merge-Merges v o i p j n out e in
      rw m.outcome (
        settle-IsSound (set_count v m.target_item (m.target.count + m.moved)) o i m.source_item
          m.target_item (m.source.count - m.moved)
          (slot-set_count v m.target_item (m.target.count + m.moved) o i ∙ m.source_there)
          m.no_zeros.0 (set_count-IsSound v m.target_item (m.target.count + m.moved) h))

  try_split-IsSound :
      (n : ℕ) (out : Outcome)
      → 0 < v.next_entity_id
      → v.next_entity_id + 1 < 2 ^ 32
      → try_split v o i p j n ≡ some out
      → IsSound out.1
  try_split-IsSound n out pos room e =
      let t = try_split-Splits v o i p j n out e in
      let less = set_count v t.source_item (t.stack.count - n) in
      let next = next_entity_id-set_count v t.source_item (t.stack.count - n) in
      rw t.outcome (
        place-IsSound less p j t.stack.name n
          (slot-set_count v t.source_item (t.stack.count - n) p j ∙ t.empty_target) (rw next pos)
          (rw next room) (set_count-IsSound v t.source_item (t.stack.count - n) h))

  merge_or_exchange-IsSound :
      (n : ℕ)
      → addressable v o i p j ≡ true
      → IsSound (or_else (try_merge v o i p j n) (exchange v o i p j)).1
  merge_or_exchange-IsSound n there = elim (Option-cases (try_merge v o i p j n)) [
    | inl e ↦
        let (s, t) = addressable-slots v o i p j there in
        rw e (exchange-IsSound v o i (held v o i) p j (held v p j) s t h)
    | inr (out, e) ↦ rw e (try_merge-IsSound n out e)
  ]

  -- A transfer of some or all of a stack, whether it is refused, splits, merges or exchanges, keeps
  -- sound inventories sound, where the ids have not run out.
  pub transfer_to_slot-IsSound :
      (n : ℕ)
      → 0 < v.next_entity_id
      → v.next_entity_id + 1 < 2 ^ 32
      → IsSound (transfer_to_slot v o i p j n).1
  unfolding transfer_to_slot
  transfer_to_slot-IsSound n pos room = elim (Bool-cases (addressable v o i p j)) [
    | inr outside ↦ rw outside h
    | inl there ↦ rw there (elim (Bool-cases (held v o i == 0)) [
      | inl empty ↦ rw empty h
      | inr full ↦ rw full (elim (Option-cases (try_split v o i p j n)) [
        | inl e ↦ rw e (merge_or_exchange-IsSound n there)
        | inr (out, e) ↦ rw e (try_split-IsSound n out pos room e)
      ])
    ])
  ]

  -- A swap, whether it is refused, merges or exchanges, keeps sound inventories sound.
  pub swap-IsSound : IsSound (swap v o i p j).1
  unfolding swap
  swap-IsSound = elim (Bool-cases (addressable v o i p j)) [
    | inr outside ↦ rw outside h
    | inl there ↦ rw there (elim (Bool-cases (o == p && i == j)) [
      | inl same ↦ rw same h
      | inr apart ↦ rw apart (elim (Bool-cases (held v o i == 0)) [
        | inl empty ↦ rw empty h
        | inr full ↦ rw full (merge_or_exchange-IsSound 0 there)
      ])
    ])
  ]

module _ (v : Inventories) (o i : ℕ) (h : IsSound v) where
  -- Destroying a stack or a part of it keeps sound inventories sound.
  pub destroy-IsSound : (n : ℕ) → IsSound (destroy v o i n).1
  unfolding destroy
  destroy-IsSound n = elim (Bool-cases (held v o i == 0)) [
    | inl empty ↦ rw empty h
    | inr full ↦
        let stack = unwrap_or 0 (v.items (held v o i) >>= λ x. some x.count) in
        rw full (elim (Bool-cases (ltb 0 n && ltb n stack)) [
          | inl part ↦ rw part (set_count-IsSound v (held v o i) (stack - n) h)
          | inr all ↦
              rw all (drop-IsSound v o i (held v o i) (held-slot v o i full) (ground arith) h)
        ])
  ]

  -- An equip request to any slot, hands included, keeps sound inventories sound.
  pub equip-IsSound : (k : ℕ) → IsSound (equip v o i k).1
  unfolding equip
  equip-IsSound k = elim (Bool-cases (addressable v o i o k)) [
    | inr outside ↦ rw outside h
    | inl there ↦ rw there (elim (Bool-cases (is_hand_slot k)) [
      | inl hand ↦ rw hand h
      | inr worn ↦ rw worn (elim (Bool-cases (held v o i == 0)) [
        | inl empty ↦ rw empty h
        | inr full ↦ rw full (
            let (s, t) = addressable-slots v o i o k there in
            exchange-IsSound v o i (held v o i) o k (held v o k) s t h)
      ])
    ])
  ]

  -- An unequip request, also with a full rucksack, keeps sound inventories sound.
  pub unequip-IsSound : IsSound (unequip v o i).1
  unfolding unequip
  unequip-IsSound = elim (Bool-cases (is_hand_slot i)) [
    | inl hand ↦ rw hand h
    | inr worn ↦ rw worn (elim (Bool-cases (held v o i == 0)) [
      | inl empty ↦ rw empty h
      | inr full ↦ rw full (elim (Option-cases (first_free_rucksack_slot v o)) [
        | inl none_free ↦ rw none_free h
        | inr (k, free) ↦ rw free (
            exchange-IsSound v o i (held v o i) o k 0 (held-slot v o i full)
              (first_free_rucksack_slot-least v o k free).1 h)
      ])
    ])
  ]

  -- Taking a stack out of its slot, to lie loose in the world, keeps sound inventories sound.
  pub detach-IsSound : (e : ℕ) (out : Outcome) → detach v o i ≡ some (e, out) → IsSound out.1
  unfolding detach
  detach-IsSound e out d =
      let (x, there, d₁) = bind-some (slot v o i) _ d in
      let (full, d₂) = guard-some (not (x == 0)) _ d₁ in
      rw (ap (λ q. q.1.1) (the_same d₂)) (clear-IsSound v o i x there h)

  -- A stack given to an empty slot keeps sound inventories sound, where the ids have not run out.
  pub give-IsSound :
      (name n e : ℕ) (w : Inventories)
      → 0 < v.next_entity_id
      → v.next_entity_id + 1 < 2 ^ 32
      → give v o i name n ≡ some (e, w)
      → IsSound w
  unfolding give
  give-IsSound name n e w pos room d =
      let (x, there, d₁) = bind-some (slot v o i) _ d in
      let (empty, d₂) = guard-some (x == 0) _ d₁ in
      let zero_here : x ≡ 0 = ground arith in
      rw (ap (λ p. p.1) (the_same d₂))
        (place-IsSound v o i (some name) n (rw (sym zero_here) there) pos room h)

-- Taking everything out of an inventory.
module _ (o p : ℕ) where
  merge_first-IsSound :
      (c j i : ℕ) (v : Inventories) (out : Outcome)
      → IsSound v
      → merge_first c v o i p j ≡ some out
      → IsSound out.1
  unfolding merge_first
  merge_first-IsSound zero j i v out h e = cc
  merge_first-IsSound (suc c) j i v out h e = elim (Bool-cases (held v p j == 0)) [
    | inl empty ↦ merge_first-IsSound c (j + 1) i v out h (rw empty at e)
    | inr full ↦ elim (Option-cases (try_merge v o i p j 0)) [
      | inl none_merged ↦ merge_first-IsSound c (j + 1) i v out h (rw (full, none_merged) at e)
      | inr (done, merged) ↦
          rw (the_same (rw (full, merged) at e)) (try_merge-IsSound v o i p j h 0 done merged)
    ]
  ]

  merged-IsSound :
      (c j i : ℕ) (v : Inventories)
      → IsSound v
      → IsSound (or_else (merge_first c v o i p j) (refused v)).1
  merged-IsSound c j i v h = elim (Option-cases (merge_first c v o i p j)) [
    | inl e ↦ rw e h
    | inr (out, e) ↦ rw e (merge_first-IsSound c j i v out h e)
  ]

  take_slot-IsSound : (i : ℕ) (v : Inventories) → IsSound v → IsSound (take_slot v o i p).0.1
  unfolding take_slot
  take_slot-IsSound i v h =
      let after = or_else (merge_first (length (slot_list v p)) v o i p 0) (refused v) in
      let sound = merged-IsSound (length (slot_list v p)) 0 i v h in
      elim (Bool-cases (held v o i == 0)) [
        | inl empty ↦ rw empty h
        | inr full ↦ rw full (elim (Bool-cases (held after.1 o i == 0)) [
          | inl gone ↦ rw gone sound
          | inr left ↦ rw left (elim (Option-cases (first_free_rucksack_slot after.1 p)) [
            | inl none_free ↦ rw none_free sound
            | inr (k, free) ↦ rw free (
                exchange-IsSound after.1 o i (held after.1 o i) p k 0 (held-slot after.1 o i left)
                  (first_free_rucksack_slot-least after.1 p k free).1 sound)
          ])
        ])
      ]

  take_slots-IsSound : (c i : ℕ) (v : Inventories) → IsSound v → IsSound (take_slots c v o i p).1
  unfolding take_slots
  take_slots-IsSound zero i v h = h
  take_slots-IsSound (suc c) i v h =
      let sound = take_slot-IsSound i v h in
      elim (Bool-cases (take_slot v o i p).1) [
        | inl goes_on ↦ rw goes_on (take_slots-IsSound c (i + 1) (take_slot v o i p).0.1 sound)
        | inr stops ↦ rw stops sound
      ]

  -- Taking everything out of one inventory into another keeps sound inventories sound, however far it
  -- gets.
  pub transfer_all-IsSound : (v : Inventories) → IsSound v → IsSound (transfer_all v o p).1
  unfolding transfer_all
  transfer_all-IsSound v h = elim (Bool-cases (not (is_open v o) || not (is_open v p))) [
    | inl closed ↦ rw closed h
    | inr both_open ↦ rw both_open (take_slots-IsSound (length (slot_list v o)) 0 v h)
  ]
