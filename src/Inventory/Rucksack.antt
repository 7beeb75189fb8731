-- ===== src/Inventory/Rucksack.antt =====
-- `first_free_rucksack_slot`: the first empty square behind the hotbar.
use sky_saga_rs.Common.{
  ℕ, zero, suc, ◌+◌, ◌<◌, ◌≤◌, ◌≡◌, ◌≢◌, refl, inl, inr, List, [], ◌∷◌, none, some, get_elem?,
  Option-cases, arith,
}
use sky_saga_rs.Inventory.{
  Inventories, slot, find_empty, find_empty_from, first_rucksack_slot, first_free_rucksack_slot,
}

-- Entry `d` of a list is its first 0 from entry `n` on.
record IsFirstEmpty (n : ℕ) (l : List ℕ) (d : ℕ) : Type 0 where
  not_before : n ≤ d
  empty : get_elem? l d ≡ some 0
  least : (m : ℕ) → n ≤ m → m < d → get_elem? l m ≢ some 0

IsFirstEmpty-zero : (l : List ℕ) → IsFirstEmpty 0 (0 ∷ l) 0
IsFirstEmpty-zero l = record {
  not_before = omega arith;
  empty = refl;
  least = λ m le lt. ground arith;
}

IsFirstEmpty-suc :
    (n e d : ℕ) (l : List ℕ) → IsFirstEmpty n l d → IsFirstEmpty (suc n) (e ∷ l) (suc d)
IsFirstEmpty-suc n e d l h = record {
  not_before = omega (arith, h.not_before);
  empty = h.empty;
  least = λ m le lt. least m le lt;
}
  where
    least : (m : ℕ) → suc n ≤ m → m < suc d → get_elem? (e ∷ l) m ≢ some 0
    least zero le lt = absurd (omega arith)
    least (suc m) le lt = h.least m (omega arith) (omega arith)

IsFirstEmpty-skip :
    (e d : ℕ) (l : List ℕ) → e ≢ 0 → IsFirstEmpty 0 l d → IsFirstEmpty 0 (e ∷ l) (suc d)
IsFirstEmpty-skip e d l nz h = record {
  not_before = omega arith;
  empty = h.empty;
  least = λ m le lt. least m lt;
}
  where
    least : (m : ℕ) → m < suc d → get_elem? (e ∷ l) m ≢ some 0
    least zero lt = ground arith
    least (suc m) lt = h.least m (omega arith) (omega arith)

find_empty-least :
    (i k : ℕ) (l : List ℕ) → find_empty i l ≡ some k → (d : ℕ) × (k ≡ i + d) × IsFirstEmpty 0 l d
unfolding find_empty
find_empty-least i k [] h = cc
find_empty-least i k (zero ∷ l) h = (0, ground arith, IsFirstEmpty-zero l)
find_empty-least i k (suc e ∷ l) h =
    let (d, at, first) = find_empty-least (i + 1) k l (ground arith) in
    (suc d, omega (arith, at), IsFirstEmpty-skip (suc e) d l (omega arith) first)

find_empty_from-least :
    (n i k : ℕ) (l : List ℕ)
    → find_empty_from n i l ≡ some k
    → (d : ℕ) × (k ≡ i + d) × IsFirstEmpty n l d
unfolding find_empty_from
find_empty_from-least zero i k l h = find_empty-least i k l h
find_empty_from-least (suc n) i k [] h = cc
find_empty_from-least (suc n) i k (e ∷ l) h =
    let (d, at, first) = find_empty_from-least n (i + 1) k l h in
    (suc d, omega (arith, at), IsFirstEmpty-suc n e d l first)

find_empty-none : (i m : ℕ) (l : List ℕ) → find_empty i l ≡ none → get_elem? l m ≢ some 0
unfolding find_empty
find_empty-none i m [] h e = cc
find_empty-none i m (zero ∷ l) h e = cc
find_empty-none i zero (suc x ∷ l) h e = ground arith
find_empty-none i (suc m) (suc x ∷ l) h e = find_empty-none (i + 1) m l (ground arith) e

find_empty_from-none :
    (n i m : ℕ) (l : List ℕ) → find_empty_from n i l ≡ none → n ≤ m → get_elem? l m ≢ some 0
unfolding find_empty_from
find_empty_from-none zero i m l h le e = find_empty-none i m l h e
find_empty_from-none (suc n) i m [] h le e = cc
find_empty_from-none (suc n) i zero (x ∷ l) h le e = omega arith
find_empty_from-none (suc n) i (suc m) (x ∷ l) h le e =
    find_empty_from-none n (i + 1) m l h (omega arith) e

-- The slot found is an empty slot of the rucksack, and no slot of the rucksack before it is empty.
pub first_free_rucksack_slot-least :
    (v : Inventories) (owner k : ℕ)
    → first_free_rucksack_slot v owner ≡ some k
    → (first_rucksack_slot ≤ k)
      × (slot v owner k ≡ some 0)
      × ((m : ℕ) → first_rucksack_slot ≤ m → m < k → slot v owner m ≢ some 0)
unfolding first_free_rucksack_slot slot
first_free_rucksack_slot-least v owner k h = elim (Option-cases (v.slots owner)) [
  | inl n ↦ absurd (ground (arith, n, h))
  | inr (l, s) ↦
      let (d, at, first) = find_empty_from-least 9 0 k l (rw s at h) in
      let here : k ≡ d = omega (arith, at) in
      rw s (
        omega (arith, here, first.not_before),
        rw here first.empty,
        λ m le lt. first.least m le (omega (arith, lt, here)),
      )
]

-- Where no slot is found, no slot of the rucksack is empty.
pub first_free_rucksack_slot-none :
    (v : Inventories) (owner m : ℕ)
    → first_free_rucksack_slot v owner ≡ none
    → first_rucksack_slot ≤ m
    → slot v owner m ≢ some 0
unfolding first_free_rucksack_slot slot
first_free_rucksack_slot-none v owner m h le = elim (Option-cases (v.slots owner)) [
  | inl n ↦ λ e. ground (arith, n, e)
  | inr (l, s) ↦ rw s (find_empty_from-none 9 0 m l (rw s at h) le)
]
