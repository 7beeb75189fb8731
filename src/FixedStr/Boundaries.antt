-- ===== src/FixedStr/Boundaries.antt =====
-- Where the characters of a string end in its UTF-8 (crates/skysaga-core/src/fixed_str.rs).
use sky_saga_rs.Common.{
  ℕ, zero, suc, ◌+◌, ◌-◌, ◌<◌, min, ◌≡◌, refl, sym, ap, ◌∙◌, inl, inr, true, false, ◌||◌, List, [],
  ◌∷◌, ◌++◌, length, length-append, get_or, take, ltb, leb, Bool-cases, if◌then◌else◌, arith,
}
use sky_saga_rs.Common.Text.{Text, as_bytes, bytes_of}
use sky_saga_rs.FixedStr.{is_char_boundary, back_to_boundary}

get_or-behind : (xs ys : List ℕ) (i : ℕ) → get_or (xs ++ ys) (length xs + i) 0 ≡ get_or ys i 0
get_or-behind [] ys i = let same : 0 + i ≡ i = omega arith in rw same refl
get_or-behind (x ∷ xs) ys i =
    let same : suc (length xs) + i ≡ suc (length xs + i) = omega arith in
    rw same (get_or-behind xs ys i)

-- No byte of a character but the first is a boundary.
inside-bytes_of :
    (c : ℕ) (rest : List ℕ) (k : ℕ)
    → suc k < length (bytes_of c)
    → is_char_boundary (bytes_of c ++ rest) (suc k) ≡ false
unfolding is_char_boundary
inside-bytes_of c rest zero h = ground arith
inside-bytes_of c rest (suc zero) h = ground arith
inside-bytes_of c rest (suc (suc zero)) h = ground arith
inside-bytes_of c rest (suc (suc (suc k))) h = absurd (ground arith)

-- Behind a character, the boundaries are those of what follows.
behind-bytes_of :
    (bs rest : List ℕ) (i : ℕ)
    → is_char_boundary (bs ++ rest) (length bs + suc i) ≡ is_char_boundary rest (suc i)
unfolding is_char_boundary
behind-bytes_of bs rest i =
    let place : length bs + suc i ≡ suc (length bs + i) = omega arith in
    let byte : get_or (bs ++ rest) (suc (length bs + i)) 0 ≡ get_or rest (suc i) 0 =
      ap (λ k. get_or (bs ++ rest) k 0) (sym place) ∙ get_or-behind bs rest (suc i) in
    let all = length-append bs rest in rw (place, byte, all) (ground arith)

bytes_of-length : (c : ℕ) → 0 < length (bytes_of c)
bytes_of-length c = ground arith

-- A character begins at a boundary.
begins :
    (c : ℕ) (rest : List ℕ)
    → (ltb (get_or (bytes_of c ++ rest) 0 0) 0x80 || leb 0xC0 (get_or (bytes_of c ++ rest) 0 0))
      ≡ true
begins c rest = ground arith

end-bytes_of :
    (bs : List ℕ) (t : Text)
    → 0 < length bs
    → is_char_boundary (bs ++ as_bytes t) (length bs) ≡ true
unfolding is_char_boundary as_bytes
end-bytes_of [] t h = absurd (omega arith)
end-bytes_of (b ∷ bs) [] h = let all = length-append bs [] in ground (arith, all)
end-bytes_of (b ∷ bs) (c ∷ cs) h =
    let whole = as_bytes (c ∷ cs) in
    let all = length-append bs whole in
    let here : length bs + 0 ≡ length bs = omega arith in
    let byte : get_or (bs ++ whole) (length bs) 0 ≡ get_or whole 0 0 =
      ap (λ k. get_or (bs ++ whole) k 0) (sym here) ∙ get_or-behind bs whole 0 in
    let more = length-append (bytes_of c) (as_bytes cs) in
    let some_bytes = bytes_of-length c in
    let inner : leb (suc (length (bs ++ whole))) (suc (length bs)) ≡ false = ground arith in
    rw (inner, byte) (begins c (as_bytes cs))

-- The way back from a place behind a character.
back-behind :
    (bs : List ℕ) (t : Text) (e : ℕ)
    → 0 < length bs
    → back_to_boundary (bs ++ as_bytes t) (length bs + e)
      ≡ length bs + back_to_boundary (as_bytes t) e
unfolding back_to_boundary
back-behind [] t e h = absurd (omega arith)
back-behind (b ∷ bs) t zero h =
    let here : length (b ∷ bs) + 0 ≡ suc (length bs) = omega arith in
    rw (here, end-bytes_of (b ∷ bs) t h) refl
back-behind (b ∷ bs) t (suc e) h =
    let place : length (b ∷ bs) + suc e ≡ suc (length (b ∷ bs) + e) = omega arith in
    let test : is_char_boundary ((b ∷ bs) ++ as_bytes t) (suc (length (b ∷ bs) + e))
        ≡ is_char_boundary (as_bytes t) (suc e) =
      ap (is_char_boundary ((b ∷ bs) ++ as_bytes t)) (sym place)
      ∙ behind-bytes_of (b ∷ bs) (as_bytes t) e in
    let earlier = back-behind (b ∷ bs) t e h in
    elim (Bool-cases (is_char_boundary (as_bytes t) (suc e))) [
      | inl stop ↦ rw (place, test, stop) (sym place)
      | inr on ↦ rw (place, test, on) earlier
    ]

-- The way back from a place within the first character.
back-inside :
    (c : ℕ) (rest : List ℕ) (k : ℕ)
    → k < length (bytes_of c)
    → back_to_boundary (bytes_of c ++ rest) k ≡ 0
unfolding back_to_boundary
back-inside c rest zero h = refl
back-inside c rest (suc k) h = rw (inside-bytes_of c rest k h) (back-inside c rest k (omega arith))

-- The characters of a string from its start on, as many as fit into so many bytes.
unfoldable pub kept : ℕ → Text → Text
kept capacity [] = []
kept capacity (c ∷ cs) =
    let size = length (bytes_of c) in
    let rest = kept (capacity - size) cs in if leb size capacity then c ∷ rest else []

pub back-kept :
    (capacity : ℕ) (t : Text)
    → back_to_boundary (as_bytes t) (min (length (as_bytes t)) capacity)
      ≡ length (as_bytes (kept capacity t))
unfolding as_bytes kept back_to_boundary
back-kept capacity [] = let nothing : min 0 capacity ≡ 0 = omega arith in rw nothing refl
back-kept capacity (c ∷ cs) =
    let all = length-append (bytes_of c) (as_bytes cs) in
    let size = length (bytes_of c) in
    let left = capacity - size in
    elim (Bool-cases (leb size capacity)) [
      | inl fits ↦
          let place : min (length (bytes_of c ++ as_bytes cs)) capacity
              ≡ size + min (length (as_bytes cs)) left =
            ground arith in
          let whole = length-append (bytes_of c) (as_bytes (kept left cs)) in
          rw (place, fits)
            (back-behind (bytes_of c) cs (min (length (as_bytes cs)) left) (bytes_of-length c)
              ∙ (ap (λ k. size + k) (back-kept left cs) ∙ sym whole))
      | inr over ↦
          let place : min (length (bytes_of c ++ as_bytes cs)) capacity ≡ capacity = ground arith in
          rw (place, over) (back-inside c (as_bytes cs) capacity (ground arith))
    ]

take-behind : (bs rest : List ℕ) (k : ℕ) → take (length bs + k) (bs ++ rest) ≡ bs ++ take k rest
take-behind [] rest k = let same : 0 + k ≡ k = omega arith in rw same refl
take-behind (b ∷ bs) rest k =
    let same : suc (length bs) + k ≡ suc (length bs + k) = omega arith in
    rw same (ap (λ more. b ∷ more) (take-behind bs rest k))

-- The bytes of what fits are the first of the string's bytes.
pub take-kept :
    (capacity : ℕ) (t : Text)
    → take (length (as_bytes (kept capacity t))) (as_bytes t) ≡ as_bytes (kept capacity t)
unfolding as_bytes kept
take-kept capacity [] = refl
take-kept capacity (c ∷ cs) =
    let size = length (bytes_of c) in
    let left = capacity - size in
    elim (Bool-cases (leb size capacity)) [
      | inl fits ↦
          let whole = length-append (bytes_of c) (as_bytes (kept left cs)) in
          rw (fits, whole)
            (take-behind (bytes_of c) (as_bytes cs) (length (as_bytes (kept left cs)))
              ∙ ap (λ more. bytes_of c ++ more) (take-kept left cs))
      | inr over ↦ rw over refl
    ]
