-- ===== src/Hash.antt =====
-- crates/skysaga-core/src/hash.rs: the hash that stands for a name on the wire.
use sky_saga_rs.Common.{
  ℕ, zero, suc, ◌+◌, ◌*◌, ◌/◌, ◌%◌, ◌^◌, bit_and, bit_xor, List, [], ◌∷◌, leb, ◌==◌, ◌&&◌,
  if◌then◌else◌, ◌≡◌, refl,
}

-- One round of the inner loop of `build_table`.
abbrev table_round : ℕ → ℕ
table_round entry =
    if bit_and entry 0x8000_0000 == 0
    then (entry * 2) % 2 ^ 32
    else bit_xor ((entry * 2) % 2 ^ 32) 0x04C1_1DB7

abbrev table_rounds : ℕ → ℕ → ℕ
table_rounds zero entry = entry
table_rounds (suc left) entry = table_rounds left (table_round entry)

-- `TABLE[i]`
abbrev table_at : ℕ → ℕ
table_at i = table_rounds 8 ((i * 2 ^ 24) % 2 ^ 32)

abbrev to_ascii_lowercase : ℕ → ℕ
to_ascii_lowercase byte = if leb 65 byte && leb byte 90 then byte + 32 else byte

unfoldable pub hash_from : ℕ → List ℕ → ℕ
hash_from crc [] = crc
hash_from crc (byte ∷ bytes) =
    let index = bit_and (bit_xor (crc / 2 ^ 24) (to_ascii_lowercase byte)) 0xFF in
    hash_from (bit_xor (table_at index) ((crc * 2 ^ 8) % 2 ^ 32)) bytes

unfoldable pub name_hash : List ℕ → ℕ
unfolding hash_from
name_hash name = hash_from 0 name

-- The example of its documentation: "Sky_Island".
name_hash-sky_island :
    name_hash (83 ∷ 107 ∷ 121 ∷ 95 ∷ 73 ∷ 115 ∷ 108 ∷ 97 ∷ 110 ∷ 100 ∷ []) ≡ 0xCBBF_A7BF
unfolding name_hash hash_from
name_hash-sky_island = refl
