-- ===== src/ByteReader/Tests.antt =====
-- Runs of the cursor.
use sky_saga_rs.Common.{◌≤◌, ◌≡◌, [], ◌∷◌, arith}
use sky_saga_rs.BitStream.Byte.{to_le_bytes}
use sky_saga_rs.ByteReader.{ByteReader, ReaderError, done, failed, over, bytes, u32_le}
use sky_saga_rs.ByteReader.Words.{between, u32_le-to_le_bytes, bytes-within}

u32_le-to_le_bytes_example : u32_le (between (1 ∷ 2 ∷ []) (to_le_bytes 0xdeadbeef) (3 ∷ [])) ≡ (
  done 0xdeadbeef,
  record (between (1 ∷ 2 ∷ []) (to_le_bytes 0xdeadbeef) (3 ∷ [])) { offset = 6 },
)
u32_le-to_le_bytes_example = u32_le-to_le_bytes 0xdeadbeef (1 ∷ 2 ∷ []) (3 ∷ []) (omega arith)

-- Three bytes where four are asked for.
abbrev cut_short : ByteReader
cut_short = over (1 ∷ 2 ∷ 3 ∷ [])

bytes-within_example :
    ((bytes 4 cut_short).1.offset ≤ 3)
    × ((bytes 4 cut_short).1.packet ≡ cut_short.packet)
    × ((e : ReaderError) → (bytes 4 cut_short).0 ≡ failed e → (bytes 4 cut_short).1.offset ≡ 0)
bytes-within_example = bytes-within 4 cut_short (omega arith)
