-- ===== src/Packets/Handshake/Chunks.antt =====
-- What the encoder of ChunkSync in handshake.rs writes, the decoder reads back. Its arrays start at a
-- byte, so that the bits on the wire depend on where they stand.
use sky_saga_rs.Common.{
  ℕ, ◌%◌, ◌^◌, ◌<◌, ◌≡◌, ap, subst, true, false, List, Option, none, some, length, arith,
}
use sky_saga_rs.BitStream.Writer.Contents.{IsBytes}
use sky_saga_rs.BitStream.RoundTrip.{
  RoundTrip, RoundTrip-seq, RoundTrip-map, RoundTrip-pure, RoundTrip-bit, RoundTrip-u32,
  RoundTrip-bits_le, RoundTrip-packet_id,
}
use sky_saga_rs.BitStream.RoundTrip.Aligned.{
  Anywhere, Anywhere-RoundTrip, Anywhere-seq, Anywhere-map, Anywhere-aligned_bytes,
}
use sky_saga_rs.Packets.Fields.{
  IsRanged, write_ranged, read_ranged, RoundTrip-ranged, RoundTrip-triple, AllThree,
}
use sky_saga_rs.Packets.Creation.{with_id}
use sky_saga_rs.Packets.Handshake.{
  map_max_chunks, write_chunk_data, read_chunk_data, write_adjacent, read_adjacent, ChunkSync,
  encode_chunk_sync, decode_chunk_sync,
}

-- Bytes, of a number that fits its field.
abbrev pub IsChunkData : Option (List ℕ) → Type 0
IsChunkData none = Unit
IsChunkData (some bytes) = IsBytes bytes × (length bytes < 2 ^ 32)

abbrev pub IsAdjacent : Option ℕ → Type 0
IsAdjacent none = Unit
IsAdjacent (some mask) = mask < 2 ^ 7

pub record IsChunkSync (p : ChunkSync) : Type 0 where
  pub coords_fit : AllThree (IsRanged map_max_chunks) p.coords
  pub data1_fits : IsChunkData p.data1
  pub data2_fits : IsChunkData p.data2
  pub adjacent_fits : IsAdjacent p.adjacent_chunks

Anywhere-chunk_data :
    (o : Option (List ℕ)) → IsChunkData o → Anywhere (write_chunk_data o) read_chunk_data o
unfolding write_chunk_data read_chunk_data
Anywhere-chunk_data none h =
    Anywhere-RoundTrip (RoundTrip-seq _ (RoundTrip-bit false) (RoundTrip-pure none))
Anywhere-chunk_data (some bytes) h = Anywhere-seq _ (Anywhere-RoundTrip (RoundTrip-bit true)) (
    Anywhere-seq _ (Anywhere-RoundTrip (RoundTrip-u32 (length bytes) h.1))
      (Anywhere-map some (Anywhere-aligned_bytes bytes h.0)))

RoundTrip-adjacent : (o : Option ℕ) → IsAdjacent o → RoundTrip (write_adjacent o) read_adjacent o
unfolding write_adjacent read_adjacent
RoundTrip-adjacent none h = RoundTrip-seq _ (RoundTrip-bit false) (RoundTrip-pure none)
RoundTrip-adjacent (some mask) h =
    let whole : mask % 256 ≡ mask = omega (arith, h) in
    RoundTrip-seq _ (RoundTrip-bit true) (
      subst (RoundTrip _ _) (ap some whole)
        (RoundTrip-map (λ m. some (m % 256)) (RoundTrip-bits_le mask 7 (omega arith) h)))

pub Anywhere-chunk_sync :
    (p : ChunkSync)
    → IsChunkSync p
    → Anywhere (encode_chunk_sync p) (with_id decode_chunk_sync) (8, p)
unfolding encode_chunk_sync decode_chunk_sync
Anywhere-chunk_sync p h =
    Anywhere-seq _ (Anywhere-RoundTrip (RoundTrip-packet_id 8 (omega arith))) (
      Anywhere-map (λ q. (8, q))
        (Anywhere-seq _
          (Anywhere-RoundTrip (
            RoundTrip-triple (IsRanged map_max_chunks) (write_ranged map_max_chunks)
              (read_ranged map_max_chunks) (RoundTrip-ranged map_max_chunks) p.coords h.coords_fit))
          (Anywhere-seq _ (Anywhere-chunk_data p.data1 h.data1_fits) (
            Anywhere-seq _ (Anywhere-chunk_data p.data2 h.data2_fits) (
              Anywhere-map _
                (Anywhere-RoundTrip (RoundTrip-adjacent p.adjacent_chunks h.adjacent_fits)))))))
