-- ===== src/Bits/Tests.antt =====
-- Runs of the widths.
use sky_saga_rs.Common.{◌^◌, ◌*◌, ◌<◌, ◌≤◌, arith}
use sky_saga_rs.Bits.{ranged_bits}
use sky_saga_rs.Bits.Widths.{ranged_bits-bounds}

ranged_bits-bounds_example :
    (63 < 2 ^ ranged_bits 63) × (ranged_bits 63 ≤ 32) × (0 < 63 → 2 ^ ranged_bits 63 ≤ 2 * 63)
ranged_bits-bounds_example = ranged_bits-bounds 63 (omega arith)
