-- ===== src/Salvage/Tests.antt =====
-- A dismantled pickaxe.
use sky_saga_rs.Common.{min, [], ◌∷◌, some, ◌≡◌}
use sky_saga_rs.Salvage.{draw}
use sky_saga_rs.Salvage.Totals.{total, sum, total-draw}

-- Six plates and three rods, of which five come back, a rod first.
total-draw_example : total (draw 12345 (6 ∷ 3 ∷ []) 5 (some 1)) ≡ min 5 (sum (6 ∷ 3 ∷ []))
total-draw_example = total-draw 12345 (6 ∷ 3 ∷ []) 5 (some 1)
