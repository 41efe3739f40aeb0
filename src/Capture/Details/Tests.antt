-- ===== src/Capture/Details/Tests.antt =====
-- The hex view at concrete bytes.
use tlscope_rs.Base.{◌≡◌, refl, [], ◌∷◌}
use tlscope_rs.Text.{text}
use tlscope_rs.Capture.Details.{hex_preview, hex_from, hex_byte}

-- The first byte of the second line runs together with the second one.
second_line :
    hex_preview
      (0 ∷ 1 ∷ 2 ∷ 3 ∷ 4 ∷ 5 ∷ 6 ∷ 7 ∷ 8 ∷ 9 ∷ 10 ∷ 11 ∷ 12 ∷ 13 ∷ 14 ∷ 15 ∷ 16 ∷ 17 ∷ 18 ∷ [])
    ≡ text "00 01 02 03 04 05 06 07 08 09 0A 0B 0C 0D 0E 0F \n1011 12 "
unfolding hex_preview hex_from hex_byte text
second_line = refl
