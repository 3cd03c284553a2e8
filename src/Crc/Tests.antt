-- ===== src/Crc/Tests.antt =====
-- The checksum at concrete inputs.
use asyncmsg.Base.{ℕ, ◌≡◌, ◌≢◌, refl, arith, List, [], ◌∷◌}
use asyncmsg.Crc.{crc_step, crc_loop, calc_crc8}
use asyncmsg.Crc.Table.{crc_bitwise, calc_crc8-crc_bitwise}
use asyncmsg.Crc.Detect.{calc_crc8_detects}

abbrev bytes : List ℕ
bytes = 0x55 ∷ 1 ∷ 2 ∷ 3 ∷ []

calc_crc8_of_nothing : calc_crc8 bytes 0 ≡ 0x77
unfolding calc_crc8 crc_loop
calc_crc8_of_nothing = refl

calc_crc8_of_flag : calc_crc8 bytes 1 ≡ 0x9f
unfolding calc_crc8 crc_loop crc_step
calc_crc8_of_flag = refl

calc_crc8-crc_bitwise_example : calc_crc8 bytes 3 ≡ crc_bitwise 0x77 (0x55 ∷ 1 ∷ 2 ∷ [])
calc_crc8-crc_bitwise_example = calc_crc8-crc_bitwise bytes 3 (omega arith)

calc_crc8_detects_example :
    calc_crc8 (0x55 ∷ 1 ∷ 2 ∷ 3 ∷ []) 4 ≢ calc_crc8 (0x55 ∷ 1 ∷ 7 ∷ 3 ∷ []) 4
calc_crc8_detects_example =
    calc_crc8_detects (0x55 ∷ 1 ∷ []) 2 7 (3 ∷ []) 4 refl (omega arith) (omega arith) (omega arith)
      (omega arith) (omega arith)
