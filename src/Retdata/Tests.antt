-- ===== src/Retdata/Tests.antt =====
-- The blocks of return data at small sizes.
use emilib.Prelude.{◌≡◌, refl, some, none, [], ◌∷◌, arith}
use emilib.Retdata.{Blocks, emi_msg_read_retdata, get_next_retdata, for_each_retdata}
use emilib.Retdata.Links.{third_block}

-- every block has 4 bytes of data
abbrev fours : Blocks
fours = record { next_offset = λ b. 7; size = λ b. 4 }

third_block_example :
    (u : Blocks) × (emi_msg_read_retdata 3 fours 200 60 ≡ some u)
    × (for_each_retdata 3 u 200 60 (get_next_retdata u 200 60 none) ≡ some (200 ∷ 220 ∷ []))
third_block_example = third_block fours 200 (omega arith) refl
