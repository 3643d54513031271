-- ===== src/Sock/Tests.antt =====
-- The transfer of src/emi_sock.c over a slow connection.
use emilib.Prelude.{◌≡◌, refl, arith, true, some, [], ◌∷◌}
use emilib.Sock.{Received, emi_read}
use emilib.Sock.Read.{Reads, emi_read-Reads}
use emilib.Message.{EmiMsg}
use emilib.Sock.Slow.{Line, coming, went, slow, slow-IsStream}

emi_read-Reads_example :
    (r : Received Line) × (emi_read 9 slow (7 ∷ 8 ∷ 9 ∷ [], []) 2 ≡ some r)
    × Reads Line coming (7 ∷ 8 ∷ 9 ∷ [], []) 2 r
emi_read-Reads_example =
    emi_read-Reads Line slow coming went slow-IsStream 9 (7 ∷ 8 ∷ 9 ∷ [], []) 2 (omega arith)

-- the connection ends before the third byte, and the read gives 0
short_read : emi_read 9 slow (7 ∷ 8 ∷ [], []) 3 ≡ some (true, 7 ∷ 8 ∷ [], ([], []))
unfolding emi_read
short_read = refl

abbrev three : EmiMsg
three = record {
  flag = 256;
  msg = 1;
  cmd = 2;
  size = 3;
  retsize = 0;
  data_offset = 80;
  retdata_offset = 0;
  count = 0;
}
