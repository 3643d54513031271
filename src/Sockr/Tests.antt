-- ===== src/Sockr/Tests.antt =====
-- A message that the broker of src/emi_sockr.c reads over a slow connection.
use emilib.Prelude.{
  ℕ, ◌+◌, ◌<◌, ◌≡◌, refl, some, true, arith, List, [], ◌∷◌, ◌++◌, ◌==◌, if◌then◌else◌,
}
use emilib.Hlist.Chain.{has}
use emilib.Retdata.{sizeof_retdata, get_next_retdata}
use emilib.Sock.Ret.{RetRead, emi_msg_read_ret}
use emilib.Sock.Reply.{Answers}
use emilib.Sockr.Ret.{Answered, all_bytes, write_blocks, emi_msg_write_retdata, emi_msg_write_ret}
use emilib.Sockr.Exchange.{block_at, IsAnswer, emi_msg_read_ret-emi_msg_write_ret}
use emilib.Message.{EmiMsg, payload, load_bytes, get_addr}
use emilib.Sock.Slow.{Line, coming, went, slow, slow-IsStream}
use emilib.Sock.{emi_write}
use emilib.Sock.Message.{emi_msg_write_payload, emi_msg_write_data, emi_msg_write}
use emilib.Shared.Sample.{shm, shm-IsHeap, shm-IsMapped, shm-Owned, first_half, message, bound}
use emilib.Sockr.{MsgRead, emi_msg_read}
use emilib.Sockr.Read.{IsFresh, IsSound, Delivered}
use emilib.Sockr.RoundTrip.{emi_msg_read-emi_msg_write}

abbrev three : EmiMsg
three = record {
  flag = 256;
  msg = 1;
  cmd = 2;
  size = 3;
  retsize = 0;
  data_offset = 80;
  retdata_offset = 0;
  count = 0;
}

three-IsSound : IsSound 112 three
three-IsSound = record {
  members = record {
    flag = omega arith;
    msg = omega arith;
    cmd = omega arith;
    size = omega arith;
    retsize = omega arith;
  };
  no_data = refl;
  small = omega arith;
  small_block = omega arith;
}

message-IsFresh : IsFresh 112 shm first_half.1 9 first_half.0 message
message-IsFresh = record {
  heap = shm-IsHeap;
  mapped = shm-IsMapped;
  owned = shm-Owned;
  offset = refl;
  top = omega (arith, bound);
}

abbrev sent : List ℕ
sent = payload three ++ load_bytes 3 (get_addr 100 80) (λ c. c)

three_written : emi_msg_write 30 slow ([], []) (λ c. c) 100 three ≡ some (true, ([], sent))
unfolding emi_msg_write emi_msg_write_payload emi_msg_write_data emi_write
three_written = refl

emi_msg_read-emi_msg_write_example :
    (g : MsgRead Line) × (emi_msg_read 112 30 slow (sent, []) shm (λ c. 0) first_half.1 message
      ≡ some g)
    × Delivered Line first_half.1 three (load_bytes 3 (get_addr 100 80) (λ c. c)) g
emi_msg_read-emi_msg_write_example =
    emi_msg_read-emi_msg_write Line Line slow slow coming went coming went slow-IsStream
      slow-IsStream 112 30 100 first_half.1 9 first_half.0 (λ c. c) (λ c. 0) shm three message
      ([], []) ([], sent) (sent, []) message-IsFresh three-IsSound (omega arith) (omega arith)
      three_written refl

-- an answer with two blocks, of two bytes and of one
abbrev answer : Answered
answer = record {
  a = 100;
  m = record three { retsize = 35; retdata_offset = 1000 };
  blocks = record {
    next_offset = λ d. if d == 1000 then 2000 else 0;
    size = λ d. if d == 1000 then 2 else 1;
  };
  pad = λ d. 0;
  mem = λ c. c;
}

abbrev answer_bytes : List ℕ
answer_bytes = payload answer.m ++ all_bytes answer (1000 ∷ 2000 ∷ [])

answer_written : emi_msg_write_ret 3 60 slow ([], []) answer ≡ some (true, ([], answer_bytes))
unfolding emi_msg_write_ret emi_msg_write_payload emi_msg_write_retdata write_blocks
    get_next_retdata emi_write
answer_written = refl

answer_fits : (d : ℕ) → has d (1000 ∷ 2000 ∷ []) ≡ true → answer.blocks.size d + sizeof_retdata < 60
answer_fits d m = ground arith

answer-IsAnswer : IsAnswer answer 1000 2000 100 5000 60
answer-IsAnswer = record {
  linked = (refl, omega arith, (refl, omega arith, refl));
  members = record {
    flag = omega arith;
    msg = omega arith;
    cmd = omega arith;
    size = omega arith;
    retsize = omega arith;
  };
  total = refl;
  room = record {
    message = omega arith;
    apart = λ e. absurd (omega arith);
    room = omega arith;
    clear = omega arith;
  };
  fits = omega arith;
  payload_fits = omega arith;
}

emi_msg_read_ret-emi_msg_write_ret_example :
    (g : RetRead Line) × (emi_msg_read_ret 2 60 slow
        (answer_bytes, [])
        (λ c. 0)
        100
        (some 5000)
        three
      ≡ some g)
    × (g.ok ≡ true
        → Answers Line 100 5000 answer.m three (block_at answer 1000) (block_at answer 2000) g)
emi_msg_read_ret-emi_msg_write_ret_example =
    emi_msg_read_ret-emi_msg_write_ret Line Line slow slow coming went coming went slow-IsStream
      slow-IsStream 3 60 100 5000 (λ c. 0) answer three 1000 2000 ([], []) ([], answer_bytes)
      (answer_bytes, []) answer-IsAnswer (omega arith) refl answer_written refl
