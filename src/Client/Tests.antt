-- ===== src/Client/Tests.antt =====
-- The client library at small sizes, over the slow connection.
use emilib.Prelude.{
  ℕ, ◌≡◌, refl, sym, ap, ◌∙◌, arith, Bool, true, some, List, [], ◌∷◌, ◌++◌, if◌then◌else◌, ◌==◌,
}
use emilib.Hlist.Chain.{has}
use emilib.Message.{EmiMsg, payload, has_flag, ret_succeeded}
use emilib.Message.Codec.{IsEmiMsg}
use emilib.Ring.{init_list_head}
use emilib.Ring.Laws.{init_list_head-IsRing}
use emilib.Handler.{Functions}
use emilib.Sock.{emi_write}
use emilib.Sock.Message.{emi_msg_write_payload, emi_msg_write_data, emi_msg_write}
use emilib.Sock.Ret.{RetRead}
use emilib.Sock.Reply.{Block, sent_block, Answers}
use emilib.Sock.Slow.{Line, coming, went, slow, slow-IsStream}
use emilib.Client.{
  Client, Sent, colon, inaddr_none, split_at_colon, split_ipaddr, emi_addr_init, emi_msg_init,
  emi_msg_send, emi_msg_register,
}
use emilib.Client.Send.{IsAnswered, emi_msg_send-Answers}
use emilib.Client.Register.{registration, IsRegistered, emi_msg_register-IsRegistered}

-- every text without a colon is an address
abbrev inet_addr : List ℕ → ℕ
inet_addr xs = if has colon xs then inaddr_none else 1

abbrev asked : EmiMsg
asked = record {
  flag = 256;
  msg = 1;
  cmd = 2;
  size = 0;
  retsize = 0;
  data_offset = 80;
  retdata_offset = 0;
  count = 0;
}

abbrev client : Client
client = record {
  m = asked;
  addr = record { s_addr = 0; sin_port = 0; sin_family = 0; pid = 0 };
  mem = λ c. 0;
}

-- the address `1` without a port
no_port :
    emi_msg_init inet_addr (λ xs. 7) 1361 9 100 client (some (49 ∷ [])) 3 4 0 2 (some (5 ∷ 6 ∷ []))
    ≡ some (
      true,
      record {
        m = record asked { msg = 3; cmd = 4; size = 2 };
        addr = record { s_addr = 1; sin_port = 20741; sin_family = 2; pid = 9 };
        mem = λ c. if 180 == c then 5 else if 181 == c then 6 else 0;
      },
    )
unfolding emi_msg_init split_ipaddr split_at_colon emi_addr_init
no_port = refl

abbrev two : Block
two = record { next = 7; pad = 0; bytes = 5 ∷ 6 ∷ [] }

abbrev one : Block
one = record { next = 0; pad = 0; bytes = 9 ∷ [] }

abbrev answer : EmiMsg
answer = record asked { flag = 65792; retsize = 35 }

answer-IsEmiMsg : IsEmiMsg answer
answer-IsEmiMsg = record {
  flag = omega arith;
  msg = omega arith;
  cmd = omega arith;
  size = omega arith;
  retsize = omega arith;
}

abbrev arriving : List ℕ
arriving = payload answer ++ (sent_block two ++ sent_block one)

asked_written :
    emi_msg_write 60 slow (arriving, []) (λ c. 0) 100 asked ≡ some (true, (arriving, payload asked))
unfolding emi_msg_write emi_msg_write_payload emi_msg_write_data emi_write
asked_written = refl

answer-IsAnswered : IsAnswered 100 5000 60 answer two one
answer-IsAnswered = record {
  members = answer-IsEmiMsg;
  total = refl;
  small = omega arith;
  small' = omega arith;
  room = record {
    message = omega arith;
    apart = λ e. absurd (omega arith);
    room = omega arith;
    clear = omega arith;
  };
  fits = omega arith;
}

went_well : (p q : Bool × Line) → some p ≡ some q → p.1 ≡ q.1
went_well p q e = let same : p ≡ q = cc in ap (λ z. z.1) same

asked_arrives :
    (u : Line)
    → emi_msg_write 60 slow (arriving, []) (λ c. 0) 100 asked ≡ some (true, u)
    → coming u ≡ arriving
asked_arrives u e =
    ap coming (sym (went_well (true, (arriving, payload asked)) (true, u) (sym asked_written ∙ e)))

emi_msg_send-Answers_example :
    (z : Sent Line) × (emi_msg_send 2 60 slow (some (arriving, [])) (λ c. 0) 100 (some 5000) asked
      ≡ some z)
    × (z.ok ≡ true
        → (has_flag 65792 ret_succeeded ≡ true)
          × ((g : RetRead Line) × (z.answer ≡ some g)
              × Answers Line 100 5000 answer asked two one g))
emi_msg_send-Answers_example =
    emi_msg_send-Answers Line slow coming went slow-IsStream 60 100 5000 (λ c. 0) asked
      (arriving, []) (omega arith) (omega arith) answer two one refl answer-IsAnswered asked_arrives

abbrev no_functions : Functions
no_functions = record {
  rings = init_list_head (record { nexts = λ a. 9; prevs = λ a. 9 }) 0;
  msg = λ a. 1;
  func = λ a. 1;
}

-- the broker's answer to process 9 that registers for message 3
abbrev granted : EmiMsg
granted = record asked { flag = 81920; msg = 3; cmd = 9 }

granted-IsEmiMsg : IsEmiMsg granted
granted-IsEmiMsg = record {
  flag = omega arith;
  msg = omega arith;
  cmd = omega arith;
  size = omega arith;
  retsize = omega arith;
}

register_written :
    emi_msg_write_payload 60 slow (payload granted, []) (registration asked 9 3 0)
    ≡ some (true, (payload granted, payload (registration asked 9 3 0)))
unfolding emi_msg_write_payload emi_write
register_written = refl

register_arrives :
    (u : Line)
    → emi_msg_write_payload 60 slow (payload granted, []) (registration asked 9 3 0)
      ≡ some (true, u)
    → coming u ≡ payload granted ++ []
register_arrives u e = ap coming (
    sym (
      went_well (true, (payload granted, payload (registration asked 9 3 0))) (true, u)
        (sym register_written ∙ e)))

emi_msg_register-IsRegistered_example :
    (q : Bool × Functions) × (emi_msg_register 60 slow
        (some (payload granted, []))
        asked
        9
        no_functions
        0
        (some 5)
        3
        40
        0
      ≡ some q)
    × IsRegistered 9 no_functions 0 5 3 40 [] granted q
emi_msg_register-IsRegistered_example =
    emi_msg_register-IsRegistered Line slow coming went slow-IsStream 60 9 no_functions 0 5 3 40 []
      (init_list_head-IsRing (record { nexts = λ a. 9; prevs = λ a. 9 }) 0) (omega arith) refl
      (omega arith) (omega arith) asked granted 9 0 (payload granted, []) [] granted-IsEmiMsg
      register_arrives
