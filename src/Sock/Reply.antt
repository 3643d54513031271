-- ===== src/Sock/Reply.antt =====
-- The blocks of an answer that `emi_msg_read_ret` of src/emi_sock.c reads.
use emilib.Prelude.{
  ℕ, ◌+◌, ◌^◌, ◌<◌, ◌≡◌, refl, sym, ap, ◌∙◌, arith, Bool, true, false, none, some, List, [], ◌∷◌,
  ◌++◌, append-nil, length, length-append, take, take_all, ltb, ◌>>=◌,
}
use mathlib.Core.Path.{subst}
use emilib.Message.{EmiMsg, payload, get_addr, get_offset, load_bytes, store_bytes, decode}
use emilib.Message.Codec.{IsEmiMsg, received}
use emilib.Retdata.{sizeof_retdata, get_next_retdata, for_each_retdata}
use emilib.Retdata.Links.{two_blocks_sized}
use emilib.Sock.{Socket, IsStream, emi_read}
use emilib.Sock.Read.{emi_read-Reads}
use emilib.Sock.Payload.{emi_msg_read_payload, emi_msg_read_payload-PayloadRead}
use emilib.Sock.Ret.{
  blocks_in, RetRead, no_answer, emi_msg_free_data, linked, ret_rest, emi_msg_read_ret, block_of,
  length_stored, bytes_stored,
}

-- a block with its member `pad`, the offset that it had, and its bytes
pub record Block : Type 0 where
  pub next : ℕ
  pub pad : ℕ
  pub bytes : List ℕ

abbrev pub sent_block : Block → List ℕ
sent_block b = block_of b.next b.pad b.bytes

abbrev pub used : Block → ℕ
used b = length b.bytes + sizeof_retdata

-- in the answer to the message at `a` the block `b` is found at the offset `d`
pub record Found (S : Type 0) (a d : ℕ) (b : Block) (g : RetRead S) : Type 0 where
  pub size : g.blocks.size d ≡ length b.bytes
  pub bytes : load_bytes (length b.bytes) (get_addr a d + sizeof_retdata) g.mem ≡ b.bytes

-- the answer to the message at `a` was read to the memory at `x`: its blocks are `b` and `c`
pub record Answers (S : Type 0) (a x : ℕ) (m old : EmiMsg) (b c : Block) (g : RetRead S)
    : Type 0 where
  pub message : g.m ≡ record (received m old) { retdata_offset = get_offset a x }
  pub walk :
      let base = get_offset a x in
      for_each_retdata 3 g.blocks base m.retsize (get_next_retdata g.blocks base m.retsize none)
      ≡ some (base ∷ (base + used b) ∷ [])
  pub first : Found S a (get_offset a x) b g
  pub second : Found S a (get_offset a x + used b) c g

-- where memory for return data may lie: not over the message, and before the end of the addresses
pub record IsRoom (a x retsize : ℕ) : Type 0 where
  pub message : a < 2 ^ 64
  pub apart : ¬ (a ≡ x)
  pub room : x + retsize < 2 ^ 64
  pub clear : get_offset a x + retsize < 2 ^ 64

room_address : (a x : ℕ) → a < 2 ^ 64 → x < 2 ^ 64 → get_addr a (get_offset a x) ≡ x
room_address a x h k = omega arith

room_offset : (a x : ℕ) → a < 2 ^ 64 → x < 2 ^ 64 → ¬ (a ≡ x) → 0 < get_offset a x
room_offset a x h k n = omega arith

room_inside : (a x n : ℕ) → a < 2 ^ 64 → x + n < 2 ^ 64 → get_addr a (get_offset a x + n) ≡ x + n
room_inside a x n h k = omega arith

module _ (S : Type 0) (a x : ℕ) (m old : EmiMsg) (b c : Block) (mem : ℕ → ℕ)
    (room : IsRoom a x m.retsize) (total : m.retsize ≡ used b + used c)
    (small : length b.bytes < 2 ^ 32) (small' : length c.bytes < 2 ^ 32) where
  linked-Answers :
      (u : S)
      → (g : RetRead S) × (linked 2 mem a x
            (record (received m old) { retdata_offset = get_offset a x })
            (true, sent_block b ++ sent_block c, u)
          ≡ some g)
        × Answers S a x m old b c g
  linked-Answers u =
      let base = get_offset a x in
      let bs = sent_block b ++ sent_block c in
      let mem' = store_bytes mem x bs in
      let k = blocks_in a mem' in
      let in_room : x + (used b + used c) < 2 ^ 64 = subst (λ z. x + z < 2 ^ 64) total room.room in
      let at : get_addr a base ≡ x = room_address a x room.message (omega arith) in
      let at' : get_addr a (base + used b) ≡ x + used b =
        room_inside a x (used b) room.message (omega arith) in
      let here : x ≡ x + 0 = omega arith in
      let behind : x + used b ≡ x + length (sent_block b) = omega arith in
      let whole : bs ≡ sent_block b ++ (sent_block c ++ []) =
        ap (λ l. sent_block b ++ l) (sym (append-nil (sent_block c))) in
      let size : k.size base ≡ length b.bytes =
        ap (λ z. decode (load_bytes 4 (z + 8) mem')) (at ∙ here)
        ∙ length_stored mem x [] b.next b.pad b.bytes (sent_block c) small in
      let size' : k.size (base + used b) ≡ length c.bytes =
        ap (λ z. decode (load_bytes 4 (z + 8) mem')) (at' ∙ behind)
        ∙ ap (λ l. decode (load_bytes 4 (x + length (sent_block b) + 8) (store_bytes mem x l)))
            whole
        ∙ length_stored mem x (sent_block b) c.next c.pad c.bytes [] small' in
      let (v, run, walk, kept) =
        two_blocks_sized k base (room_offset a x room.message (omega arith) room.apart)
          (length b.bytes) (length c.bytes) m.retsize size size' total in
      (
        record {
          ok = true;
          m = record (received m old) { retdata_offset = base };
          blocks = v;
          mem = mem';
          sd = u;
        },
        ap
            (λ o. o >>= λ k'. some (record {
              ok = true;
              m = record (received m old) { retdata_offset = base };
              blocks = k';
              mem = mem';
              sd = u;
            }))
            run,
        record {
          message = refl;
          walk = walk;
          first = record {
            size = ap (λ h. h base) kept ∙ size;
            bytes =
                ap (λ z. load_bytes (length b.bytes) (z + sizeof_retdata) mem') (at ∙ here)
                ∙ bytes_stored mem x [] b.next b.pad b.bytes (sent_block c);
          };
          second = record {
            size = ap (λ h. h (base + used b)) kept ∙ size';
            bytes =
                ap (λ z. load_bytes (length c.bytes) (z + sizeof_retdata) mem') (at' ∙ behind)
                ∙ ap
                    (λ l.
                      load_bytes (length c.bytes) (x + length (sent_block b) + sizeof_retdata)
                        (store_bytes mem x l))
                    whole
                ∙ bytes_stored mem x (sent_block b) c.next c.pad c.bytes [];
          };
        },
      )

  whole_take : take m.retsize (sent_block b ++ sent_block c) ≡ sent_block b ++ sent_block c
  whole_take =
      let l = sent_block b ++ sent_block c in
      let long : m.retsize ≡ length l =
        omega (arith, length-append (sent_block b) (sent_block c)) in
      ap (λ n. take n l) long ∙ ap (take (length l)) (sym (append-nil l)) ∙ take_all l []

  -- the answer on a stream, in memory that `malloc` gives: with more fuel than bytes
  -- emi_msg_read_ret ends, and if it gives 0, `for_each_retdata` finds both blocks with their sizes
  -- and bytes
  module _ (k : Socket S) (incoming outgoing : S → List ℕ) (is : IsStream S k incoming outgoing)
      (fuel : ℕ) (h : 20 < fuel) (h' : m.retsize < fuel) where
    ret_rest-Answers :
        (u : S)
        → incoming u ≡ sent_block b ++ sent_block c
        → (g : RetRead S) × (ret_rest 2 fuel k mem a (some x) (true, received m old, u) ≡ some g)
          × (g.ok ≡ true → Answers S a x m old b c g)
    ret_rest-Answers u e =
        let ((ok, xs, v), run, reads) =
          emi_read-Reads S k incoming outgoing is fuel u m.retsize h' in
        let more : ltb 0 m.retsize ≡ true = ground arith in
        let got_all : ok ≡ true → xs ≡ sent_block b ++ sent_block c =
          λ q. reads.next q ∙ ap (take m.retsize) e ∙ whole_take in
        go ok xs v run got_all more
      where
        go :
            (ok : Bool) (xs : List ℕ) (v : S)
            → emi_read fuel k u m.retsize ≡ some (ok, xs, v)
            → (ok ≡ true → xs ≡ sent_block b ++ sent_block c)
            → ltb 0 m.retsize ≡ true
            → (g : RetRead S) × (ret_rest 2 fuel k mem a (some x) (true, received m old, u)
                ≡ some g)
              × (g.ok ≡ true → Answers S a x m old b c g)
        go false xs v run whole more = (
          no_answer (record (received m old) { retsize = 0; retdata_offset = get_offset a x })
              (store_bytes mem x xs) a v,
          rw (more, run, emi_msg_free_data, more) refl,
          λ q. cc,
        )
        go true xs v run whole more =
            let (g, run', answers) = linked-Answers v in
            (g, rw (more, run, whole refl) run', λ q. answers)

    pub emi_msg_read_ret-Answers :
        (s : S)
        → IsEmiMsg m
        → incoming s ≡ payload m ++ (sent_block b ++ sent_block c)
        → (g : RetRead S) × (emi_msg_read_ret 2 fuel k s mem a (some x) old ≡ some g)
          × (g.ok ≡ true → Answers S a x m old b c g)
    unfolding emi_msg_read_ret
    emi_msg_read_ret-Answers s im e =
        let ((ok, m', u), run, reads) =
          emi_msg_read_payload-PayloadRead S k incoming outgoing is fuel s m old
            (sent_block b ++ sent_block c) h im e in
        go ok m' u run reads.message reads.left
      where
        go :
            (ok : Bool) (m' : EmiMsg) (u : S)
            → emi_msg_read_payload fuel k s old ≡ some (ok, m', u)
            → (ok ≡ true → m' ≡ received m old)
            → (ok ≡ true → incoming u ≡ sent_block b ++ sent_block c)
            → (g : RetRead S) × (emi_msg_read_ret 2 fuel k s mem a (some x) old ≡ some g)
              × (g.ok ≡ true → Answers S a x m old b c g)
        go false m' u run same left = (no_answer m' mem a u, rw run refl, λ q. cc)
        go true m' u run same left =
            let (g, run', answers) = ret_rest-Answers u (left refl) in
            (g, rw (run, same refl) run', answers)
