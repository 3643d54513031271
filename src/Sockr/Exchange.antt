-- ===== src/Sockr/Exchange.antt =====
-- An answer of the broker that the sender reads: src/emi_sockr.c at one end of the connection,
-- src/emi_sock.c at the other.
use emilib.Prelude.{
  ℕ, ◌+◌, ◌/◌, ◌<◌, ◌≡◌, ◌^◌, sym, ap, ◌∙◌, arith, true, some, List, [], ◌∷◌, ◌++◌, append-nil,
}
use emilib.Hlist.Chain.{has}
use emilib.Message.{EmiMsg, payload, get_addr, encode, load_bytes}
use emilib.Message.Codec.{IsEmiMsg, length-load_bytes}
use emilib.Retdata.{sizeof_retdata}
use emilib.Handler.Retdata.{Linked}
use emilib.Sock.{Socket, IsStream}
use emilib.Sock.Ret.{RetRead, emi_msg_read_ret}
use emilib.Sock.Reply.{Block, sent_block, IsRoom, Answers, emi_msg_read_ret-Answers}
use emilib.Sockr.Ret.{Answered, block_bytes, all_bytes, emi_msg_write_ret, emi_msg_write_ret-all}

-- the block of an answer at the offset `d`
abbrev pub block_at : Answered → ℕ → Block
block_at r d = record {
  next = r.blocks.next_offset d;
  pad = r.pad d;
  bytes = load_bytes (r.blocks.size d) (get_addr r.a d + sizeof_retdata) r.mem;
}

block_bytes-sent_block : (r : Answered) (d : ℕ) → block_bytes r d ≡ sent_block (block_at r d)
block_bytes-sent_block r d =
    ap
      (λ n.
        encode (r.blocks.next_offset d)
        ++ (encode (r.blocks.next_offset d / 2 ^ 32)
            ++ (encode n ++ (encode (r.pad d) ++ (block_at r d).bytes))))
      (sym (length-load_bytes (r.blocks.size d) (get_addr r.a d + sizeof_retdata) r.mem))

two_sent :
    (r : Answered) (d e : ℕ)
    → all_bytes r (d ∷ e ∷ []) ≡ sent_block (block_at r d) ++ sent_block (block_at r e)
two_sent r d e =
    ap (λ l. block_bytes r d ++ l) (append-nil (block_bytes r e))
    ∙ ap (λ l. l ++ block_bytes r e) (block_bytes-sent_block r d)
    ∙ ap (λ l. sent_block (block_at r d) ++ l) (block_bytes-sent_block r e)

-- an answer with two blocks of return data, and where the sender puts it
pub record IsAnswer (r : Answered) (d e a x fuel : ℕ) : Type 0 where
  pub linked : Linked r.blocks r.m.retdata_offset (d ∷ e ∷ [])
  pub members : IsEmiMsg r.m
  pub total : r.m.retsize ≡ r.blocks.size d + sizeof_retdata + (r.blocks.size e + sizeof_retdata)
  pub room : IsRoom a x r.m.retsize
  pub fits : r.m.retsize < fuel
  pub payload_fits : 20 < fuel

-- of an answer with two blocks, which emi_msg_write_ret wrote with success, exactly the bytes arrive
-- at the sender: emi_msg_read_ret ends, and if it gives 0 the message has the members of the answer
-- and `for_each_retdata` finds both blocks in their order, with their sizes and bytes
pub emi_msg_read_ret-emi_msg_write_ret :
    (S T : Type 0) (k : Socket S) (l : Socket T) (incoming outgoing : S → List ℕ)
    (incoming' outgoing' : T → List ℕ)
    → IsStream S k incoming outgoing
    → IsStream T l incoming' outgoing'
    → (n fuel a x : ℕ) (mem : ℕ → ℕ) (r : Answered) (old : EmiMsg) (d e : ℕ) (s w : S) (t : T)
    → IsAnswer r d e a x fuel
    → 2 < n
    → outgoing s ≡ []
    → emi_msg_write_ret n fuel k s r ≡ some (true, w)
    → incoming' t ≡ outgoing w
    → (g : RetRead T) × (emi_msg_read_ret 2 fuel l t mem a (some x) old ≡ some g)
      × (g.ok ≡ true → Answers T a x r.m old (block_at r d) (block_at r e) g)
emi_msg_read_ret-emi_msg_write_ret S T k l incoming outgoing incoming' outgoing' is is' n fuel a x
      mem r old d e s w t ans h start written came =
    let b = block_at r d in
    let c = block_at r e in
    let total = ans.total in
    let small = ans.members.retsize in
    let room = ans.fits in
    let long = length-load_bytes (r.blocks.size d) (get_addr r.a d + sizeof_retdata) r.mem in
    let long' = length-load_bytes (r.blocks.size e) (get_addr r.a e + sizeof_retdata) r.mem in
    let fits : (z : ℕ) → has z (d ∷ e ∷ []) ≡ true → r.blocks.size z + sizeof_retdata < fuel =
      λ z m. ground arith in
    let (q, run, out) =
      emi_msg_write_ret-all S k incoming outgoing is fuel r (omega arith) n s (d ∷ e ∷ [])
        ans.linked fits h ans.payload_fits in
    let ok : q.0 ≡ true = cc in
    let end : q.1 ≡ w = cc in
    let whole : incoming' t ≡ payload r.m ++ (sent_block b ++ sent_block c) =
      came
      ∙ ap outgoing (sym end)
      ∙ out ok
      ∙ ap (λ o. o ++ (payload r.m ++ all_bytes r (d ∷ e ∷ []))) start
      ∙ ap (λ o. payload r.m ++ o) (two_sent r d e) in
    emi_msg_read_ret-Answers T a x r.m old b c mem ans.room (omega arith) (omega arith)
      (omega arith) l incoming' outgoing' is' fuel ans.payload_fits ans.fits t ans.members whole
