-- ===== src/Client/Send.antt =====
-- `emi_msg_send` of src/emi_if.c.
use emilib.Prelude.{
  ℕ, ◌+◌, ◌<◌, ◌^◌, ◌≡◌, refl, sym, ap, ◌∙◌, inl, inr, arith, Bool, true, false, none, some, List,
  ◌++◌, length, Bool-cases,
}
use emilib.Message.{EmiMsg, payload, load_bytes, get_addr, has_flag, mode_block, ret_succeeded}
use emilib.Message.Codec.{IsEmiMsg}
use emilib.Sock.{Socket, IsStream}
use emilib.Sock.Message.{emi_msg_write, emi_msg_write-all}
use emilib.Sock.Ret.{RetRead}
use emilib.Sock.Reply.{Block, sent_block, used, IsRoom, Answers, emi_msg_read_ret-Answers}
use emilib.Client.{Sent, answered, send_rest, emi_msg_send}

-- the message and its data, as they are sent
abbrev pub message_bytes : (ℕ → ℕ) → ℕ → EmiMsg → List ℕ
message_bytes mem a m = payload m ++ load_bytes m.size (get_addr a m.data_offset) mem

-- an answer `r` with two blocks, and the room for it
pub record IsAnswered (a x fuel : ℕ) (r : EmiMsg) (b c : Block) : Type 0 where
  pub members : IsEmiMsg r
  pub total : r.retsize ≡ used b + used c
  pub small : length b.bytes < 2 ^ 32
  pub small' : length c.bytes < 2 ^ 32
  pub room : IsRoom a x r.retsize
  pub fits : r.retsize < fuel

answered-Answers :
    (S : Type 0) (a x : ℕ) (r m : EmiMsg) (b c : Block) (g : RetRead S)
    → (g.ok ≡ true → Answers S a x r m b c g)
    → (answered g).ok ≡ true
    → (has_flag r.flag ret_succeeded ≡ true)
      × ((g' : RetRead S) × ((answered g).answer ≡ some g') × Answers S a x r m b c g')
answered-Answers S a x r m b c g good q = elim (Bool-cases g.ok) [
  | inl e ↦
      let answers = good e in
      let flag : has_flag g.m.flag ret_succeeded ≡ true = ground arith in
      (sym (ap (λ z. has_flag z.flag ret_succeeded) answers.message) ∙ flag, (g, refl, answers))
  | inr e ↦ absurd (ground arith)
]

module _ (S : Type 0) (k : Socket S) (incoming outgoing : S → List ℕ)
    (is : IsStream S k incoming outgoing) (fuel a x : ℕ) (mem : ℕ → ℕ) (m : EmiMsg) (sd : S)
    (h : 20 < fuel) (h' : m.size < fuel) where
  send_written :
      (n : ℕ) (u : S)
      → emi_msg_write fuel k sd mem a m ≡ some (true, u)
      → emi_msg_send n fuel k (some sd) mem a (some x) m
        ≡ send_rest n fuel k mem a (some x) m (true, u)
  unfolding emi_msg_send
  send_written n u run = rw (emi_msg_send, run) refl

  send_failed :
      (n : ℕ) (u : S)
      → emi_msg_write fuel k sd mem a m ≡ some (false, u)
      → emi_msg_send n fuel k (some sd) mem a (some x) m
        ≡ some (record { ok = false; m = m; answer = none })
  unfolding emi_msg_send
  send_failed n u run = rw (emi_msg_send, run) refl

  -- a message that blocks, with more fuel than bytes, where an answer with two blocks arrives once the
  -- message is written: emi_msg_send ends, and if it gives 0 the answer says SUCCEEDED, and
  -- `for_each_retdata` finds its blocks with their sizes and bytes
  pub emi_msg_send-Answers :
      (r : EmiMsg) (b c : Block)
      → has_flag m.flag mode_block ≡ true
      → IsAnswered a x fuel r b c
      → ((u : S)
          → emi_msg_write fuel k sd mem a m ≡ some (true, u)
          → incoming u ≡ payload r ++ (sent_block b ++ sent_block c))
      → (z : Sent S) × (emi_msg_send 2 fuel k (some sd) mem a (some x) m ≡ some z)
        × (z.ok ≡ true
            → (has_flag r.flag ret_succeeded ≡ true)
              × ((g : RetRead S) × (z.answer ≡ some g) × Answers S a x r m b c g))
  emi_msg_send-Answers r b c blocks ans arrives =
      let ((ok, u), run, out) = emi_msg_write-all S k incoming outgoing is fuel sd mem a m h h' in
      go ok u run
    where
      go :
          (ok : Bool) (u : S)
          → emi_msg_write fuel k sd mem a m ≡ some (ok, u)
          → (z : Sent S) × (emi_msg_send 2 fuel k (some sd) mem a (some x) m ≡ some z)
            × (z.ok ≡ true
                → (has_flag r.flag ret_succeeded ≡ true)
                  × ((g : RetRead S) × (z.answer ≡ some g) × Answers S a x r m b c g))
      go false u run = (record { ok = false; m = m; answer = none }, send_failed 2 u run, λ q. cc)
      go true u run =
          let (g, read, good) =
            emi_msg_read_ret-Answers S a x r m b c mem ans.room ans.total ans.small ans.small' k
              incoming outgoing is fuel h ans.fits u ans.members (arrives u run) in
          (
            answered g,
            send_written 2 u run ∙ rw (blocks, read) refl,
            answered-Answers S a x r m b c g good,
          )
