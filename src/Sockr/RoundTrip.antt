-- ===== src/Sockr/RoundTrip.antt =====
-- What `emi_msg_write` of src/emi_sock.c sends, `emi_msg_read` of src/emi_sockr.c reads back.
use emilib.Prelude.{
  ℕ, ◌<◌, ◌≡◌, refl, sym, ap, ◌∙◌, true, some, List, [], ◌++◌, append-nil, same_run,
}
use emilib.Message.{EmiMsg, payload, get_addr, load_bytes}
use emilib.Message.Codec.{length-load_bytes}
use emilib.Shbuf.{Shm}
use emilib.Sock.{Socket, IsStream}
use emilib.Sock.Message.{emi_msg_write, emi_msg_write-all}
use emilib.Sock.Payload.{append_cancel}
use emilib.Sockr.{MsgRead, emi_msg_read}
use emilib.Sockr.Read.{IsFresh, IsSound, Delivered, emi_msg_read-Delivered}

module _ (S T : Type 0) (k : Socket S) (j : Socket T) (incoming outgoing : S → List ℕ)
    (arriving leaving : T → List ℕ) (is : IsStream S k incoming outgoing)
    (ist : IsStream T j arriving leaving) where
  -- a sound message that emi_msg_write wrote with success, read at the other end of the connection,
  -- where exactly those bytes arrive: with more fuel than bytes emi_msg_read ends, and if it gives 0
  -- the message has the sender's members, but that ALLOCDATA may be set, and the sender's data, in
  -- memory that is in use
  pub emi_msg_read-emi_msg_write :
      (sizeof fuel a a' ord blk : ℕ) (mem mem' : ℕ → ℕ) (shm : Shm) (m old : EmiMsg) (s v : S)
      (t : T)
      → IsFresh sizeof shm a' ord blk old
      → IsSound sizeof m
      → 20 < fuel
      → m.size < fuel
      → emi_msg_write fuel k s mem a m ≡ some (true, v)
      → outgoing v ≡ outgoing s ++ arriving t
      → (g : MsgRead T) × (emi_msg_read sizeof fuel j t shm mem' a' old ≡ some g)
        × Delivered T a' m (load_bytes m.size (get_addr a m.data_offset) mem) g
  emi_msg_read-emi_msg_write sizeof fuel a a' ord blk mem mem' shm m old s v t fresh sound h hs run
        e =
      let bs = load_bytes m.size (get_addr a m.data_offset) mem in
      let (r, run', sent) = emi_msg_write-all S k incoming outgoing is fuel s mem a m h hs in
      let went : outgoing v ≡ outgoing s ++ (payload m ++ bs) =
        same_run (λ z. z.0 ≡ true → outgoing z.1 ≡ outgoing s ++ (payload m ++ bs))
          (emi_msg_write fuel k s mem a m) r (true, v) run' run sent refl in
      let arrives : arriving t ≡ payload m ++ (bs ++ []) =
        append_cancel (outgoing s) (arriving t) (payload m ++ bs) (sym e ∙ went)
        ∙ ap (λ l. payload m ++ l) (sym (append-nil bs)) in
      emi_msg_read-Delivered T j arriving leaving ist sizeof fuel a' ord blk mem' shm m old bs [] t
        fresh sound h hs (length-load_bytes m.size (get_addr a m.data_offset) mem) arrives
