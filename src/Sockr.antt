-- ===== src/Sockr.antt =====
-- How the broker reads a message and writes its answer, src/emi_sockr.c. The message stands at `a`
-- of the shared memory; `mem` holds the bytes of the data.
pub mod Read
pub mod RoundTrip
pub mod Ret
pub mod Exchange
mod Tests
use emilib.Prelude.{ℕ, Bool, true, false, Option, none, some, List, ltb, if◌then◌else◌, ◌>>=◌}
use emilib.Message.{EmiMsg, get_addr, store_bytes}
use emilib.Shbuf.{Shm}
use emilib.Shared.{realloc_shared_msg}
use emilib.Sock.{Socket, Received, emi_read}
use emilib.Sock.Payload.{emi_msg_read_payload}

-- how the reading of a message ended: `ok` for 0, the message, the memory and the connection
pub record MsgRead (S : Type 0) : Type 0 where
  pub ok : Bool
  pub m : EmiMsg
  pub shm : Shm
  pub mem : ℕ → ℕ
  pub sd : S

abbrev pub store_data : {S : Type 0} → Shm → (ℕ → ℕ) → ℕ → EmiMsg → Received S → MsgRead S
store_data shm mem a m (ok, xs, u) = record {
  ok = ok;
  m = m;
  shm = shm;
  mem = store_bytes mem (get_addr a m.data_offset) xs;
  sd = u;
}

unfoldable pub emi_msg_read_data :
    {S : Type 0} → ℕ → Socket S → S → Shm → (ℕ → ℕ) → ℕ → EmiMsg → Option (MsgRead S)
emi_msg_read_data fuel k s shm mem a m = do
  r ← emi_read fuel k s m.size
  some (store_data shm mem a m r)

-- what `emi_msg_read` does once `realloc_shared_msg` returned
abbrev pub read_into :
    {S : Type 0} → ℕ → Socket S → S → (ℕ → ℕ) → ℕ → Bool × EmiMsg × Shm → Option (MsgRead S)
read_into fuel k s mem a (false, m, shm) =
    some (record { ok = false; m = m; shm = shm; mem = mem; sd = s })
read_into fuel k s mem a (true, m, shm) = emi_msg_read_data fuel k s shm mem a m

-- what it does once the payload was read
abbrev pub read_rest :
    {S : Type 0} → ℕ → ℕ → Socket S → Shm → (ℕ → ℕ) → ℕ → Bool × EmiMsg × S → Option (MsgRead S)
read_rest sizeof fuel k shm mem a (false, m, s) =
    some (record { ok = false; m = m; shm = shm; mem = mem; sd = s })
read_rest sizeof fuel k shm mem a (true, m, s) =
    if ltb 0 m.size
    then realloc_shared_msg sizeof shm a m >>= read_into fuel k s mem a
    else some (record { ok = true; m = m; shm = shm; mem = mem; sd = s })

unfoldable pub emi_msg_read :
    {S : Type 0} → ℕ → ℕ → Socket S → S → Shm → (ℕ → ℕ) → ℕ → EmiMsg → Option (MsgRead S)
emi_msg_read sizeof fuel k s shm mem a m =
    emi_msg_read_payload fuel k s m >>= read_rest sizeof fuel k shm mem a
