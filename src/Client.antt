-- ===== src/Client.antt =====
-- The client library's half of a message, src/emi_if.c, and the registration of src/emi_ifr.c.
-- `inet_addr` and `atoi` are arguments, and so are what `malloc` and the calls that connect give.
pub mod Init
pub mod Send
pub mod Register
mod Tests
use emilib.Prelude.{
  ℕ, zero, suc, ◌+◌, ◌*◌, ◌/◌, ◌%◌, ◌^◌, Bool, true, false, not, Option, none, some, List, [], ◌∷◌,
  ltb, ◌==◌, if◌then◌else◌, length, ◌>>=◌,
}
use Prim.Native.Nat.{bit_or}
use emilib.Message.{
  EmiMsg, get_offset, get_addr, has_flag, set_flag, store_bytes, mode_block, cmd_register,
  ret_succeeded,
}
use emilib.Retdata.{Blocks}
use emilib.Sock.{Socket}
use emilib.Sock.Message.{emi_msg_write, emi_msg_write_payload}
use emilib.Sock.Payload.{emi_msg_read_payload}
use emilib.Sock.Ret.{RetRead, emi_msg_read_ret}
use emilib.Handler.{Functions, add_func}

-- AF_INET
abbrev pub af_inet : ℕ
af_inet = 2

-- `struct emi_addr`, with the port in the order of the network
pub record EmiAddr : Type 0 where
  pub s_addr : ℕ
  pub sin_port : ℕ
  pub sin_family : ℕ
  pub pid : ℕ

-- a message of the client at `a`, and the bytes of the process's memory
pub record Client : Type 0 where
  pub m : EmiMsg
  pub addr : EmiAddr
  pub mem : ℕ → ℕ

abbrev pub zeros : ℕ → List ℕ
zeros zero = []
zeros (suc n) = 0 ∷ zeros n

-- `sizeof_msg` is `sizeof(struct emi_msg)`; `malloc` gives the memory at `a`
unfoldable pub emi_msg_alloc : ℕ → (ℕ → ℕ) → Option ℕ → ℕ → Option (ℕ × Client)
emi_msg_alloc sizeof_msg mem none size = none
emi_msg_alloc sizeof_msg mem (some a) size = some (
  a,
  record {
    m = record {
      flag = 0;
      msg = 0;
      cmd = 0;
      size = size;
      retsize = 0;
      data_offset = get_offset a (a + sizeof_msg);
      retdata_offset = 0;
      count = 0;
    };
    addr = record { s_addr = 0; sin_port = 0; sin_family = 0; pid = 0 };
    mem = store_bytes mem a (zeros (sizeof_msg + size));
  },
)

abbrev pub colon : ℕ
colon = 58

-- the text before the first colon, and the text behind it
abbrev pub cut : ℕ → List ℕ × Option (List ℕ) → List ℕ × Option (List ℕ)
cut c (xs, rest) = (c ∷ xs, rest)

unfoldable pub split_at_colon : List ℕ → List ℕ × Option (List ℕ)
split_at_colon [] = ([], none)
split_at_colon (c ∷ cs) = if c == colon then ([], some cs) else cut c (split_at_colon cs)

abbrev pub port_of : (List ℕ → ℕ) → ℕ → Option (List ℕ) → ℕ
port_of atoi emi_port none = emi_port
port_of atoi emi_port (some p) = atoi p

-- the text and its address go to buffers of 32 and of 16 characters; `none` is a write behind them
unfoldable pub split_ipaddr : (List ℕ → ℕ) → ℕ → List ℕ → Option (List ℕ × ℕ)
split_ipaddr atoi emi_port mixip =
    let (ip, rest) = split_at_colon mixip in
    if ltb (length mixip) 32
    then (if ltb (length ip) 16 then some (ip, port_of atoi emi_port rest) else none)
    else none

abbrev pub htons : ℕ → ℕ
htons port = port % 256 * 256 + port / 256 % 256

-- INADDR_NONE
abbrev pub inaddr_none : ℕ
inaddr_none = 4294967295

unfoldable pub emi_addr_init : (List ℕ → ℕ) → ℕ → EmiAddr → List ℕ → ℕ → Bool × EmiAddr
emi_addr_init inet_addr pid addr ip port =
    let set = record addr { s_addr = inet_addr ip } in
    if inet_addr ip == inaddr_none
    then (false, set)
    else (true, record set { sin_port = htons port; sin_family = af_inet; pid = pid })

-- what `emi_msg_init` sets behind the address
abbrev pub filled_in : ℕ → ℕ → ℕ → ℕ → ℕ → Option (List ℕ) → Client → Client
filled_in a msg_num cmd flag data_size content c =
    let m = record (c.m) {
      cmd = cmd;
      msg = msg_num;
      flag = bit_or c.m.flag flag;
      size = data_size;
    } in
    elim content [
      | none ↦ record c { m = m }
      | some bs ↦ record c { m = m; mem = store_bytes c.mem (get_addr a m.data_offset) bs }
    ]

-- the message at `a`; `content` are `data_size` bytes
unfoldable pub emi_msg_init :
    (List ℕ → ℕ)
    → (List ℕ → ℕ)
    → ℕ
    → ℕ
    → ℕ
    → Client
    → Option (List ℕ)
    → ℕ
    → ℕ
    → ℕ
    → ℕ
    → Option (List ℕ)
    → Option (Bool × Client)
emi_msg_init inet_addr atoi emi_port pid a c none msg_num cmd flag data_size content =
    some (true, filled_in a msg_num cmd flag data_size content c)
emi_msg_init inet_addr atoi emi_port pid a c (some dest_ip) msg_num cmd flag data_size content =
    elim (split_ipaddr atoi emi_port dest_ip) [
      | none ↦ none
      | some r ↦
          let (ip, port) = r in
          let (ok, addr) = emi_addr_init inet_addr pid c.addr dest_ip port in
          if ok
          then some
              (true, filled_in a msg_num cmd flag data_size content (record c { addr = addr }))
          else some (false, record c { addr = addr })
    ]

-- how a message was sent; without an answer the blocks are those that lie in memory
pub record Sent (S : Type 0) : Type 0 where
  pub ok : Bool
  pub m : EmiMsg
  pub answer : Option (RetRead S)

abbrev pub answered : {S : Type 0} → RetRead S → Sent S
answered g = record {
  ok = if g.ok then has_flag g.m.flag ret_succeeded else false;
  m = g.m;
  answer = some g;
}

-- what follows the writing of the message
abbrev pub send_rest :
    {S : Type 0} → ℕ → ℕ → Socket S → (ℕ → ℕ) → ℕ → Option ℕ → EmiMsg → Bool × S → Option (Sent S)
send_rest n fuel k mem a x m (false, u) = some (record { ok = false; m = m; answer = none })
send_rest n fuel k mem a x m (true, u) =
    if has_flag m.flag mode_block
    then emi_msg_read_ret n fuel k u mem a x m >>= (λ g. some (answered g))
    else some (record { ok = true; m = m; answer = none })

-- `sd` is the connection, if `emi_open` and `emi_connect` gave one; `x` is the memory for an answer
unfoldable pub emi_msg_send :
    {S : Type 0} → ℕ → ℕ → Socket S → Option S → (ℕ → ℕ) → ℕ → Option ℕ → EmiMsg → Option (Sent S)
emi_msg_send n fuel k none mem a x m = some (record { ok = false; m = m; answer = none })
emi_msg_send n fuel k (some sd) mem a x m =
    emi_msg_write fuel k sd mem a m >>= send_rest n fuel k mem a x m

-- what follows the broker's answer to a registration
abbrev pub registered :
    {S : Type 0} → Functions → ℕ → Option ℕ → ℕ → ℕ → Bool × EmiMsg × S → Option (Bool × Functions)
registered fs head fl msg_num func (false, m, s) = some (false, fs)
registered fs head none msg_num func (true, m, s) = some (false, fs)
registered fs head (some fl) msg_num func (true, m, s) =
    if has_flag m.flag ret_succeeded
    then some (true, add_func fs head fl msg_num func)
    else some (false, fs)

-- what follows the writing of the registration `m`
abbrev pub register_rest :
    {S : Type 0}
    → ℕ
    → Socket S
    → Functions
    → ℕ
    → Option ℕ
    → ℕ
    → ℕ
    → EmiMsg
    → Bool × S
    → Option (Bool × Functions)
register_rest fuel k fs head fl msg_num func m (false, u) = some (false, fs)
register_rest fuel k fs head fl msg_num func m (true, u) =
    emi_msg_read_payload fuel k u m >>= registered fs head fl msg_num func

-- `__emi_msg_register` with a connection; `garbage` is what the message on the stack held, whose
-- flags stay set. `127.0.0.1` is an address, and no data is copied
unfoldable pub emi_msg_register :
    {S : Type 0}
    → ℕ
    → Socket S
    → Option S
    → EmiMsg
    → ℕ
    → Functions
    → ℕ
    → Option ℕ
    → ℕ
    → ℕ
    → ℕ
    → Option (Bool × Functions)
emi_msg_register fuel k none garbage pid fs head fl msg_num func flag = some (false, fs)
emi_msg_register fuel k (some sd) garbage pid fs head fl msg_num func flag =
    let m = record garbage {
      cmd = pid;
      msg = msg_num;
      flag = bit_or garbage.flag (bit_or flag (2 ^ cmd_register));
      size = 0;
    } in
    emi_msg_write_payload fuel k sd m >>= register_rest fuel k fs head fl msg_num func m
