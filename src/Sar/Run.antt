-- ===== src/Sar/Run.antt =====
-- How the tool of src/emi_sar.c sends its message, over the functions of Client.
use emilib.Prelude.{
  ℕ, ◌-◌, ◌%◌, ◌^◌, ◌<◌, ◌≡◌, refl, arith, ltb, ◌==◌, Bool-cases, inl, inr, ap, ◌∙◌, Bool, true,
  false, Option, none, some, List, [], ◌∷◌, ◌++◌, length, ◌+◌, ◌>>=◌, if◌then◌else◌,
}
use mathlib.Core.Path.{subst}
use emilib.Prelude.Int.{ℤ, pos, negsuc}
use emilib.Hlist.Chain.{has}
use emilib.Message.{
  EmiMsg, payload, get_addr, get_offset, load_bytes, set_flag, has_flag, mode_block, store_bytes,
}
use emilib.Sock.{Socket}
use emilib.Message.Codec.{load-store}
use emilib.Client.Send.{message_bytes}
use emilib.Client.{
  af_inet, EmiAddr, Client, Sent, zeros, colon, split_at_colon, split_ipaddr, htons, emi_addr_init,
  inaddr_none, emi_msg_alloc, emi_msg_init, emi_msg_send,
}
use emilib.Client.Init.{emi_msg_init_port}
use emilib.Sar.{block_mode, Options}

-- a `long` that becomes an `eu32`
abbrev pub to_eu32 : ℤ → ℕ
to_eu32 (pos n) = n % 2 ^ 32
to_eu32 (negsuc n) = 2 ^ 32 - 1 - n % 2 ^ 32

-- `msg->flag |= EMI_MSG_MODE_BLOCK`, if the options say so
abbrev pub blocking : Options → EmiMsg → EmiMsg
blocking o m =
    if has_flag o.option block_mode then record m { flag = set_flag m.flag mode_block } else m

-- what the functions of the library go by: the calls of the C library, the port of the
-- configuration, the process, the connection that an address gives, the size of a message without
-- data, the memory and what `malloc` gives for the message and for an answer
pub record Library (S : Type 0) : Type 0 where
  pub inet_addr : List ℕ → ℕ
  pub atoi : List ℕ → ℕ
  pub emi_port : ℕ
  pub pid : ℕ
  pub connect : EmiAddr → Option S
  pub sizeof_msg : ℕ
  pub mem : ℕ → ℕ
  pub malloc : Option ℕ
  pub malloc_ret : Option ℕ

-- what follows `emi_msg_init`, of which the result is not looked at
abbrev pub was_init :
    {S : Type 0}
    → ℕ
    → ℕ
    → Socket S
    → Library S
    → Options
    → ℕ
    → Bool × Client
    → Option (Option (Sent S))
was_init n fuel k l o a (ok, c) =
    emi_msg_send n fuel k (l.connect c.addr) c.mem a l.malloc_ret (blocking o c.m)
    >>= (λ s. some (some s))

-- the sending; `some none` is a message for which there is no memory
unfoldable pub send :
    {S : Type 0} → ℕ → ℕ → Socket S → Library S → Options → Option (Option (Sent S))
send n fuel k l o =
    let size = length o.sentdata in
    elim (emi_msg_alloc l.sizeof_msg l.mem l.malloc size) [
      | none ↦ some none
      | some made ↦
          let (a, c) = made in
          emi_msg_init l.inet_addr l.atoi l.emi_port l.pid a c (some o.addr) (to_eu32 o.msgnum)
            (to_eu32 o.cmd) 0 size (some o.sentdata)
          >>= was_init n fuel k l o a
    ]

-- the message that emi_msg_alloc makes
abbrev pub unset : ℕ → ℕ → ℕ → EmiMsg
unset sizeof_msg a size = record {
  flag = 0;
  msg = 0;
  cmd = 0;
  size = size;
  retsize = 0;
  data_offset = get_offset a (a + sizeof_msg);
  retdata_offset = 0;
  count = 0;
}

-- the command line's message at `a`, as it is sent with the memory `mem`: to the address that the
-- arguments name, with their number and their command, blocking as they say, with their data
pub record Posted (S : Type 0) (n fuel : ℕ) (k : Socket S) (l : Library S) (o : Options) (a : ℕ)
    (m : EmiMsg) (mem : ℕ → ℕ) : Type 0 where
  pub sent :
      let to : EmiAddr = record {
        s_addr = l.inet_addr o.addr;
        sin_port = htons l.emi_port;
        sin_family = af_inet;
        pid = l.pid;
      } in
      send n fuel k l o
      ≡ (emi_msg_send n fuel k (l.connect to) mem a l.malloc_ret m >>= (λ s. some (some s)))
  pub msg : m.msg ≡ to_eu32 o.msgnum
  pub cmd : m.cmd ≡ to_eu32 o.cmd
  pub blocks : has_flag m.flag mode_block ≡ has_flag o.option block_mode
  pub bytes : message_bytes mem a m ≡ payload m ++ o.sentdata

blocking-flag :
    (o : Options) (m : EmiMsg)
    → m.flag ≡ 0
    → has_flag (blocking o m).flag mode_block ≡ has_flag o.option block_mode
blocking-flag o m z = elim (Bool-cases (has_flag o.option block_mode)) [
  | inl e ↦ rw (e, z) refl
  | inr e ↦ rw (e, z) refl
]

blocking-same :
    (A : Type 0) (o : Options) (m : EmiMsg) (f : EmiMsg → A)
    → ((flag : ℕ) → f (record m { flag = flag }) ≡ f m)
    → f (blocking o m) ≡ f m
blocking-same A o m f h = elim (Bool-cases (has_flag o.option block_mode)) [
  | inl e ↦ rw e (h (set_flag m.flag mode_block))
  | inr e ↦ rw e refl
]

split_at_colon-none : (ip : List ℕ) → has colon ip ≡ false → split_at_colon ip ≡ (ip, none)
unfolding split_at_colon
split_at_colon-none [] h = refl
split_at_colon-none (c ∷ ip) h =
    let other : (c == colon) ≡ false = ground arith in
    let rest = split_at_colon-none ip (ground arith) in rw (other, rest) refl

-- to an address without a port, which inet_addr takes and which fits, with memory for the message, the
-- tool sends the message that the arguments say
pub send-Posted :
    (S : Type 0) (n fuel : ℕ) (k : Socket S) (l : Library S) (o : Options) (a : ℕ)
    → (l.inet_addr o.addr == inaddr_none) ≡ false
    → l.malloc ≡ some a
    → has colon o.addr ≡ false
    → length o.addr < 16
    → (m : EmiMsg) × (mem : ℕ → ℕ) × Posted S n fuel k l o a m mem
unfolding send emi_msg_alloc emi_msg_init split_ipaddr emi_addr_init
send-Posted S n fuel k l o a known made h small =
    let size = length o.sentdata in
    let m₁ : EmiMsg = record (unset l.sizeof_msg a size) {
      msg = to_eu32 o.msgnum;
      cmd = to_eu32 o.cmd;
    } in
    let whole : ltb (length o.addr) 32 ≡ true = ground arith in
    let host : ltb (length o.addr) 16 ≡ true = ground arith in
    let cleared = store_bytes l.mem a (zeros (l.sizeof_msg + size)) in
    let mem = store_bytes cleared (get_addr a m₁.data_offset) o.sentdata in
    let content : EmiMsg → List ℕ = λ m. load_bytes m.size (get_addr a m.data_offset) mem in
    (
      blocking o m₁,
      mem,
      record {
        sent = rw (send, made, emi_msg_init, split_at_colon-none o.addr h, whole, host, known) refl;
        msg = blocking-same ℕ o m₁ (λ m. m.msg) (λ f. refl);
        cmd = blocking-same ℕ o m₁ (λ m. m.cmd) (λ f. refl);
        blocks = blocking-flag o m₁ refl;
        bytes =
            ap (λ z. payload (blocking o m₁) ++ z)
              (blocking-same (List ℕ) o m₁ content (λ f. refl)
                ∙ load-store cleared (get_addr a m₁.data_offset) o.sentdata);
      },
    )

-- to an address with a port that fits, where inet_addr takes no text with a colon and malloc gives
-- memory, the tool calls emi_msg_send for a message that has the number 0, the command 0 and zeros
-- for its data, whatever the arguments say, with the address INADDR_NONE, the port 0 and no family
-- (AF_UNSPEC)
pub send_port :
    (S : Type 0) (n fuel : ℕ) (k : Socket S) (l : Library S) (o : Options) (a : ℕ)
    (ip port : List ℕ)
    → ((xs : List ℕ) → has colon xs ≡ true → l.inet_addr xs ≡ inaddr_none)
    → l.malloc ≡ some a
    → o.addr ≡ ip ++ (colon ∷ port)
    → has colon ip ≡ false
    → length ip < 16
    → length o.addr < 32
    → let size = length o.sentdata in
      send n fuel k l o ≡ (
        emi_msg_send n fuel k
          (l.connect (record { s_addr = inaddr_none; sin_port = 0; sin_family = 0; pid = 0 }))
          (store_bytes l.mem a (zeros (l.sizeof_msg + size)))
          a
          l.malloc_ret
          (blocking o (unset l.sizeof_msg a size))
        >>= (λ s. some (some s)))
unfolding send emi_msg_alloc
send_port S n fuel k l o a ip port none_with made at h small long =
    let size = length o.sentdata in
    let c : Client = record {
      m = unset l.sizeof_msg a size;
      addr = record { s_addr = 0; sin_port = 0; sin_family = 0; pid = 0 };
      mem = store_bytes l.mem a (zeros (l.sizeof_msg + size));
    } in
    let failed =
      emi_msg_init_port l.inet_addr l.atoi l.emi_port l.pid a c ip port (to_eu32 o.msgnum)
        (to_eu32 o.cmd) 0 size (some o.sentdata) none_with h small
        (subst (λ z. length z < 32) at long) in
    rw (send, made, at, failed) refl
