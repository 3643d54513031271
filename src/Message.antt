-- ===== src/Message.antt =====
-- `struct emi_msg` of include/emi_msg.h: its flags, its offsets, and the members that are sent. The
-- lock is left out, and so is the receiver's address, which only the client uses.
pub mod Codec
use emilib.Prelude.{
  ℕ, zero, suc, ◌+◌, ◌-◌, ◌*◌, ◌/◌, ◌%◌, ◌^◌, Bool, List, [], ◌∷◌, ◌++◌, ◌==◌, if◌then◌else◌,
  length, take, drop,
}

-- the exponents of EMI_MSG_MODE_BLOCK, EMI_MSG_CMD_REGISTER, EMI_MSG_RET_SUCCEEDED and
-- EMI_MSG_FLAG_ALLOCDATA
abbrev pub mode_block : ℕ
mode_block = 8

abbrev pub cmd_register : ℕ
cmd_register = 14

abbrev pub ret_succeeded : ℕ
ret_succeeded = 16

abbrev pub flag_allocdata : ℕ
flag_allocdata = 18

-- `flag & (1 << bit)`
abbrev pub has_flag : ℕ → ℕ → Bool
has_flag flag bit = flag / 2 ^ bit % 2 == 1

-- `flag |= 1 << bit`
abbrev pub set_flag : ℕ → ℕ → ℕ
set_flag flag bit = if has_flag flag bit then flag else flag + 2 ^ bit

-- `flag &= ~(1 << bit)`
abbrev pub clear_flag : ℕ → ℕ → ℕ
clear_flag flag bit = if has_flag flag bit then flag - 2 ^ bit else flag

-- the offsets are 64-bit numbers in two's complement
pub record EmiMsg : Type 0 where
  pub flag : ℕ
  pub msg : ℕ
  pub cmd : ℕ
  pub size : ℕ
  pub retsize : ℕ
  pub data_offset : ℕ
  pub retdata_offset : ℕ
  pub count : ℕ

-- GET_OFFSET and GET_ADDR
abbrev pub get_offset : ℕ → ℕ → ℕ
get_offset base addr = (addr + (2 ^ 64 - base)) % 2 ^ 64

abbrev pub get_addr : ℕ → ℕ → ℕ
get_addr base offset = (base + offset) % 2 ^ 64

-- the `n` bytes of the memory from `a` on
abbrev pub load_bytes : ℕ → ℕ → (ℕ → ℕ) → List ℕ
load_bytes zero a mem = []
load_bytes (suc n) a mem = mem a ∷ load_bytes n (a + 1) mem

-- a 32-bit member in memory, the lowest byte first
abbrev pub encode : ℕ → List ℕ
encode n = (n % 256) ∷ (n / 256 % 256) ∷ (n / 65536 % 256) ∷ (n / 16777216 % 256) ∷ []

abbrev pub decode : List ℕ → ℕ
decode (a ∷ b ∷ c ∷ d ∷ rest) = a + 256 * b + 65536 * c + 16777216 * d
decode xs = 0

-- the first EMI_MSG_PAYLOAD_SIZE bytes of the message
abbrev pub payload_size : ℕ
payload_size = 20

abbrev pub payload : EmiMsg → List ℕ
payload m = encode m.flag ++ (encode m.msg ++ (encode m.cmd ++ (encode m.size ++ encode m.retsize)))

-- the members, from the first bytes of the message
abbrev pub with_payload : EmiMsg → List ℕ → EmiMsg
with_payload m xs = record m {
  flag = decode xs;
  msg = decode (drop 4 xs);
  cmd = decode (drop 8 xs);
  size = decode (drop 12 xs);
  retsize = decode (drop 16 xs);
}

-- what a buffer holds after `xs` came into it
abbrev pub overwrite : List ℕ → List ℕ → List ℕ
overwrite xs old = xs ++ drop (length xs) old

-- the memory after `xs` came to `a`
abbrev pub store_bytes : (ℕ → ℕ) → ℕ → List ℕ → ℕ → ℕ
store_bytes mem a [] c = mem c
store_bytes mem a (x ∷ xs) c = if a == c then x else store_bytes mem (a + 1) xs c
