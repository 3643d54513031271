-- ===== src/Sock/Ret.antt =====
-- How the sender reads the answer to a blocking message, `emi_msg_read_ret` of src/emi_sock.c. The
-- message stands at `a`, and `malloc` gives the memory at `x`, or NULL; `mem` are the bytes of the
-- process's memory.
use emilib.Prelude.{
  ℕ, ◌+◌, ◌*◌, ◌/◌, ◌^◌, ◌<◌, ◌≡◌, sym, ap, ◌∙◌, arith, Bool, true, false, Option, none, some, List,
  [], ◌++◌, append_assoc, length, length-append, ltb, if◌then◌else◌, ◌>>=◌,
}
use emilib.Message.{EmiMsg, get_addr, get_offset, encode, decode, load_bytes, store_bytes}
use emilib.Message.Codec.{load-store_part, decode-encode}
use emilib.Retdata.{Blocks, sizeof_retdata, emi_msg_read_retdata}
use emilib.Sock.{Socket, Received, emi_read}
use emilib.Sock.Payload.{emi_msg_read_payload}

-- `emi_msg_free_data`, but for giving the memory back to `malloc`
abbrev pub emi_msg_free_data : EmiMsg → EmiMsg
emi_msg_free_data m = if ltb 0 m.retsize then record m { retsize = 0 } else m

-- the blocks that lie in memory
abbrev pub blocks_in : ℕ → (ℕ → ℕ) → Blocks
blocks_in a mem = record {
  next_offset = λ d.
      decode (load_bytes 4 (get_addr a d) mem)
      + 2 ^ 32 * decode (load_bytes 4 (get_addr a d + 4) mem);
  size = λ d. decode (load_bytes 4 (get_addr a d + 8) mem);
}

-- how the reading of an answer ended
pub record RetRead (S : Type 0) : Type 0 where
  pub ok : Bool
  pub m : EmiMsg
  pub blocks : Blocks
  pub mem : ℕ → ℕ
  pub sd : S

abbrev pub no_answer : {S : Type 0} → EmiMsg → (ℕ → ℕ) → ℕ → S → RetRead S
no_answer m mem a s = record { ok = false; m = m; blocks = blocks_in a mem; mem = mem; sd = s }

-- what follows the reading of the return data; `n` is the fuel of the loop that links the blocks
abbrev pub linked : {S : Type 0} → ℕ → (ℕ → ℕ) → ℕ → ℕ → EmiMsg → Received S → Option (RetRead S)
linked n mem a x m (false, bs, u) =
    some (no_answer (emi_msg_free_data m) (store_bytes mem x bs) a u)
linked n mem a x m (true, bs, u) =
    let mem' = store_bytes mem x bs in
    emi_msg_read_retdata n (blocks_in a mem') m.retdata_offset m.retsize >>= λ k.
    some (record { ok = true; m = m; blocks = k; mem = mem'; sd = u })

-- what follows the reading of the payload
abbrev pub ret_rest :
    {S : Type 0}
    → ℕ
    → ℕ
    → Socket S
    → (ℕ → ℕ)
    → ℕ
    → Option ℕ
    → Bool × EmiMsg × S
    → Option (RetRead S)
ret_rest n fuel k mem a x (false, m, s) = some (no_answer m mem a s)
ret_rest n fuel k mem a none (true, m, s) = some (
    if ltb 0 m.retsize
    then no_answer m mem a s
    else record { ok = true; m = m; blocks = blocks_in a mem; mem = mem; sd = s })
ret_rest n fuel k mem a (some x) (true, m, s) =
    if ltb 0 m.retsize
    then emi_read fuel k s m.retsize
      >>= linked n mem a x (record m { retdata_offset = get_offset a x })
    else some (record { ok = true; m = m; blocks = blocks_in a mem; mem = mem; sd = s })

unfoldable pub emi_msg_read_ret :
    {S : Type 0} → ℕ → ℕ → Socket S → S → (ℕ → ℕ) → ℕ → Option ℕ → EmiMsg → Option (RetRead S)
emi_msg_read_ret n fuel k s mem a x m =
    emi_msg_read_payload fuel k s m >>= ret_rest n fuel k mem a x

-- a block as it is sent
abbrev pub block_of : ℕ → ℕ → List ℕ → List ℕ
block_of next pad bs =
    encode next ++ (encode (next / 2 ^ 32) ++ (encode (length bs) ++ (encode pad ++ bs)))

-- the bytes of a block that stands in memory behind `xs`
module _ (mem : ℕ → ℕ) (x : ℕ) (xs : List ℕ) (next pad : ℕ) (bs ys : List ℕ) where
  pub length_stored :
      length bs < 2 ^ 32
      → decode (
          load_bytes 4 (x + length xs + 8) (store_bytes mem x (xs ++ (block_of next pad bs ++ ys))))
        ≡ length bs
  length_stored small =
      let front = xs ++ (encode next ++ encode (next / 2 ^ 32)) in
      let rest = encode pad ++ (bs ++ ys) in
      let place : x + length front ≡ x + length xs + 8 =
        omega (arith, length-append xs (encode next ++ encode (next / 2 ^ 32))) in
      let whole : front ++ (encode (length bs) ++ rest) ≡ xs ++ (block_of next pad bs ++ ys) =
        append_assoc xs (encode next ++ encode (next / 2 ^ 32)) (encode (length bs) ++ rest) in
      ap (λ l. decode (load_bytes 4 (x + length xs + 8) (store_bytes mem x l))) (sym whole)
      ∙ ap
          (λ c. decode (load_bytes 4 c (store_bytes mem x (front ++ (encode (length bs) ++ rest)))))
          (sym place)
      ∙ ap decode (load-store_part mem x front (encode (length bs)) rest)
      ∙ decode-encode (length bs) [] small

  pub bytes_stored :
      load_bytes
        (length bs)
        (x + length xs + sizeof_retdata)
        (store_bytes mem x (xs ++ (block_of next pad bs ++ ys)))
      ≡ bs
  bytes_stored =
      let header = encode next ++ (encode (next / 2 ^ 32) ++ (encode (length bs) ++ encode pad)) in
      let front = xs ++ header in
      let place : x + length front ≡ x + length xs + sizeof_retdata =
        omega (arith, length-append xs header) in
      let whole : front ++ (bs ++ ys) ≡ xs ++ (block_of next pad bs ++ ys) =
        append_assoc xs header (bs ++ ys) in
      ap (λ l. load_bytes (length bs) (x + length xs + sizeof_retdata) (store_bytes mem x l))
        (sym whole)
      ∙ ap (λ c. load_bytes (length bs) c (store_bytes mem x (front ++ (bs ++ ys)))) (sym place)
      ∙ load-store_part mem x front bs ys
