-- ===== src/Sockr/Ret.antt =====
-- The broker's answer to a blocking message, `emi_msg_write_ret` of src/emi_sockr.c: the payload and
-- then the blocks of return data in the order of their chain, each with its header.
use emilib.Prelude.{
  ℕ, zero, suc, ◌+◌, ◌/◌, ◌^◌, ◌<◌, ◌≡◌, refl, sym, ap, ◌∙◌, arith, Bool, true, false, Option, none,
  some, List, [], ◌∷◌, ◌++◌, append_assoc, append-nil, head, length, ltb, if◌then◌else◌, ◌==◌,
}
use emilib.Hlist.Chain.{has}
use emilib.Message.{EmiMsg, payload, get_addr, encode, load_bytes}
use emilib.Message.Codec.{length-load_bytes}
use emilib.Retdata.{Blocks, sizeof_retdata, get_next_retdata, offset_after}
use emilib.Handler.Retdata.{Linked}
use emilib.Sock.{Socket, IsStream, emi_write}
use emilib.Sock.Write.{Writes, emi_write-Writes}
use emilib.Sock.Message.{emi_msg_write_payload, append_all}

-- the answer in memory: the message at `a`, its blocks by their offsets, their `pad` members, and the
-- bytes of data
pub record Answered : Type 0 where
  pub a : ℕ
  pub m : EmiMsg
  pub blocks : Blocks
  pub pad : ℕ → ℕ
  pub mem : ℕ → ℕ

-- `struct emi_retdata` with its data
abbrev pub block_bytes : Answered → ℕ → List ℕ
block_bytes r d =
    encode (r.blocks.next_offset d)
    ++ (encode (r.blocks.next_offset d / 2 ^ 32)
        ++ (encode (r.blocks.size d)
            ++ (encode (r.pad d)
                ++ load_bytes (r.blocks.size d) (get_addr r.a d + sizeof_retdata) r.mem)))

-- the loop of `emi_msg_write_retdata` from the block `block` on; `fuel` is for a write
unfoldable pub write_blocks :
    {S : Type 0} → ℕ → ℕ → Socket S → S → Answered → Option ℕ → Option (Bool × S)
write_blocks zero fuel k s r block = none
write_blocks (suc n) fuel k s r none = some (true, s)
write_blocks (suc n) fuel k s r (some d) = elim (emi_write fuel k s (block_bytes r d)) [
  | none ↦ none
  | some (false, u) ↦ some (false, u)
  | some (true, u) ↦
      write_blocks n fuel k u r (get_next_retdata r.blocks r.m.retdata_offset r.m.retsize (some d))
]

unfoldable pub emi_msg_write_retdata :
    {S : Type 0} → ℕ → ℕ → Socket S → S → Answered → Option (Bool × S)
emi_msg_write_retdata n fuel k s r =
    write_blocks n fuel k s r (get_next_retdata r.blocks r.m.retdata_offset r.m.retsize none)

unfoldable pub emi_msg_write_ret :
    {S : Type 0} → ℕ → ℕ → Socket S → S → Answered → Option (Bool × S)
emi_msg_write_ret n fuel k s r = elim (emi_msg_write_payload fuel k s r.m) [
  | none ↦ none
  | some (false, u) ↦ some (false, u)
  | some (true, u) ↦
      if ltb 0 r.m.retsize then emi_msg_write_retdata n fuel k u r else some (true, u)
]

abbrev pub all_bytes : Answered → List ℕ → List ℕ
all_bytes r [] = []
all_bytes r (d ∷ ds) = block_bytes r d ++ all_bytes r ds

-- what is linked is what the walk finds
next-head :
    (r : Answered) (b : Option ℕ) (ds : List ℕ)
    → 0 < r.m.retsize
    → Linked r.blocks (offset_after r.blocks r.m.retdata_offset b) ds
    → get_next_retdata r.blocks r.m.retdata_offset r.m.retsize b ≡ head ds
unfolding get_next_retdata
next-head r b [] p e = let q : (r.m.retsize == 0) ≡ false = ground arith in rw (q, e) refl
next-head r b (d ∷ ds) p (e, h, l) =
    let q : (r.m.retsize == 0) ≡ false = ground arith in
    let q' : (d == 0) ≡ false = ground arith in rw (q, e, q') refl

length-block_bytes :
    (r : Answered) (d : ℕ) → length (block_bytes r d) ≡ r.blocks.size d + sizeof_retdata
length-block_bytes r d =
    omega (arith, length-load_bytes (r.blocks.size d) (get_addr r.a d + sizeof_retdata) r.mem)

module _ (S : Type 0) (k : Socket S) (incoming outgoing : S → List ℕ)
    (is : IsStream S k incoming outgoing) (fuel : ℕ) (r : Answered) (more : 0 < r.m.retsize) where
  write_blocks-all :
      (n : ℕ) (s : S) (b : Option ℕ) (ds : List ℕ)
      → Linked r.blocks (offset_after r.blocks r.m.retdata_offset b) ds
      → ((d : ℕ) → has d ds ≡ true → r.blocks.size d + sizeof_retdata < fuel)
      → length ds < n
      → (q : Bool × S) × (write_blocks n fuel k s r (head ds) ≡ some q)
        × (q.0 ≡ true → outgoing q.1 ≡ outgoing s ++ all_bytes r ds)
  unfolding write_blocks
  write_blocks-all zero s b ds l fits h = absurd (omega arith)
  write_blocks-all (suc n) s b [] l fits h = ((true, s), refl, λ q. sym (append-nil (outgoing s)))
  write_blocks-all (suc n) s b (d ∷ ds) (e, p, l) fits h =
      let ((ok, u), run, w) =
        emi_write-Writes S k incoming outgoing is fuel s (block_bytes r d)
          (omega (arith, length-block_bytes r d, fits d (ground arith))) in
      let (q, run', rest) =
        write_blocks-all n u (some d) ds l (λ c m. fits c (ground arith)) (omega arith) in
      let after = next-head r (some d) ds more l in go ok u run w q run' rest after
    where
      go :
          (ok : Bool) (u : S)
          → emi_write fuel k s (block_bytes r d) ≡ some (ok, u)
          → Writes S outgoing s (block_bytes r d) (ok, u)
          → (q : Bool × S) → write_blocks n fuel k u r (head ds) ≡ some q
          → (q.0 ≡ true → outgoing q.1 ≡ outgoing u ++ all_bytes r ds)
          → get_next_retdata r.blocks r.m.retdata_offset r.m.retsize (some d) ≡ head ds
          → (z : Bool × S) × (write_blocks (suc n) fuel k s r (some d) ≡ some z)
            × (z.0 ≡ true → outgoing z.1 ≡ outgoing s ++ (block_bytes r d ++ all_bytes r ds))
      go false u run w q run' rest after = ((false, u), rw (write_blocks, run) refl, λ z. cc)
      go true u run w q run' rest after = (
        q,
        rw (write_blocks, run, after) run',
        λ z.
            rest z
            ∙ ap (λ l. l ++ all_bytes r ds) (append_all S outgoing s (block_bytes r d) u w)
            ∙ append_assoc (outgoing s) (block_bytes r d) (all_bytes r ds),
      )

  -- with fuel for the blocks and for the bytes of each, emi_msg_write_ret of a message with return
  -- data ends; if it gives 0 the stream took the payload and then every block of the chain in order,
  -- with header and data
  pub emi_msg_write_ret-all :
      (n : ℕ) (s : S) (ds : List ℕ)
      → Linked r.blocks r.m.retdata_offset ds
      → ((d : ℕ) → has d ds ≡ true → r.blocks.size d + sizeof_retdata < fuel)
      → length ds < n
      → 20 < fuel
      → (q : Bool × S) × (emi_msg_write_ret n fuel k s r ≡ some q)
        × (q.0 ≡ true → outgoing q.1 ≡ outgoing s ++ (payload r.m ++ all_bytes r ds))
  unfolding emi_msg_write_ret emi_msg_write_retdata emi_msg_write_payload
  emi_msg_write_ret-all n s ds l fits h hf =
      let ((ok, u), run, w) =
        emi_write-Writes S k incoming outgoing is fuel s (payload r.m) (omega arith) in
      let (q, run', rest) = write_blocks-all n u none ds l fits h in
      go ok u run w q run' rest (next-head r none ds more l)
    where
      go :
          (ok : Bool) (u : S)
          → emi_write fuel k s (payload r.m) ≡ some (ok, u)
          → Writes S outgoing s (payload r.m) (ok, u)
          → (q : Bool × S) → write_blocks n fuel k u r (head ds) ≡ some q
          → (q.0 ≡ true → outgoing q.1 ≡ outgoing u ++ all_bytes r ds)
          → get_next_retdata r.blocks r.m.retdata_offset r.m.retsize none ≡ head ds
          → (z : Bool × S) × (emi_msg_write_ret n fuel k s r ≡ some z)
            × (z.0 ≡ true → outgoing z.1 ≡ outgoing s ++ (payload r.m ++ all_bytes r ds))
      go false u run w q run' rest first = ((false, u), rw (emi_msg_write_ret, run) refl, λ z. cc)
      go true u run w q run' rest first =
          let some_left : ltb 0 r.m.retsize ≡ true = ground arith in
          (
            q,
            rw (emi_msg_write_ret, run, some_left, emi_msg_write_retdata, first) run',
            λ z.
                rest z
                ∙ ap (λ l. l ++ all_bytes r ds) (append_all S outgoing s (payload r.m) u w)
                ∙ append_assoc (outgoing s) (payload r.m) (all_bytes r ds),
          )
