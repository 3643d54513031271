-- ===== src/Sockr/Read.antt =====
-- What `emi_msg_read` of src/emi_sockr.c makes of a message that comes in.
use emilib.Prelude.{
  ◌⊎◌, ℕ, ◌+◌, ◌^◌, ◌<◌, ◌≡◌, refl, sym, ap, ◌∙◌, inl, inr, arith, Bool, true, false, some, List,
  [], ◌∷◌, ◌++◌, length, take, take_all, ltb, ◌>>=◌, Bool-cases,
}
use mathlib.Core.Path.{subst}
use emilib.Message.{
  EmiMsg, payload, get_addr, get_offset, has_flag, set_flag, flag_allocdata, load_bytes,
  store_bytes,
}
use emilib.Message.Codec.{IsEmiMsg, received, load-store}
use emilib.Shbuf.{Shm, addr_buf_offset}
use emilib.Shbuf.Alloc.{IsHeap}
use emilib.Shared.Owned.{Owned, Room}
use emilib.Shared.Realloc.{IsMapped, Reallocated, realloc_shared_msg-Reallocated}
use emilib.Sock.{Socket, IsStream}
use emilib.Sock.Read.{emi_read-Reads}
use emilib.Sock.Payload.{PayloadRead, emi_msg_read_payload-PayloadRead}
use emilib.Sockr.{MsgRead, store_data, emi_msg_read_data, read_into, read_rest, emi_msg_read}

-- a message at `a` that was just made by `alloc_shared_msg`, in block `b` of order `k` of an exact
-- heap
pub record IsFresh (sizeof : ℕ) (shm : Shm) (a k b : ℕ) (old : EmiMsg) : Type 0 where
  pub heap : IsHeap shm
  pub mapped : IsMapped shm
  pub owned : Owned shm a k b
  pub offset : old.data_offset ≡ get_offset a (a + sizeof)
  pub top : a + sizeof < 2 ^ 64

-- a message that may come in: 32-bit members, no ALLOCDATA, and a size that an `int` can hold
pub record IsSound (sizeof : ℕ) (m : EmiMsg) : Type 0 where
  pub members : IsEmiMsg m
  pub no_data : has_flag m.flag flag_allocdata ≡ false
  pub small : m.size + sizeof < 2 ^ 31
  pub small_block : m.size + addr_buf_offset < 2 ^ 31

-- the message `m` with its bytes `bs` came to `a`, if the reading gave 0
pub record Delivered (S : Type 0) (a : ℕ) (m : EmiMsg) (bs : List ℕ) (g : MsgRead S) : Type 0 where
  pub msg : g.ok ≡ true → g.m.msg ≡ m.msg
  pub flag : g.ok ≡ true → (g.m.flag ≡ m.flag) ⊎ (g.m.flag ≡ set_flag m.flag flag_allocdata)
  pub cmd : g.ok ≡ true → g.m.cmd ≡ m.cmd
  pub size : g.ok ≡ true → g.m.size ≡ m.size
  pub retsize : g.ok ≡ true → g.m.retsize ≡ m.retsize
  pub bytes : g.ok ≡ true → load_bytes m.size (get_addr a g.m.data_offset) g.mem ≡ bs
  pub room : g.ok ≡ true → 0 < m.size → Room g.shm (get_addr a g.m.data_offset) m.size

refused :
    (S : Type 0) (a : ℕ) (m : EmiMsg) (bs : List ℕ) (g : MsgRead S)
    → g.ok ≡ false
    → Delivered S a m bs g
refused S a m bs g e = record {
  msg = λ q. cc;
  flag = λ q. cc;
  cmd = λ q. cc;
  size = λ q. cc;
  retsize = λ q. cc;
  bytes = λ q. cc;
  room = λ q h. cc;
}

module _ (S : Type 0) (k : Socket S) (incoming outgoing : S → List ℕ)
    (is : IsStream S k incoming outgoing) (sizeof fuel a ord blk : ℕ) (mem : ℕ → ℕ) (shm : Shm)
    (m old : EmiMsg) (bs rest : List ℕ) where
  -- after `realloc_shared_msg`
  into :
      (s : S) (q : Bool × EmiMsg × Shm)
      → Reallocated sizeof shm a ord blk (received m old) q
      → m.size < fuel
      → length bs ≡ m.size
      → incoming s ≡ bs ++ rest
      → (g : MsgRead S) × (read_into fuel k s mem a q ≡ some g) × Delivered S a m bs g
  unfolding emi_msg_read_data
  into s (false, m₂, shm₂) re hf len e =
      let g : MsgRead S = record { ok = false; m = m₂; shm = shm₂; mem = mem; sd = s } in
      (g, refl, refused S a m bs g refl)
  into s (true, m₂, shm₂) re hf len e =
      let ((ok, ys, u), run, reads) =
        emi_read-Reads S k incoming outgoing is fuel s m₂.size (omega (arith, re.size)) in
      let whole : ok ≡ true → ys ≡ bs = λ q.
        reads.next q
        ∙ ap (take m₂.size) e
        ∙ ap (λ n. take n (bs ++ rest)) (re.size ∙ sym len)
        ∙ take_all bs rest in
      let addr = get_addr a m₂.data_offset in
      (
        store_data shm₂ mem a m₂ (ok, ys, u),
        ap (λ r. r >>= λ z. some (store_data shm₂ mem a m₂ z)) run,
        record {
          msg = λ q. re.msg;
          flag = λ q. re.flag refl;
          cmd = λ q. re.cmd;
          size = λ q. re.size;
          retsize = λ q. re.retsize;
          bytes = λ q.
              ap (λ n. load_bytes n addr (store_bytes mem addr ys))
                (sym len ∙ ap length (sym (whole q)))
              ∙ load-store mem addr ys
              ∙ whole q;
          room = λ q h. re.room_for refl;
        },
      )

  -- after the payload
  rested :
      (s : S)
      → IsFresh sizeof shm a ord blk old
      → IsSound sizeof m
      → m.size < fuel
      → length bs ≡ m.size
      → incoming s ≡ bs ++ rest
      → (g : MsgRead S) × (read_rest sizeof fuel k shm mem a (true, received m old, s) ≡ some g)
        × Delivered S a m bs g
  rested s fresh sound hf len e = elim (Bool-cases (ltb 0 m.size)) [
    | inl more ↦
        let (q, run, re) =
          realloc_shared_msg-Reallocated sizeof shm a ord blk (received m old) fresh.heap
            fresh.mapped fresh.owned sound.no_data fresh.offset fresh.top (ground arith) sound.small
            sound.small_block in
        let (g, run', d) = into s q re hf len e in (g, rw more (rw run run'), d)
    | inr none_left ↦
        let g : MsgRead S = record {
          ok = true;
          m = received m old;
          shm = shm;
          mem = mem;
          sd = s;
        } in
        let no_size : m.size ≡ 0 = ground arith in
        (
          g,
          rw none_left refl,
          record {
            msg = λ q. refl;
            flag = λ q. inl refl;
            cmd = λ q. refl;
            size = λ q. refl;
            retsize = λ q. refl;
            bytes = λ q.
                ap (λ n. load_bytes n (get_addr a old.data_offset) mem) no_size
                ∙ empty bs (len ∙ no_size);
            room = λ q h. absurd (omega arith);
          },
        )
  ]
    where
      empty : (xs : List ℕ) → length xs ≡ 0 → [] ≡ xs
      empty [] h = refl
      empty (x ∷ xs) h = absurd (omega arith)

  payload_done :
      (r : Bool × EmiMsg × S)
      → PayloadRead S incoming m old (bs ++ rest) r
      → IsFresh sizeof shm a ord blk old
      → IsSound sizeof m
      → m.size < fuel
      → length bs ≡ m.size
      → (g : MsgRead S) × (read_rest sizeof fuel k shm mem a r ≡ some g) × Delivered S a m bs g
  payload_done (false, m₁, s₁) pr fresh sound hf len =
      let g : MsgRead S = record { ok = false; m = m₁; shm = shm; mem = mem; sd = s₁ } in
      (g, refl, refused S a m bs g refl)
  payload_done (true, m₁, s₁) pr fresh sound hf len =
      subst
        (λ z.
          (g : MsgRead S) × (read_rest sizeof fuel k shm mem a (true, z, s₁) ≡ some g)
          × Delivered S a m bs g)
        (sym (pr.message refl)) (rested s₁ fresh sound hf len (pr.left refl))

  -- with more fuel than bytes, and for a fresh message and a sound one whose payload and data come
  -- in, emi_msg_read ends; if it gives 0 the message has the members that were sent, but that
  -- ALLOCDATA may be set, and its data are those bytes, in a block of the shared memory that is in
  -- use and long enough
  pub emi_msg_read-Delivered :
      (s : S)
      → IsFresh sizeof shm a ord blk old
      → IsSound sizeof m
      → 20 < fuel
      → m.size < fuel
      → length bs ≡ m.size
      → incoming s ≡ payload m ++ (bs ++ rest)
      → (g : MsgRead S) × (emi_msg_read sizeof fuel k s shm mem a old ≡ some g)
        × Delivered S a m bs g
  unfolding emi_msg_read
  emi_msg_read-Delivered s fresh sound h hf len e =
      let (r, run, pr) =
        emi_msg_read_payload-PayloadRead S k incoming outgoing is fuel s m old (bs ++ rest) h
          sound.members e in
      let (g, run', d) = payload_done r pr fresh sound hf len in
      (g, ap (λ z. z >>= read_rest sizeof fuel k shm mem a) run ∙ run', d)
