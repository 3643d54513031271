-- ===== src/Handler/Retdata.antt =====
-- `emi_load_retdata` of src/emi_ifr.c: the chain of the blocks of return data grows at its front.
use emilib.Prelude.{
  ℕ, ◌+◌, ◌%◌, ◌^◌, ◌≤◌, ◌<◌, ◌≡◌, refl, sym, ap, ◌∙◌, ◌⊎◌, inl, inr, arith, Bool, true, false,
  none, some, List, [], ◌∷◌, ◌==◌, length, eq-cases, pow_pos,
}
use mathlib.Core.Path.{subst}
use emilib.Hlist.{update_self, update_other}
use emilib.Hlist.Chain.{has}
use emilib.Message.{
  clear_flag, get_offset, get_addr, has_flag, mode_block, ret_succeeded, store_bytes, load_bytes,
}
use emilib.Message.Codec.{load-store}
use emilib.Prelude.Int.{pos}
use emilib.Shbuf.{Shm, addr_buf_offset, size_to_order, emi_alloc}
use emilib.Shbuf.Alloc.{IsHeap, Granted}
use emilib.Shared.Owned.{Owned, get_addr-get_offset, Granted-Owned, Granted-keeps, emi_alloc-cases}
use emilib.Shared.Realloc.{IsMapped}
use emilib.Retdata.{Blocks, sizeof_retdata}
use emilib.Handler.{Reply, fail, add_block, emi_retdata_alloc, emi_load_retdata}

-- from the offset `off` on the blocks lead through `ds` to the end
abbrev pub Linked : Blocks → ℕ → List ℕ → Type 0
Linked k off [] = off ≡ 0
Linked k off (d ∷ ds) = (off ≡ d) × (0 < d) × Linked k (k.next_offset d) ds

-- the message at `a` has the blocks of return data `ds`, each of them in memory that is in use
pub record HasBlocks (r : Reply) (a : ℕ) (ds : List ℕ) : Type 0 where
  pub linked : Linked r.blocks r.m.retdata_offset ds
  pub small : (d : ℕ) → has d ds ≡ true → d < 2 ^ 64
  pub held : (d : ℕ) → has d ds ≡ true → (l c : ℕ) × Owned r.shm (get_addr a d) l c
  pub order : ℕ
  pub block : ℕ
  pub owned : Owned r.shm a order block

-- memory in use at one address is one block
Owned-apart :
    (s : Shm) (size k b x : ℕ) (t : Shm)
    → Granted s size k b x t
    → (y l c : ℕ) → Owned s y l c
    → ¬ (x ≡ y)
Owned-apart s size k b x t g y l c o e =
    let (_, apart, _) = g.others l c o.used in
    omega (arith, apart, g.after_header, o.place, pow_pos k, pow_pos l)

-- a new block outside of the chain leaves it as it was
Linked-frame :
    (k u : Blocks) (off : ℕ) (ds : List ℕ)
    → ((d : ℕ) → has d ds ≡ true → u.next_offset d ≡ k.next_offset d)
    → Linked k off ds
    → Linked u off ds
Linked-frame k u off [] same e = e
Linked-frame k u off (d ∷ ds) same (e, p, s) = (
  e,
  p,
  subst (λ z. Linked u z ds) (sym (same d (ground arith)))
      (Linked-frame k u (k.next_offset d) ds (λ c m. same c (ground arith)) s),
)

-- how a call of `emi_load_retdata` with the bytes `bs` ended, which gave `ok`
pub record Loaded (r : Reply) (a : ℕ) (ds bs : List ℕ) (ok : Bool) (u : Reply) : Type 0 where
  pub failed :
      ok ≡ false
      → (u ≡ record r { m = record (r.m) { flag = clear_flag r.m.flag ret_succeeded } })
        × (has_flag u.m.flag ret_succeeded ≡ false)
  pub members :
      ok ≡ true → u.m ≡ record (r.m) { retsize = u.m.retsize; retdata_offset = u.m.retdata_offset }
  pub chain : ok ≡ true → HasBlocks u a (u.m.retdata_offset ∷ ds)
  pub size : ok ≡ true → u.blocks.size u.m.retdata_offset ≡ length bs
  pub total : ok ≡ true → u.m.retsize ≡ (r.m.retsize + (length bs + sizeof_retdata)) % 2 ^ 32
  pub bytes :
      ok ≡ true → load_bytes (length bs) (get_addr a u.m.retdata_offset + sizeof_retdata) u.mem ≡ bs

load_null :
    (r : Reply) (a : ℕ) (bs : List ℕ)
    → 0 < length bs
    → has_flag r.m.flag mode_block ≡ true
    → emi_alloc r.shm (length bs + sizeof_retdata) ≡ some (none, r.shm)
    → emi_load_retdata r a bs ≡ some (false, fail r)
unfolding emi_load_retdata emi_retdata_alloc
load_null r a bs p f e =
    let q : (length bs == 0) ≡ false = ground arith in
    rw (emi_load_retdata, emi_retdata_alloc, q, f, e) refl

load-some :
    (r : Reply) (a x : ℕ) (t : Shm) (bs : List ℕ)
    → 0 < length bs
    → has_flag r.m.flag mode_block ≡ true
    → emi_alloc r.shm (length bs + sizeof_retdata) ≡ some (some x, t)
    → let u = add_block r t a x (length bs) in
      emi_load_retdata r a bs
      ≡ some (true, record u { mem = store_bytes u.mem (x + sizeof_retdata) bs })
unfolding emi_load_retdata emi_retdata_alloc
load-some r a x t bs p f e =
    let q : (length bs == 0) ≡ false = ground arith in
    rw (emi_load_retdata, emi_retdata_alloc, q, f, e) refl

module _ (r : Reply) (a : ℕ) (ds bs : List ℕ) (h : HasBlocks r a ds) (top : a < 2 ^ 64) (x : ℕ)
    (t : Shm) (b : ℕ)
    (g : Granted r.shm
      (length bs + sizeof_retdata)
      (size_to_order (pos (length bs + sizeof_retdata + addr_buf_offset)))
      b
      x
      t)
    (mapped : x < 2 ^ 64) where
  abbrev offset : ℕ
  offset = get_offset a x

  back : get_addr a offset ≡ x
  back = get_addr-get_offset a x top mapped

  other : (d : ℕ) → has d ds ≡ true → ¬ (offset ≡ d)
  other d m e =
      let (l, c, o) = h.held d m in
      Owned-apart r.shm (length bs + sizeof_retdata) _ b x t g (get_addr a d) l c o
        (sym back ∙ ap (get_addr a) e)

  not_message : ¬ (x ≡ a)
  not_message = Owned-apart r.shm (length bs + sizeof_retdata) _ b x t g a h.order h.block h.owned

  added_chain :
      r.m.retdata_offset < 2 ^ 32 → HasBlocks (add_block r t a x (length bs)) a (offset ∷ ds)
  added_chain low =
      let u = add_block r t a x (length bs) in
      let next : u.blocks.next_offset offset ≡ r.m.retdata_offset =
        update_self r.blocks.next_offset offset (r.m.retdata_offset % 2 ^ 32) ∙ omega arith in
      record {
        linked = (
          refl,
          pos_offset (eq-cases x a),
          subst (λ z. Linked u.blocks z ds) (sym next)
              (Linked-frame r.blocks u.blocks r.m.retdata_offset ds
                (λ d m.
                  update_other r.blocks.next_offset offset d (r.m.retdata_offset % 2 ^ 32)
                    (other d m))
                h.linked),
        );
        small = λ d m. elim (eq-cases d offset) [
          | inl e ↦ omega arith
          | inr n ↦ h.small d (ground arith)
        ];
        held = λ d m. elim (eq-cases d offset) [
          | inl e ↦
              let k = size_to_order (pos (length bs + sizeof_retdata + addr_buf_offset)) in
              (
                k,
                b,
                subst (λ z. Owned t z k b) (sym (ap (get_addr a) e ∙ back))
                    (Granted-Owned r.shm (length bs + sizeof_retdata) k b x t g),
              )
          | inr n ↦
              let (l, c, o) = h.held d (ground arith) in
              (
                l,
                c,
                Granted-keeps r.shm (length bs + sizeof_retdata) _ b x t g (get_addr a d) l c o,
              )
        ];
        order = h.order;
        block = h.block;
        owned =
            Granted-keeps r.shm (length bs + sizeof_retdata) _ b x t g a h.order h.block h.owned;
      }
    where
      pos_offset : (x ≡ a) ⊎ (¬ (x ≡ a)) → 0 < offset
      pos_offset (inl e) = absurd (not_message e)
      pos_offset (inr n) = omega arith

-- a handler of a blocking message in an exact heap loads return data of at least one byte:
-- emi_load_retdata ends; if it gives 0, the new block, with its size and bytes, goes before the
-- blocks that the message had, in memory that is in use, and retsize grows by the block with its
-- header; if not, nothing changes but that SUCCEEDED is cleared. The former offset has to be less
-- than 2 ^ 32
pub emi_load_retdata-Loaded :
    (r : Reply) (a : ℕ) (ds bs : List ℕ)
    → HasBlocks r a ds
    → IsHeap r.shm
    → IsMapped r.shm
    → a < 2 ^ 64
    → has_flag r.m.flag mode_block ≡ true
    → 0 < length bs
    → length bs + sizeof_retdata + addr_buf_offset < 2 ^ 31
    → r.m.retdata_offset < 2 ^ 32
    → (ok : Bool) × (u : Reply) × (emi_load_retdata r a bs ≡ some (ok, u)) × Loaded r a ds bs ok u
emi_load_retdata-Loaded r a ds bs h heap mapped top f p small low =
    elim (emi_alloc-cases r.shm (length bs + sizeof_retdata) heap (omega arith) small) [
      | inl null ↦ (
        false,
        fail r,
        load_null r a bs p f null,
        record {
          failed = λ q. (refl, ground arith);
          members = λ q. cc;
          chain = λ q. cc;
          size = λ q. cc;
          total = λ q. cc;
          bytes = λ q. cc;
        },
      )
      | inr (b, x, t, run, g) ↦
          let bound : x < 2 ^ 64 = omega (arith, g.holds, g.in_memory) in
          let u = add_block r t a x (length bs) in
          let c = added_chain r a ds bs h top x t b g bound low in
          let mem = store_bytes u.mem (x + sizeof_retdata) bs in
          (
            true,
            record u { mem = mem },
            load-some r a x t bs p f run,
            record {
              failed = λ q. cc;
              members = λ q. refl;
              chain = λ q. record {
                linked = c.linked;
                small = c.small;
                held = c.held;
                order = c.order;
                block = c.block;
                owned = c.owned;
              };
              size = λ q. update_self r.blocks.size (get_offset a x) (length bs);
              total = λ q. refl;
              bytes = λ q.
                  ap (λ z. load_bytes (length bs) (z + sizeof_retdata) mem)
                    (get_addr-get_offset a x top bound)
                  ∙ load-store u.mem (x + sizeof_retdata) bs;
            },
          )
    ]

-- where the former block lies before the message, or 4 GiB or more behind it, the new block does not
-- lead to it: the former offset is cut to 32 bits
pub emi_load_retdata_cut :
    (r : Reply) (a x : ℕ) (t : Shm) (bs : List ℕ)
    → 0 < length bs
    → has_flag r.m.flag mode_block ≡ true
    → emi_alloc r.shm (length bs + sizeof_retdata) ≡ some (some x, t)
    → 2 ^ 32 ≤ r.m.retdata_offset
    → (u : Reply) × (emi_load_retdata r a bs ≡ some (true, u))
      × (¬ (u.blocks.next_offset u.m.retdata_offset ≡ r.m.retdata_offset))
emi_load_retdata_cut r a x t bs p f e far =
    let u = add_block r t a x (length bs) in
    (
      record u { mem = store_bytes u.mem (x + sizeof_retdata) bs },
      load-some r a x t bs p f e,
      λ q.
          omega (
            arith,
            update_self r.blocks.next_offset (get_offset a x) (r.m.retdata_offset % 2 ^ 32),
          ),
    )
