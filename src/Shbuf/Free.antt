-- ===== src/Shbuf/Free.antt =====
-- `init_emi_buf`, `emi_free` and the refusals of `emi_alloc` of src/emi_shbuf.c.
use emilib.Prelude.{
  ℕ, ◌+◌, ◌-◌, ◌^◌, ◌<◌, ◌≡◌, refl, ◌∙◌, ◌⊎◌, inl, inr, arith, some, none, true, ltb, leb,
  Bool-cases,
}
use emilib.Prelude.Int.{ℤ, pos, negsuc, ltb_ℤ}
use emilib.Buddy
use emilib.Buddy.{Vector, order_at, flip_order}
use emilib.Buddy.Shape.{Exact-InRange, InRange}
use emilib.Buddy.Get.{Free, Exact-Below}
use emilib.Buddy.Blocks.{Used}
use emilib.Buddy.Mark.{no_ties}
use emilib.Buddy.Alloc.{alloc_block-null_iff, alloc_block-none}
use emilib.Buddy.Release.{Released, free_block-Released, free_block-eq-none}
use emilib.Buddy.Init.{init_emi_buf-Rows, Rows-Exact}
use emilib.Buddy.Region.{Depth-lt}
use emilib.Shbuf.{
  Shm, emi_order_num, addr_buf_offset, size_to_order, init_emi_buf, free_emi_buf, get_buf_addr,
  emi_alloc, emi_free,
}
use emilib.Shbuf.Alloc.{IsHeap, alloc_emi_buf-block}

-- `init_emi_buf` makes any memory an exact heap that is one free block of the largest order
pub init_emi_buf-IsHeap :
    (s : Shm)
    → let t = record s { vector = init_emi_buf s.vector } in
      IsHeap t × Free t.vector emi_order_num emi_order_num 0
unfolding init_emi_buf
init_emi_buf-IsHeap s =
    let rows = init_emi_buf-Rows emi_order_num s.vector in
    let (x, top, o) = Rows-Exact emi_order_num (init_emi_buf s.vector) rows in
    (
      record { exact = x; offsets = o },
      record { whole = top; below = Exact-Below _ emi_order_num 0 x top; path = refl },
    )

-- what `emi_free` of the memory of block `b`, of order `k`, that leaves `t` has done
pub record Freed (s : Shm) (k b : ℕ) (t : Shm) : Type 0 where
  pub released : Released s.vector emi_order_num k b t.vector
  pub heap : no_ties s.vector emi_order_num k b (pos k) ≡ true → IsHeap t
  pub words : (a : ℕ) → t.word a ≡ s.word a
  pub base : t.base ≡ s.base

emi_free-some :
    (s : Shm) (addr b : ℕ) (w : Vector)
    → get_buf_addr s addr ≡ b
    → Buddy.free_block s.vector b (flip_order (order_at s.vector b)) emi_order_num ≡ some w
    → emi_free s addr ≡ some (record s { vector = w })
unfolding emi_free free_emi_buf
emi_free-some s addr b w h e = rw (h, emi_free, free_emi_buf, e)

emi_free-none :
    (s : Shm) (addr b : ℕ)
    → get_buf_addr s addr ≡ b
    → Buddy.free_block s.vector b (flip_order (order_at s.vector b)) emi_order_num ≡ none
    → emi_free s addr ≡ none
unfolding emi_free free_emi_buf
emi_free-none s addr b h e = rw (h, emi_free, free_emi_buf, e)

-- memory that is in use is given back, and all other memory in use stays so
pub emi_free-Freed :
    (s : Shm) (addr k b : ℕ)
    → IsHeap s
    → Used s.vector emi_order_num k b
    → get_buf_addr s addr ≡ b
    → (t : Shm) × (emi_free s addr ≡ some t) × Freed s k b t
emi_free-Freed s addr k b heap u h =
    let (w, run, r) = free_block-Released s.vector emi_order_num k b heap.exact u in
    (
      record s { vector = w },
      emi_free-some s addr b w h run,
      record {
        released = r;
        heap = λ t. record {
          exact = r.exact t;
          offsets = λ i j p q. r.offsets _ ∙ heap.offsets i j p q;
        };
        words = λ a. refl;
        base = refl;
      },
    )

-- giving the same memory back a second time leaves the vector at its front
pub emi_free-emi_free :
    (s : Shm) (addr k b : ℕ)
    → IsHeap s
    → Used s.vector emi_order_num k b
    → get_buf_addr s addr ≡ b
    → (t : Shm) × (emi_free s addr ≡ some t) × (emi_free t addr ≡ none)
emi_free-emi_free s addr k b heap u h =
    let (t, run, f) = emi_free-Freed s addr k b heap u h in
    (
      t,
      run,
      emi_free-none t addr b (f.words _ ∙ h) (
          free_block-eq-none t.vector emi_order_num k b
            (Depth-lt emi_order_num (emi_order_num - k) b (omega arith) u.depth) f.released.whole),
    )

pub emi_alloc-none :
    (s : Shm) (size : ℕ)
    → 0 < size
    → size + addr_buf_offset < 2 ^ 31
    → Buddy.alloc_block s.vector (size_to_order (pos (size + addr_buf_offset))) emi_order_num
      ≡ some (none, s.vector)
    → emi_alloc s size ≡ some (none, s)
unfolding emi_alloc
emi_alloc-none s size h k e =
    let q : ltb 0 size ≡ true = ground arith in
    rw (q, emi_alloc, alloc_emi_buf-block s.vector (size + addr_buf_offset) (omega arith) k, e)

pub too_large : (m k : ℕ) (o : ℤ) → InRange m o → m < k → ltb_ℤ o (pos k) ≡ true
too_large m k (pos a) r h = ground arith
too_large m k (negsuc a) r h = refl

-- `emi_alloc` returns NULL, and changes nothing, where no free block is of the order that holds the
-- size and the word before it
pub emi_alloc-null :
    (s : Shm) (size : ℕ)
    → IsHeap s
    → 0 < size
    → size + addr_buf_offset < 2 ^ 31
    → (emi_order_num < size_to_order (pos (size + addr_buf_offset)))
      ⊎ ((b : ℕ) → ¬ (Free s.vector emi_order_num (size_to_order (pos (size + addr_buf_offset))) b))
    → emi_alloc s size ≡ some (none, s)
emi_alloc-null s size heap h k full = emi_alloc-none s size h k (elim full [
  | inl large ↦
      alloc_block-none s.vector emi_order_num _
        (too_large emi_order_num _ (order_at s.vector 0) (Exact-InRange heap.exact) large)
  | inr used ↦
      elim (Bool-cases (leb (size_to_order (pos (size + addr_buf_offset))) emi_order_num)) [
        | inl le ↦ (alloc_block-null_iff s.vector emi_order_num _ (ground arith) heap.exact).1 used
        | inr gt ↦ alloc_block-none s.vector emi_order_num _ (
            too_large emi_order_num _ (order_at s.vector 0) (Exact-InRange heap.exact)
              (ground arith))
      ]
])
