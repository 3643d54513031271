-- ===== src/Shbuf/Alloc.antt =====
-- `emi_alloc` and `emi_free` of src/emi_shbuf.c: the memory that a caller gets, and what becomes of
-- that of the others.
use emilib.Prelude.{
  ℕ, ◌+◌, ◌-◌, ◌*◌, ◌%◌, ◌^◌, ◌≤◌, ◌<◌, ◌≡◌, refl, ◌∙◌, ◌⊎◌, inl, inr, arith, ◌==◌, pow_pos, some,
  true, false, ltb,
}
use emilib.Prelude.Int.{pos, negsuc}
use emilib.Buddy
use emilib.Buddy.{Vector, order_at, flip_order}
use emilib.Buddy.Index.{In}
use emilib.Buddy.Shape.{Exact}
use emilib.Buddy.Frame.{Depth}
use emilib.Buddy.Get.{Free}
use emilib.Buddy.Blocks.{Used}
use emilib.Buddy.Mark.{no_ties}
use emilib.Buddy.Alloc.{alloc_block-Allocated}
use emilib.Buddy.Init.{Offsets}
use emilib.Buddy.Region.{place, start, Apart, Depth-bounds, Depth-lt, Apart-blocks, start_bounds}
use emilib.Shbuf.{
  Shm, emi_order_num, buddy_shift, addr_buf_offset, to_int, size_to_order, alloc_emi_buf,
  get_alloc_addr, get_buf_addr, set_buf_addr, emi_alloc,
}
use emilib.Shbuf.Order.{size_to_order-least}

-- the tree of the shared memory is exact, and each block is at its place
pub record IsHeap (s : Shm) : Type 0 where
  pub exact : Exact s.vector emi_order_num 0
  pub offsets : Offsets s.vector emi_order_num

abbrev pub bytes : ℕ → ℕ
bytes n = n * 2 ^ buddy_shift

-- where a block of order `k` begins, and how long it is
abbrev pub block_addr : Shm → ℕ → ℕ → ℕ
block_addr s k b = s.base + bytes (start emi_order_num (emi_order_num - k) b)

abbrev pub block_size : ℕ → ℕ
block_size k = bytes (2 ^ k)

offset-start :
    (v : Vector) (m n b : ℕ) → Offsets v m → n ≤ m → Depth n b → (v b).blk_offset ≡ start m n b
unfolding start
offset-start v m n b o h d =
    let e : 2 ^ n - 1 + place n b ≡ b = omega (arith, Depth-bounds n b d, pow_pos n) in
    (rw e at (o n (place n b) h (omega (arith, Depth-bounds n b d))))

-- two blocks that do not lie in one another have no byte in common
Apart-bytes :
    (s : Shm) (k l b c : ℕ)
    → k ≤ emi_order_num
    → l ≤ emi_order_num
    → Depth (emi_order_num - k) b
    → Depth (emi_order_num - l) c
    → ¬ (In b c)
    → ¬ (In c b)
    → Apart (block_addr s k b) (block_size k) (block_addr s l c) (block_size l)
Apart-bytes s k l b c hk hl d e out out' =
    let m = emi_order_num in
    let ek : m - (m - k) ≡ k = omega arith in
    let el : m - (m - l) ≡ l = omega arith in
    let order : (m - k ≤ m - l) ⊎ (m - l ≤ m - k) = omega arith in
    elim order [
      | inl h ↦
          let q = Apart-blocks (m - l) m (m - k) b c h (omega arith) d e out in
          let r = rw (ek, el) at q in omega arith
      | inr h ↦
          let q = Apart-blocks (m - k) m (m - l) c b h (omega arith) e d out' in
          let r = rw (ek, el) at q in omega arith
    ]

-- what a successful `emi_alloc` of `size` bytes has done: block `b` of order `k`, in use by nobody
-- before, is the caller's, and `addr` leads back to it
pub record Granted (s : Shm) (size k b addr : ℕ) (t : Shm) : Type 0 where
  pub used : Used t.vector emi_order_num k b
  pub header : get_buf_addr t addr ≡ b
  pub after_header : addr ≡ block_addr s k b + addr_buf_offset
  pub holds : addr + size ≤ block_addr s k b + block_size k
  pub in_memory : block_addr s k b + block_size k ≤ s.base + bytes (2 ^ emi_order_num)
  pub others :
      (l c : ℕ)
      → Used s.vector emi_order_num l c
      → Used t.vector emi_order_num l c
        × Apart (block_addr s k b) (block_size k) (block_addr s l c) (block_size l)
        × (t.word (block_addr s l c) ≡ s.word (block_addr s l c))
  pub base : t.base ≡ s.base
  pub heap : no_ties s.vector emi_order_num k b (negsuc k) ≡ true → IsHeap t

to_int-pos : (n : ℕ) → n < 2 ^ 31 → to_int (n % 2 ^ 64) ≡ pos n
to_int-pos n h =
    let e : n % 2 ^ 64 % 2 ^ 32 ≡ n = omega arith in
    let q : ltb n (2 ^ 31) ≡ true = ground arith in rw (e, q)

pub alloc_emi_buf-block :
    (v : Vector) (n : ℕ)
    → 0 < n
    → n < 2 ^ 31
    → alloc_emi_buf v (n % 2 ^ 64) ≡ Buddy.alloc_block v (size_to_order (pos n)) emi_order_num
unfolding alloc_emi_buf
alloc_emi_buf-block v n h k =
    let e : (n % 2 ^ 64 == 0) ≡ false = ground arith in rw (e, to_int-pos n k)

emi_alloc-some :
    (s : Shm) (size b : ℕ) (w : Vector)
    → 0 < size
    → size + addr_buf_offset < 2 ^ 31
    → Buddy.alloc_block s.vector (size_to_order (pos (size + addr_buf_offset))) emi_order_num
      ≡ some (some b, w)
    → let u = record s { vector = w } in
      emi_alloc s size ≡ some (some (get_alloc_addr u b), set_buf_addr u (get_alloc_addr u b) b)
unfolding emi_alloc
emi_alloc-some s size b w h k e =
    let q : ltb 0 size ≡ true = ground arith in
    rw (q, emi_alloc, alloc_emi_buf-block s.vector (size + addr_buf_offset) (omega arith) k, e)

header_self : (s : Shm) (addr b : ℕ) → b < 2 ^ 32 → get_buf_addr (set_buf_addr s addr b) addr ≡ b
header_self s addr b h = ground arith

header_other :
    (s : Shm) (addr b a : ℕ)
    → ¬ (addr - addr_buf_offset ≡ a)
    → (set_buf_addr s addr b).word a ≡ s.word a
header_other s addr b a n = ground arith

index-lt : (n b : ℕ) → n ≤ emi_order_num → Depth n b → b < 2 ^ 32
index-lt n b h d = omega (arith, Depth-lt emi_order_num n b h d)

-- a request that some free block can serve is granted
pub emi_alloc-Granted :
    (s : Shm) (size b₀ : ℕ)
    → let k = size_to_order (pos (size + addr_buf_offset)) in
      IsHeap s
      → 0 < size
      → size + addr_buf_offset < 2 ^ 31
      → k ≤ emi_order_num
      → Free s.vector emi_order_num k b₀
      → (b addr : ℕ) × (t : Shm) × (emi_alloc s size ≡ some (some addr, t))
        × Granted s size k b addr t
emi_alloc-Granted s size b₀ heap pos_size small le f =
    let m = emi_order_num in
    let n = size + addr_buf_offset in
    let k = size_to_order (pos n) in
    let (b, w, run, a) = alloc_block-Allocated s.vector m k b₀ le heap.exact f in
    let d : Depth (m - k) b = a.used.depth in
    let u = record s { vector = w } in
    let addr = get_alloc_addr u b in
    let at : addr ≡ block_addr s k b + addr_buf_offset =
      (let q = a.offsets b ∙ offset-start s.vector m (m - k) b heap.offsets (omega arith) d in
        omega arith) in
    let ek : m - (m - k) ≡ k = omega arith in
    (
      b,
      addr,
      set_buf_addr u addr b,
      emi_alloc-some s size b w pos_size small run,
      record {
        used = a.used;
        header = header_self u addr b (index-lt (m - k) b (omega arith) d);
        after_header = at;
        holds = omega (arith, (size_to_order-least n (omega arith) small).0);
        in_memory = (let q = rw ek at (start_bounds m (m - k) b (omega arith) d) in omega arith);
        others = λ l c x.
            let (y, out, out') = a.others l c x in
            let apart = Apart-bytes s k l b c le x.small d x.depth out out' in
            (
              y,
              apart,
              header_other u addr b (block_addr s l c)
                  (λ e. omega (arith, apart, at, pow_pos k, pow_pos l)),
            );
        base = refl;
        heap = λ t. record {
          exact = a.exact t;
          offsets = λ i j p q. a.offsets _ ∙ heap.offsets i j p q;
        };
      },
    )
