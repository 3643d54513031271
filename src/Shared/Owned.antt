-- ===== src/Shared/Owned.antt =====
-- Who owns a block of the shared memory of src/emi_shbuf.c, and that the allocator keeps that.
use emilib.Prelude.{
  ℕ, ◌+◌, ◌-◌, ◌^◌, ◌≤◌, ◌<◌, ◌≡◌, sym, ap, ◌∙◌, ◌⊎◌, inl, inr, arith, some, none, Bool-cases, leb,
}
use emilib.Prelude.Int.{pos, ltb_ℤ}
use emilib.Buddy.{order_at}
use emilib.Buddy.Get.{get_emi_buf-Free}
use emilib.Buddy.Blocks.{Used}
use emilib.Buddy.Alloc.{alloc_block-none}
use emilib.Message.{get_offset, get_addr}
use emilib.Shbuf.{Shm, emi_order_num, addr_buf_offset, size_to_order, get_buf_addr, emi_alloc}
use emilib.Shbuf.Alloc.{IsHeap, block_addr, block_size, Granted, emi_alloc-Granted}
use emilib.Shbuf.Free.{emi_alloc-null, emi_alloc-none}

pub get_addr-get_offset : (a x : ℕ) → a < 2 ^ 64 → x < 2 ^ 64 → get_addr a (get_offset a x) ≡ x
get_addr-get_offset a x h k = omega arith

-- the memory at `a` is that of block `b` of order `k`, which is in use
pub record Owned (s : Shm) (a k b : ℕ) : Type 0 where
  pub used : Used s.vector emi_order_num k b
  pub header : get_buf_addr s a ≡ b
  pub place : a ≡ block_addr s k b + addr_buf_offset

-- the `n` bytes from `x` on lie in a block that is in use, behind its word
pub record Room (s : Shm) (x n : ℕ) : Type 0 where
  pub order : ℕ
  pub block : ℕ
  pub used : Used s.vector emi_order_num order block
  pub from : block_addr s order block + addr_buf_offset ≤ x
  pub to : x + n ≤ block_addr s order block + block_size order

-- what `emi_alloc` gives is owned, and others keep what they own
pub Granted-Owned : (s : Shm) (size k b x : ℕ) (t : Shm) → Granted s size k b x t → Owned t x k b
Granted-Owned s size k b x t g = record {
  used = g.used;
  header = g.header;
  place = omega (arith, g.after_header, g.base);
}

pub Granted-keeps :
    (s : Shm) (size k b x : ℕ) (t : Shm)
    → Granted s size k b x t
    → (a l c : ℕ) → Owned s a l c
    → Owned t a l c
Granted-keeps s size k b x t g a l c o =
    let (used, apart, word) = g.others l c o.used in
    let same : block_addr t l c ≡ block_addr s l c = omega (arith, g.base) in
    let at : a - addr_buf_offset ≡ block_addr s l c = omega (arith, o.place) in
    record {
      used = used;
      header = ap t.word at ∙ word ∙ ap s.word (sym at) ∙ o.header;
      place = omega (arith, same, o.place);
    }

-- `emi_alloc` of at least one byte grants memory or returns NULL
pub emi_alloc-cases :
    (s : Shm) (size : ℕ)
    → IsHeap s
    → 0 < size
    → size + addr_buf_offset < 2 ^ 31
    → (emi_alloc s size ≡ some (none, s))
      ⊎ ((b x : ℕ) × (t : Shm) × (emi_alloc s size ≡ some (some x, t))
          × Granted s size (size_to_order (pos (size + addr_buf_offset))) b x t)
emi_alloc-cases s size heap h small =
    let k = size_to_order (pos (size + addr_buf_offset)) in
    elim (Bool-cases (leb k emi_order_num)) [
      | inr gt ↦ inl (emi_alloc-null s size heap h small (inl (ground arith)))
      | inl le ↦ elim (Bool-cases (ltb_ℤ (order_at s.vector 0) (pos k))) [
        | inl few ↦
            inl (emi_alloc-none s size h small (alloc_block-none s.vector emi_order_num k few))
        | inr enough ↦
            let (b₀, _, f) =
              get_emi_buf-Free s.vector emi_order_num k (ground arith) heap.exact enough in
            inr (emi_alloc-Granted s size b₀ heap h small (ground arith) f)
      ]
    ]
