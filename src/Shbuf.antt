-- ===== src/Shbuf.antt =====
-- The allocator on top of the buddy tree, src/emi_shbuf.c: `size_to_order`, `init_emi_buf`,
-- `alloc_emi_buf`, `free_emi_buf`, `emi_alloc` and `emi_free`. The lock that `emi_alloc` and
-- `emi_free` hold makes each of them one step.
pub mod Order
pub mod Alloc
pub mod Free
mod Tests
use emilib.Prelude.{
  ℕ, zero, suc, ◌+◌, ◌-◌, ◌*◌, ◌/◌, ◌%◌, ◌^◌, Option, none, some, ◌==◌, ltb, if◌then◌else◌,
}
use emilib.Prelude.Int.{ℤ, pos, negsuc}
use emilib.Buddy
use emilib.Buddy.{Vector, flip_order}

abbrev pub emi_order_num : ℕ
emi_order_num = 10

abbrev pub buddy_shift : ℕ
buddy_shift = 8

-- ADDR_BUF_OFFSET: `sizeof(eu32)`
abbrev pub addr_buf_offset : ℕ
addr_buf_offset = 4

-- a `size_t` as the `int` that a call takes it for
abbrev pub to_int : ℕ → ℤ
to_int n = let w = n % 2 ^ 32 in if ltb w (2 ^ 31) then pos w else negsuc (2 ^ 32 - w - 1)

-- `while(size > 0)` of `size_to_order`, by the rounds that are left
unfoldable pub order_loop : ℕ → ℕ → ℕ → ℕ
order_loop zero size order = order
order_loop (suc n) size order =
    let rest = order_loop n (size / 2) (order + 1) in if size == 0 then order else rest

-- an `int` has 31 bits; `(size - 1) >> BUDDY_SHIFT` is no more than 0 where `size` is
unfoldable pub size_to_order : ℤ → ℕ
unfolding order_loop
size_to_order (pos size) = order_loop 31 ((size - 1) / 2 ^ buddy_shift) 0
size_to_order (negsuc size) = 0

unfoldable pub init_emi_buf : Vector → Vector
init_emi_buf top = Buddy.init_emi_buf emi_order_num top

-- the outer `none` is the fault, the inner one is NULL
unfoldable pub alloc_emi_buf : Vector → ℕ → Option (Option ℕ × Vector)
alloc_emi_buf v size =
    if size == 0
    then some (none, v)
    else Buddy.alloc_block v (size_to_order (to_int size)) emi_order_num

unfoldable pub free_emi_buf : Vector → ℕ → Option Vector
free_emi_buf v buf = Buddy.free_block v buf (flip_order (v buf).order) emi_order_num

-- the shared memory: where it starts, the vector, and the words before the allocated data, by their
-- addresses
pub record Shm : Type 0 where
  pub base : ℕ
  pub vector : Vector
  pub word : ℕ → ℕ

-- GET_ALLOC_ADDR
abbrev pub get_alloc_addr : Shm → ℕ → ℕ
get_alloc_addr s buf = (s.vector buf).blk_offset * 2 ^ buddy_shift + s.base + addr_buf_offset

-- GET_BUF_ADDR
abbrev pub get_buf_addr : Shm → ℕ → ℕ
get_buf_addr s addr = s.word (addr - addr_buf_offset)

abbrev pub set_buf_addr : Shm → ℕ → ℕ → Shm
set_buf_addr s addr buf = record s {
  word = λ a. if addr - addr_buf_offset == a then buf % 2 ^ 32 else s.word a;
}

unfoldable pub emi_alloc : Shm → ℕ → Option (Option ℕ × Shm)
emi_alloc s size =
    if ltb 0 size
    then (elim (alloc_emi_buf s.vector ((size + addr_buf_offset) % 2 ^ 64)) [
      | none ↦ none
      | some (none, v) ↦ some (none, record s { vector = v })
      | some (some buf, v) ↦
          let t = record s { vector = v } in
          let addr = get_alloc_addr t buf in some (some addr, set_buf_addr t addr buf)
    ])
    else some (none, s)

unfoldable pub emi_free : Shm → ℕ → Option Shm
emi_free s addr = elim (free_emi_buf s.vector (get_buf_addr s addr)) [
  | none ↦ none
  | some v ↦ some (record s { vector = v })
]
