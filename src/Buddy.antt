-- ===== src/Buddy.antt =====
-- The buddy tree of src/emi_shbuf.c: the macros, `__init_emi_buf`, `get_emi_buf`,
-- `update_buf_order`, `__alloc_emi_buf` and `__free_emi_buf`. The vector is indexed from `top`; a
-- step above the root, at `top - 1`, is outside of the vector and is the fault `none`.
pub mod Index
pub mod Shape
pub mod Update
pub mod Frame
pub mod Tie
pub mod Get
pub mod Blocks
pub mod Mark
pub mod Alloc
pub mod Release
pub mod Init
pub mod Region
pub mod Ties
mod Tests
use emilib.Prelude.{
  ℕ, zero, suc, ◌+◌, ◌-◌, ◌*◌, ◌/◌, ◌^◌, ◌&&◌, Option, none, some, ◌==◌, if◌then◌else◌,
}
use emilib.Prelude.Int.{ℤ, pos, negsuc, ltb_ℤ, eqb_ℤ, inc_ℤ, is_neg}

pub record EmiBuf : Type 0 where
  pub blk_offset : ℕ
  pub order : ℤ

abbrev pub Vector : Type 0
Vector = ℕ → EmiBuf

abbrev pub order_at : Vector → ℕ → ℤ
order_at v i = (v i).order

-- `v[i] = e`
abbrev pub write : Vector → ℕ → EmiBuf → Vector
write v i e j = if i == j then e else v j

-- `v[i].order = o`
abbrev pub set_order : Vector → ℕ → ℤ → Vector
set_order v i o = write v i (record (v i) { order = o })

abbrev pub parent : ℕ → ℕ
parent i = (i + 1) / 2 - 1

abbrev pub son : ℕ → ℕ
son i = 2 * i + 1

abbrev pub daughter : ℕ → ℕ
daughter i = 2 * i + 2

unfoldable pub sibling : ℕ → ℕ
sibling i = if parent i == parent (i + 1) then i + 1 else i - 1

abbrev pub left_most_offspring : ℕ → ℕ
left_most_offspring order = order - 1

-- FLIP_ORDER: `-(order) - 1`
abbrev pub flip_order : ℤ → ℤ
flip_order (pos k) = negsuc k
flip_order (negsuc k) = pos k

-- one round of `get_emi_buf`: the child to go on with
unfoldable pub next_child : Vector → ℕ → ℕ → ℕ
next_child v order tmp =
    if ltb_ℤ (order_at v (son tmp)) (pos order)
    then daughter tmp
    else if ltb_ℤ (order_at v (daughter tmp)) (pos order)
    then son tmp
    else if ltb_ℤ (order_at v (daughter tmp)) (order_at v (son tmp))
    then daughter tmp
    else son tmp

-- `while(--level > order)`, by the rounds that are left
unfoldable pub get_loop : ℕ → Vector → ℕ → ℕ → ℕ
get_loop zero v order tmp = tmp
get_loop (suc n) v order tmp = get_loop n v order (next_child v order tmp)

-- `none` is NULL
unfoldable pub get_emi_buf : Vector → ℕ → ℕ → Option ℕ
get_emi_buf v order max_order =
    if ltb_ℤ (order_at v 0) (pos order) then none else some (get_loop (max_order - order) v order 0)

-- the order that a round of `update_buf_order` gives the parent
unfoldable pub new_order : ℤ → ℤ → ℤ → ℤ → ℤ
new_order order sib buf old =
    if is_neg sib && is_neg buf
    then flip_order order
    else if eqb_ℤ sib buf
    then inc_ℤ old
    else if ltb_ℤ buf sib
    then sib
    else buf

-- `while(++order < max_order + 1)`, by the rounds that are left; `order` is already incremented
unfoldable pub update_loop : ℕ → Vector → ℕ → ℤ → Option Vector
update_loop zero v buf order = some v
update_loop (suc n) v zero order = none
update_loop (suc n) v (suc b) order =
    let p = parent (suc b) in
    update_loop n
      (set_order v p
        (new_order order (order_at v (sibling (suc b))) (order_at v (suc b)) (order_at v p)))
      p (inc_ℤ order)

-- how often the loop runs: `max_order - order`, or not at all
abbrev pub rounds : ℤ → ℕ → ℕ
rounds (pos k) max_order = max_order - k
rounds (negsuc k) max_order = max_order + suc k

unfoldable pub update_buf_order : Vector → ℕ → ℤ → ℕ → Option Vector
update_buf_order v buf order max_order = update_loop (rounds order max_order) v buf (inc_ℤ order)

-- the inner loop of `__init_emi_buf` on row `i`, by the rounds that are left
unfoldable pub init_row : ℕ → ℕ → ℕ → ℕ → Vector → Vector
init_row zero j i max_order v = v
init_row (suc n) j i max_order v = init_row n (j + 1) i max_order (
    write v (left_most_offspring (2 ^ i) + j)
      (record { blk_offset = j * 2 ^ (max_order - i); order = pos (max_order - i) }))

-- the outer loop, by the rounds that are left
unfoldable pub init_rows : ℕ → ℕ → ℕ → Vector → Vector
init_rows zero i max_order v = v
init_rows (suc n) i max_order v = init_rows n (i + 1) max_order (init_row (2 ^ i) 0 i max_order v)

unfoldable pub init_emi_buf : ℕ → Vector → Vector
unfolding init_rows init_row
init_emi_buf max_order v = init_rows (max_order + 1) 0 max_order v

-- the outer `none` is the fault, the inner one is NULL
unfoldable pub alloc_block : Vector → ℕ → ℕ → Option (Option ℕ × Vector)
alloc_block v order max_order = elim (get_emi_buf v order max_order) [
  | none ↦ some (none, v)
  | some b ↦
      elim (update_buf_order (set_order v b (flip_order (pos order))) b (pos order) max_order) [
        | none ↦ none
        | some w ↦ some (some b, w)
      ]
]

unfoldable pub free_block : Vector → ℕ → ℤ → ℕ → Option Vector
free_block v buf order max_order = update_buf_order (set_order v buf order) buf order max_order
