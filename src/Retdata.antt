-- ===== src/Retdata.antt =====
-- The blocks of return data: how `emi_msg_read_retdata` of src/emi_sock.c links the blocks that it
-- has read, and how `get_next_retdata` of include/emi_msg.h walks them. A block is known by its
-- offset from the message, and the message stands at 0.
pub mod Links
mod Tests
use emilib.Prelude.{
  ℕ, zero, suc, ◌+◌, ◌-◌, ◌≡◌, Bool, true, false, Option, none, some, List, [], ◌∷◌, ltb, ◌==◌,
  ◌||◌, if◌then◌else◌,
}
use emilib.Hlist.{update}

-- `struct emi_retdata` by fields
pub record Blocks : Type 0 where
  pub next_offset : ℕ → ℕ
  pub size : ℕ → ℕ

-- `sizeof(struct emi_retdata)`
abbrev pub sizeof_retdata : ℕ
sizeof_retdata = 16

abbrev pub set_next : Blocks → ℕ → ℕ → Blocks
set_next k block offset = record k { next_offset = update k.next_offset block offset }

-- the loop that sets the offsets; `base` is `retdata_offset`, `left` is `left_size` before the round
unfoldable pub link_blocks : ℕ → ℕ → Blocks → ℕ → ℕ → Option Blocks
link_blocks zero base k block left = none
link_blocks (suc n) base k block left =
    let used = k.size block + sizeof_retdata in
    let k₁ = set_next k block (base + used) in
    elim (ltb used left) [
      | true ↦ link_blocks n base k₁ (base + used) (left - used)
      | false ↦ some (set_next k₁ block 0)
    ]

-- `emi_msg_read_retdata` after the read
unfoldable pub emi_msg_read_retdata : ℕ → Blocks → ℕ → ℕ → Option Blocks
emi_msg_read_retdata fuel k retdata_offset retsize =
    link_blocks fuel retdata_offset k retdata_offset retsize

-- the offset of the block after `block`, or of the first one
abbrev pub offset_after : Blocks → ℕ → Option ℕ → ℕ
offset_after k retdata_offset none = retdata_offset
offset_after k retdata_offset (some b) = k.next_offset b

unfoldable pub get_next_retdata : Blocks → ℕ → ℕ → Option ℕ → Option ℕ
get_next_retdata k retdata_offset retsize block =
    let newdata = offset_after k retdata_offset block in
    if (retsize == 0) || (newdata == 0) then none else some newdata

abbrev pub before : ℕ → Option (List ℕ) → Option (List ℕ)
before d none = none
before d (some ds) = some (d ∷ ds)

-- `for_each_retdata` from the block `block` on
unfoldable pub for_each_retdata : ℕ → Blocks → ℕ → ℕ → Option ℕ → Option (List ℕ)
for_each_retdata zero k retdata_offset retsize block = none
for_each_retdata (suc n) k retdata_offset retsize none = some []
for_each_retdata (suc n) k retdata_offset retsize (some d) = before d (
    for_each_retdata n k retdata_offset retsize
      (get_next_retdata k retdata_offset retsize (some d)))
