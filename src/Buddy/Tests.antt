-- ===== src/Buddy/Tests.antt =====
-- Runs of the buddy tree, and the theorems at concrete trees.
use emilib.Prelude.{ℕ, ◌≡◌, refl, List, [], ◌∷◌, Option, some, none, arith, true}
use mathlib.Core.Option
use emilib.Prelude.Int.{pos, negsuc}
use emilib.Buddy.{
  Vector, order_at, flip_order, alloc_block, free_block, init_emi_buf, sibling, next_child,
  get_loop, get_emi_buf, new_order, update_loop, update_buf_order,
}
use emilib.Prelude.{◌↔◌, inl, inr, ◌==◌, if◌then◌else◌}
use emilib.Buddy.Shape.{combine, Exact, block, split}
use emilib.Buddy.Get.{Free, get_emi_buf-Free}
use emilib.Buddy.Blocks.{Used}
use emilib.Buddy.Mark.{no_ties}
use emilib.Buddy.Alloc.{Allocated, alloc_block-Allocated, alloc_block-null_iff}
use emilib.Buddy.Ties.{alloc_block-Exact_iff, free_block-Exact_iff}
use emilib.Buddy.Init.{Offsets, Rows-Exact, init_emi_buf-Rows}

program : Unit {0}
unfolding alloc_block free_block init_emi_buf sibling next_child get_loop get_emi_buf new_order
    update_loop update_buf_order
program = tt

-- memory that was not cleared
abbrev raw : Vector
raw i = record { blk_offset = 7; order = pos 9 }

abbrev tree : ℕ → Vector
tree m = init_emi_buf m raw

-- what an allocation of each order returns, one after the other; then the tree
abbrev allocs : List ℕ → ℕ → Vector → Option (List (Option ℕ) × Vector)
allocs [] m v = some ([], v)
allocs (k ∷ ks) m v = elim (alloc_block v k m) [
  | none ↦ none
  | some (b, w) ↦ Option.map (λ (bs, u). (b ∷ bs, u)) (allocs ks m w)
]

abbrev returned : List ℕ → ℕ → Option (List (Option ℕ))
returned ks m = Option.map (λ (bs, u). bs) (allocs ks m (tree m))

-- the smallest block that is large enough is taken
best_fit : returned (0 ∷ 1 ∷ 0 ∷ 0 ∷ []) 2 ≡ some (some 3 ∷ some 2 ∷ some 4 ∷ none ∷ [])
unfolding program
best_fit = refl

-- three blocks of order 0 of a tree of order 2 are taken and the first one is given back; the parent
-- of the third one, entry 2, is then handed out for a block of order 1
abbrev overlap : Option (Option ℕ)
overlap = elim (allocs (0 ∷ 0 ∷ 0 ∷ []) 2 (tree 2)) [
  | none ↦ none
  | some (bs, v) ↦ elim (free_block v 3 (flip_order (order_at v 3)) 2) [
    | none ↦ none
    | some w ↦ Option.map (λ (b, u). b) (alloc_block w 1 2)
  ]
]

taken : returned (0 ∷ 0 ∷ 0 ∷ []) 2 ≡ some (some 3 ∷ some 4 ∷ some 5 ∷ [])
unfolding program
taken = refl

overlap_result : overlap ≡ some (some 2)
unfolding program
overlap_result = refl

fresh : (m : ℕ) → Exact (tree m) m 0 × (order_at (tree m) 0 ≡ pos m) × Offsets (tree m) m
fresh m = Rows-Exact m (tree m) (init_emi_buf-Rows m raw)

fresh-Free : (b : ℕ) × (get_emi_buf (tree 2) 0 2 ≡ some b) × Free (tree 2) 2 0 b
fresh-Free =
    let (x, top, o) = fresh 2 in get_emi_buf-Free (tree 2) 2 0 (omega arith) x (rw top refl)

alloc_block-Allocated_example :
    (c : ℕ) × (w : Vector) × (alloc_block (tree 2) 0 2 ≡ some (some c, w))
    × Allocated (tree 2) 2 0 c w
alloc_block-Allocated_example =
    alloc_block-Allocated (tree 2) 2 0 fresh-Free.0 (omega arith) (fresh 2).0 fresh-Free.2

alloc_block-null_iff_example :
    (alloc_block (tree 2) 1 2 ≡ some (none, tree 2)) ↔ ((b : ℕ) → ¬ (Free (tree 2) 2 1 b))
alloc_block-null_iff_example = alloc_block-null_iff (tree 2) 2 1 (omega arith) (fresh 2).0

alloc_block-Exact_iff_example :
    (c : ℕ) × (w : Vector) × (alloc_block (tree 2) 0 2 ≡ some (some c, w))
    × (Exact w 2 0 ↔ (no_ties (tree 2) 2 0 c (negsuc 0) ≡ true))
alloc_block-Exact_iff_example =
    alloc_block-Exact_iff (tree 2) 2 0 fresh-Free.0 (omega arith) (fresh 2).0 fresh-Free.2

-- the left half of a tree of order 1 is in use
abbrev left_used : Vector
left_used i = record { blk_offset = 0; order = if i == 1 then negsuc 0 else pos 0 }

left_used-Exact : Exact left_used 1 0
unfolding combine
left_used-Exact = split refl (block (inr refl) tt) (block (inl refl) tt)

left_used-Used : Used left_used 1 0 1
left_used-Used = record {
  mark = refl;
  below = tt;
  depth = (omega arith, refl);
  small = omega arith;
}

free_block-Exact_iff_example :
    (w : Vector) × (free_block left_used 1 (flip_order (order_at left_used 1)) 1 ≡ some w)
    × (Exact w 1 0 ↔ (no_ties left_used 1 0 1 (pos 0) ≡ true))
free_block-Exact_iff_example = free_block-Exact_iff left_used 1 0 1 left_used-Exact left_used-Used
