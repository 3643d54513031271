-- ===== src/Buddy/Ties.antt =====
-- When src/emi_shbuf.c keeps the buddy tree exact, and when not: the headline statements on
-- `__alloc_emi_buf` and `__free_emi_buf`.
use emilib.Prelude.{ℕ, ◌≤◌, ◌≡◌, inl, inr, ◌↔◌, Bool, true, false, some, Bool-cases}
use emilib.Prelude.Int.{pos, negsuc}
use emilib.Buddy.{Vector, order_at, flip_order, alloc_block, free_block}
use emilib.Buddy.Shape.{Exact}
use emilib.Buddy.Get.{Free}
use emilib.Buddy.Blocks.{Used}
use emilib.Buddy.Mark.{no_ties}
use emilib.Buddy.Alloc.{alloc_block-Allocated}
use emilib.Buddy.Release.{free_block-Released}

iff_of : (b : Bool) {P : Type 0} → (b ≡ true → P) → (b ≡ false → ¬ P) → P ↔ (b ≡ true)
iff_of b yes_case no_case =
    (λ p. elim (Bool-cases b) [ inl t ↦ t | inr f ↦ absurd (no_case f p) ], yes_case)

-- an allocation from an exact tree leaves an exact tree exactly when no two siblings on the way up
-- from the block then have the same order, but for both wholly free or both used up
pub alloc_block-Exact_iff :
    (v : Vector) (m order b : ℕ)
    → order ≤ m
    → Exact v m 0
    → Free v m order b
    → (c : ℕ) × (w : Vector) × (alloc_block v order m ≡ some (some c, w))
      × (Exact w m 0 ↔ (no_ties v m order c (negsuc order) ≡ true))
alloc_block-Exact_iff v m order b le x f =
    let (c, w, run, a) = alloc_block-Allocated v m order b le x f in
    (c, w, run, iff_of _ a.exact a.broken)

-- so does giving back a block that is in use
pub free_block-Exact_iff :
    (v : Vector) (m k b : ℕ)
    → Exact v m 0
    → Used v m k b
    → (w : Vector) × (free_block v b (flip_order (order_at v b)) m ≡ some w)
      × (Exact w m 0 ↔ (no_ties v m k b (pos k) ≡ true))
free_block-Exact_iff v m k b x u =
    let (w, run, r) = free_block-Released v m k b x u in (w, run, iff_of _ r.exact r.broken)
