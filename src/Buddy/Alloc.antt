-- ===== src/Buddy/Alloc.antt =====
-- `__alloc_emi_buf` of src/emi_shbuf.c: which block it hands out, and what it leaves alone.
use emilib.Prelude.{
  ℕ, ◌-◌, ◌≤◌, ◌<◌, ◌≡◌, refl, sym, ap, ◌∙◌, inl, inr, true, false, arith, Bool-cases, some, none,
  ◌↔◌,
}
use emilib.Prelude.Int.{pos, negsuc, ltb_ℤ}
use emilib.Buddy.{Vector, order_at, set_order, get_emi_buf, update_buf_order, alloc_block}
use emilib.Buddy.Index.{In, In-trans, le_of_In}
use emilib.Buddy.Shape.{Below-frame, Exact}
use emilib.Buddy.Get.{Free, get_emi_buf-Free, Ascent-enough}
use emilib.Buddy.Tie.{Ascent-Depth}
use emilib.Buddy.Blocks.{Used, Used-frame, not_In-Used, not_Below-Used}
use emilib.Buddy.Mark.{no_ties, Switch, Switched, update-Switched}

-- what an allocation of order `k` that returned `b` and left `w` has done
pub record Allocated (v : Vector) (m k b : ℕ) (w : Vector) : Type 0 where
  pub was : Free v m k b
  pub used : Used w m k b
  pub others : (l c : ℕ) → Used v m l c → Used w m l c × (¬ (In b c)) × (¬ (In c b))
  pub offsets : (j : ℕ) → (w j).blk_offset ≡ (v j).blk_offset
  pub exact : no_ties v m k b (negsuc k) ≡ true → Exact w m 0
  pub broken : no_ties v m k b (negsuc k) ≡ false → ¬ (Exact w m 0)

Free-Switch : (v : Vector) (m k b : ℕ) → k ≤ m → Free v m k b → Switch v m k b (pos k) (negsuc k)
Free-Switch v m k b le f = record {
  below = f.below;
  path = f.path;
  small = le;
  range = omega arith;
  block = inr refl;
  changed = inr (λ p. cc);
}

Switched-Allocated :
    (v w : Vector) (m k b : ℕ)
    → k ≤ m
    → Free v m k b
    → Switched v m k b (negsuc k) w
    → Allocated v m k b w
Switched-Allocated v w m k b le f s =
    let d = Ascent-Depth v (m - k) k b (pos k) f.path in
    record {
      was = f;
      used = record {
        mark = s.mark;
        below = Below-frame v w k b (λ j h r. ap (λ e. e.order) (s.others j (outside j h))) f.below;
        depth = d;
        small = le;
      };
      others = λ l c u.
          let out = not_In-Used v m k l c b u f in
          (
            Used-frame v w m l c (λ j r. ap (λ e. e.order) (s.others j (λ t. out (In-trans r t))))
                u,
            not_Below-Used v m k l b c le d f.below u (λ e.
                let q : pos k ≡ negsuc l = sym f.whole ∙ ap (order_at v) (sym e) ∙ u.mark in cc),
            out,
          );
      offsets = s.offsets;
      exact = s.exact;
      broken = s.broken;
    }
  where
    outside : (j : ℕ) → b < j → ¬ (In j b)
    outside j h r = omega (arith, le_of_In r)

alloc_block-some :
    (v w : Vector) (m order b : ℕ)
    → get_emi_buf v order m ≡ some b
    → update_buf_order (set_order v b (negsuc order)) b (pos order) m ≡ some w
    → alloc_block v order m ≡ some (some b, w)
unfolding alloc_block
alloc_block-some v w m order b e f = rw (e, alloc_block, f)

pub alloc_block-none :
    (v : Vector) (m order : ℕ)
    → ltb_ℤ (order_at v 0) (pos order) ≡ true
    → alloc_block v order m ≡ some (none, v)
unfolding alloc_block get_emi_buf
alloc_block-none v m order e = rw (e, alloc_block, get_emi_buf)

-- an exact tree that has a free block of the order hands one out
pub alloc_block-Allocated :
    (v : Vector) (m order b : ℕ)
    → order ≤ m
    → Exact v m 0
    → Free v m order b
    → (c : ℕ) × (w : Vector) × (alloc_block v order m ≡ some (some c, w)) × Allocated v m order c w
alloc_block-Allocated v m order b le x f =
    let enough =
      Ascent-enough (m - order) order order v b (pos order) (omega arith) f.path (sym f.whole)
        (ground arith) in
    let (c, found, g) = get_emi_buf-Free v m order le x enough in
    let (w, run, s) =
      update-Switched v m order c (pos order) (negsuc order) (Free-Switch v m order c le g) in
    (c, w, alloc_block-some v w m order c found run, Switched-Allocated v w m order c le g s)

-- NULL is returned, and the tree left alone, exactly when the tree has no free block of the order
pub alloc_block-null_iff :
    (v : Vector) (m order : ℕ)
    → order ≤ m
    → Exact v m 0
    → (alloc_block v order m ≡ some (none, v)) ↔ ((b : ℕ) → ¬ (Free v m order b))
alloc_block-null_iff v m order le x = (
  λ null b f.
      let (c, w, run, a) = alloc_block-Allocated v m order b le x f in let q = sym run ∙ null in cc,
  λ full. elim (Bool-cases (ltb_ℤ (order_at v 0) (pos order))) [
    | inl few ↦ alloc_block-none v m order few
    | inr enough ↦ (let (c, found, g) = get_emi_buf-Free v m order le x enough in absurd (full c g))
  ],
)
