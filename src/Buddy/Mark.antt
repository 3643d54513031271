-- ===== src/Buddy/Mark.antt =====
-- Marking one block, as `__alloc_emi_buf` and `__free_emi_buf` of src/emi_shbuf.c do, and the update
-- of the tree that follows.
use emilib.Prelude.{
  ℕ, suc, ◌+◌, ◌-◌, ◌≤◌, ◌≡◌, refl, sym, ap, ◌∙◌, ◌⊎◌, inl, inr, Bool, true, false, arith, same_run,
  some,
}
use emilib.Prelude.Int.{ℤ, pos, negsuc}
use emilib.Buddy.{Vector, order_at, set_order, update_buf_order}
use emilib.Buddy.Index.{In, here}
use emilib.Buddy.Shape.{Below, Below-frame, Exact, block, InRange, Ascent, Ascent-write}
use emilib.Buddy.Frame.{write-other, update_loop-Above}
use emilib.Buddy.Update.{
  untied, untied-write, Ready, Changed, update_loop-Exact, order_at-set_order,
  order_at-set_order_self,
}
use emilib.Buddy.Tie.{Ascent-Depth, update_loop-tie}

-- the ties that the way up from a block of order `k`, once its order is `o`, meets
abbrev pub no_ties : Vector → ℕ → ℕ → ℕ → ℤ → Bool
no_ties v m k b o = untied (m - k) v k b o

-- block `b` of order `k` goes from `old` to `new`: from free to used, or back
pub record Switch (v : Vector) (m k b : ℕ) (old new : ℤ) : Type 0 where
  pub below : Below v k b
  pub path : Ascent v (m - k) k b old
  pub small : k ≤ m
  pub range : InRange k old
  pub block : (new ≡ pos k) ⊎ (new ≡ negsuc k)
  pub changed : Changed k old new

-- what the update leaves: the orders of the entries that are not above `b`, and, as there are no
-- ties or some, an exact tree or none
pub record Switched (v : Vector) (m k b : ℕ) (new : ℤ) (w : Vector) : Type 0 where
  pub mark : order_at w b ≡ new
  pub others : (j : ℕ) → ¬ (In j b) → w j ≡ v j
  pub offsets : (j : ℕ) → (w j).blk_offset ≡ (v j).blk_offset
  pub exact : no_ties v m k b new ≡ true → Exact w m 0
  pub broken : no_ties v m k b new ≡ false → ¬ (Exact w m 0)

-- marking a block leaves what lies under it
mark-Below : (v : Vector) (k b : ℕ) (o : ℤ) → Below v k b → Below (set_order v b o) k b
mark-Below v k b o =
    Below-frame v (set_order v b o) k b (λ j h r. order_at-set_order v b j o (λ t. omega arith))

module _ (v : Vector) (m k b : ℕ) (old new : ℤ) (s : Switch v m k b old new) where
  u : Vector
  u = set_order v b new

  at_b : order_at u b ≡ new
  unfolding u
  at_b = order_at-set_order_self v b new

  -- marking the block gives the loop what it starts from
  mark-Ready : Ready (m - k) u k b old
  unfolding u
  mark-Ready = record {
    exact = block (rw at_b s.block) (mark-Below v k b new s.below);
    path = Ascent-write v (m - k) k b b _ old (here refl) s.path;
    range = s.range;
    changed = rw at_b s.changed;
  }

  -- the ties are those of the vector before the mark
  mark-ties : untied (m - k) u k b (order_at u b) ≡ no_ties v m k b new
  unfolding u
  mark-ties = rw at_b (untied-write (m - k) v k b b new new old (here refl) s.path)

  pub update-Switched :
      (w : Vector) × (update_buf_order (set_order v b new) b (pos k) m ≡ some w)
      × Switched v m k b new w
  unfolding update_buf_order u
  update-Switched =
      let (w, run, above) =
        update_loop-Above (m - k) u b (pos (suc k)) (Ascent-Depth v (m - k) k b old s.path) in
      let e : k + (m - k) ≡ m = (let le = s.small in omega arith) in
      (
        w,
        run,
        record {
          mark = ap (λ f. f.order) (above.others b (inl refl)) ∙ at_b;
          others =
              λ j out. above.others j (inr out) ∙ write-other v b j _ (λ e. out (here (sym e)));
          offsets = λ j. above.offsets j ∙ ground arith;
          exact = λ t.
              let (w', run', x) =
                update_loop-Exact (m - k) m u k b old e mark-Ready (mark-ties ∙ t) in
              same_run (λ z. Exact z m 0) _ w' w run' run x;
          broken = λ t.
              let (w', run', x) =
                update_loop-tie (m - k) m u k b old e mark-Ready (mark-ties ∙ t) in
              same_run (λ z. ¬ (Exact z m 0)) _ w' w run' run x;
        },
      )
