-- ===== src/Buddy/Update.antt =====
-- `update_buf_order` of src/emi_shbuf.c: where it keeps the tree exact.
use emilib.Prelude.{
  ℕ, zero, suc, ◌+◌, ◌<◌, ◌≡◌, refl, sym, ◌∙◌, ◌≢◌, ◌⊎◌, inl, inr, ◌&&◌, ◌||◌, not, Bool, true,
  arith, and_true, some,
}
use emilib.Prelude.Int.{ℤ, pos, negsuc, eqb_ℤ, is_neg}
use emilib.Buddy.{
  Vector, order_at, set_order, parent, son, daughter, sibling, new_order, update_loop,
}
use emilib.Buddy.Index.{In, here, le_of_In, In-trans, In-parent, sibling_cases, not_In-sibling}
use emilib.Buddy.Shape.{
  combine, combine_comm, combine-InRange, Exact, split, InRange, Exact-InRange, Exact-frame, Ascent,
  Ascent-write,
}

-- on the way up from `b`, whose order is `cur`, two siblings have the same order only where both are
-- wholly free or both are used up
unfoldable pub untied : ℕ → Vector → ℕ → ℕ → ℤ → Bool
untied zero v k b cur = true
untied (suc n) v k b cur =
    (not (eqb_ℤ (order_at v (sibling b)) cur) || is_neg cur || eqb_ℤ cur (pos k))
    && untied n v (suc k) (parent b) (combine k cur (order_at v (sibling b)))

-- the order that the loop computes is the intended one, where no tie stands in its way
new_order-combine :
    (k : ℕ) (s b old : ℤ)
    → InRange k s
    → InRange k b
    → InRange k old
    → old ≢ pos k ⊎ (b ≢ pos k)
    → (not (eqb_ℤ s b) || is_neg b || eqb_ℤ b (pos k)) ≡ true
    → new_order (pos (suc k)) s b (combine k old s) ≡ combine k b s
unfolding new_order combine
new_order-combine k (pos s) (pos b) (pos o) hs hb ho d t = ground arith
new_order-combine k (pos s) (pos b) (negsuc o) hs hb ho d t = ground arith
new_order-combine k (pos s) (negsuc b) o hs hb ho d t = ground arith
new_order-combine k (negsuc s) (pos b) o hs hb ho d t = ground arith
new_order-combine k (negsuc s) (negsuc b) o hs hb ho d t = ground arith

-- an entry under `p` but not `p` is not changed by a write to `p`
pub order_at-set_order :
    (v : Vector) (p j : ℕ) (o : ℤ) → ¬ (p ≡ j) → order_at (set_order v p o) j ≡ order_at v j
order_at-set_order v p j o n = ground arith

pub order_at-set_order_self : (v : Vector) (p : ℕ) (o : ℤ) → order_at (set_order v p o) p ≡ o
order_at-set_order_self v p o = ground arith

-- a parent that gets the intended order is exact if its children are
set_order-Exact :
    (v : Vector) (k b : ℕ) (o : ℤ)
    → 0 < b
    → o ≡ combine k (order_at v b) (order_at v (sibling b))
    → Exact v k b
    → Exact v k (sibling b)
    → Exact (set_order v (parent b) o) (suc k) (parent b)
set_order-Exact v k b o h e l r = elim (sibling_cases b h) [
  | inl (x, y) ↦
      node (rw (← x, ← y) e) (rw (← x) (kept b (omega arith) l))
        (rw (← y) (kept (sibling b) (omega arith) r))
  | inr (x, y) ↦
      node (rw (combine_comm, ← x, ← y) e) (rw (← y) (kept (sibling b) (omega arith) r))
        (rw (← x) (kept b (omega arith) l))
]
  where
    p : ℕ
    p = parent b

    w : Vector
    w = set_order v p o

    kept : (i : ℕ) → p < i → Exact v k i → Exact w k i
    kept i lt = Exact-frame (λ j t. order_at-set_order v p j o (λ q. omega (arith, le_of_In t)))

    node :
        o ≡ combine k (order_at v (son p)) (order_at v (daughter p))
        → Exact w k (son p)
        → Exact w k (daughter p)
        → Exact w (suc k) p
    node q = split (
        rw
          (
            order_at-set_order_self v p o,
            order_at-set_order v p (son p) o (λ t. omega arith),
            order_at-set_order v p (daughter p) o (λ t. omega arith),
          )
          q)

pub untied-write :
    (n : ℕ) (v : Vector) (k b p : ℕ) (cur o old : ℤ)
    → In b p
    → Ascent v n k b old
    → untied n (set_order v p o) k b cur ≡ untied n v k b cur
unfolding untied
untied-write zero v k b p cur o old r path = refl
untied-write (suc n) v k b p cur o old r (h, e, x, path) = rw (
  order_at-set_order v p (sibling b) o (λ t. not_In-sibling h r (here (sym t))),
  untied-write n v (suc k) (parent b) p (combine k cur (order_at v (sibling b))) o
      (order_at v (parent b)) (In-trans (In-parent b h) r) path,
)

-- a block that is wholly free was not so before
abbrev pub Changed : ℕ → ℤ → ℤ → Type 0
Changed k old new = (old ≢ pos k) ⊎ (new ≢ pos k)

Changed-combine :
    (k : ℕ) (old new s : ℤ)
    → InRange k old
    → InRange k new
    → InRange k s
    → Changed k old new
    → Changed (suc k) (combine k old s) (combine k new s)
unfolding combine
Changed-combine k (pos a) (pos b) (pos s) p q r h = ground arith
Changed-combine k (pos a) (pos b) (negsuc s) p q r h = ground arith
Changed-combine k (pos a) (negsuc b) (pos s) p q r h = ground arith
Changed-combine k (pos a) (negsuc b) (negsuc s) p q r h = ground arith
Changed-combine k (negsuc a) (pos b) (pos s) p q r h = ground arith
Changed-combine k (negsuc a) (pos b) (negsuc s) p q r h = ground arith
Changed-combine k (negsuc a) (negsuc b) s p q r h = ground arith

-- what a round of the loop starts from: entry `b` at level `k` is exact, `n` levels above it are so
-- but for the change at `b`, where its order was `old`
pub record Ready (n : ℕ) (v : Vector) (k b : ℕ) (old : ℤ) : Type 0 where
  pub exact : Exact v k b
  pub path : Ascent v n k b old
  pub range : InRange k old
  pub changed : Changed k old (order_at v b)

-- the vector after a round
abbrev pub update_step : Vector → ℕ → ℕ → Vector
update_step v k b =
    set_order v (parent b)
      (new_order (pos (suc k)) (order_at v (sibling b)) (order_at v b) (order_at v (parent b)))

-- whether a round meets no tie
abbrev pub no_tie : Vector → ℕ → ℕ → ℤ → Bool
no_tie v k b cur = not (eqb_ℤ (order_at v (sibling b)) cur) || is_neg cur || eqb_ℤ cur (pos k)

-- a round with no tie is followed by the next one
pub update_step-Ready :
    (n : ℕ) (v : Vector) (k b : ℕ) (old : ℤ)
    → Ready (suc n) v k b old
    → no_tie v k b (order_at v b) ≡ true
    → Ready n (update_step v k b) (suc k) (parent b) (order_at v (parent b))
      × (untied n (update_step v k b) (suc k) (parent b) (order_at (update_step v k b) (parent b))
          ≡ untied n v (suc k) (parent b) (combine k (order_at v b) (order_at v (sibling b))))
update_step-Ready n v k b old ready now =
    let x = ready.exact in
    let (h, q, s, path) = ready.path in
    let p = parent b in
    let s' = order_at v (sibling b) in
    let new = combine k (order_at v b) s' in
    let o = new_order (pos (suc k)) s' (order_at v b) (order_at v p) in
    let right : o ≡ new = rw q (
      new_order-combine k s' (order_at v b) old (Exact-InRange s) (Exact-InRange x) ready.range
        ready.changed now) in
    let at_p : order_at (set_order v p o) p ≡ new = order_at-set_order_self v p o ∙ right in
    (
      record {
        exact = set_order-Exact v k b o h right x s;
        path = Ascent-write v n (suc k) p p _ (order_at v p) (here refl) path;
        range = rw q (combine-InRange k old s' ready.range (Exact-InRange s));
        changed =
            rw (at_p, q)
              (Changed-combine k old (order_at v b) s' ready.range (Exact-InRange x)
                (Exact-InRange s) ready.changed);
      },
      rw at_p (untied-write n v (suc k) p p new o (order_at v p) (here refl) path),
    )

-- the loop ends inside of the vector, and leaves an exact tree where it meets no tie
pub update_loop-Exact :
    (n m : ℕ) (v : Vector) (k b : ℕ) (old : ℤ)
    → k + n ≡ m
    → Ready n v k b old
    → untied n v k b (order_at v b) ≡ true
    → (w : Vector) × (update_loop n v b (pos (suc k)) ≡ some w) × Exact w m 0
unfolding update_loop untied
update_loop-Exact zero m v k b old e ready t =
    let q : m ≡ k = omega arith in (v, refl, rw (q, ← ready.path) ready.exact)
update_loop-Exact (suc n) m v k zero old e ready t = absurd (omega (arith, ready.path.0))
update_loop-Exact (suc n) m v k (suc b) old e ready t =
    let (now, later) = and_true _ _ t in
    let (next, same) = update_step-Ready n v k (suc b) old ready now in
    update_loop-Exact n m (update_step v k (suc b)) (suc k) (parent (suc b))
      (order_at v (parent (suc b))) (omega arith) next (same ∙ later)
