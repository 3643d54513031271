-- ===== src/Buddy/Shape.antt =====
-- What the entries of the vector of src/emi_shbuf.c ought to say: the intended order of a parent,
-- the vectors whose orders are exact, and the way from an entry up to the root.
use emilib.Prelude.{ℕ, zero, suc, ◌≤◌, ◌<◌, ◌≡◌, refl, sym, ◌∙◌, ◌⊎◌, ◌&&◌, arith, if◌then◌else◌}
use emilib.Prelude.Int.{ℤ, pos, negsuc, ltb_ℤ, eqb_ℤ, is_neg}
use emilib.Buddy.{EmiBuf, Vector, order_at, write, parent, son, daughter, sibling}
use emilib.Buddy.Index.{
  In, here, le_of_In, In-trans, In-son, In-daughter, In-parent, not_In-sibling,
}

-- the order of a parent whose children are at level `k` and have these orders: used up when both
-- are, one larger when both are wholly free, and the larger of the two else
unfoldable pub combine : ℕ → ℤ → ℤ → ℤ
combine k a b =
    if is_neg a && is_neg b
    then negsuc (suc k)
    else if eqb_ℤ a (pos k) && eqb_ℤ b (pos k)
    then pos (suc k)
    else if ltb_ℤ a b
    then b
    else a

-- the entries under a block that is free or in use as a whole
abbrev pub Below : Vector → ℕ → ℕ → Type 0
Below v zero i = Unit {0}
Below v (suc k) i =
    (order_at v (son i) ≡ pos k)
    × Below v k (son i)
    × (order_at v (daughter i) ≡ pos k)
    × Below v k (daughter i)

-- the subtree of entry `i` at level `k` is exact: a block, free or in use as a whole, or a node that
-- combines two exact subtrees
pub data Exact (v : Vector) : ℕ → ℕ → Type 0 where
  block : {k i : ℕ} → (order_at v i ≡ pos k) ⊎ (order_at v i ≡ negsuc k) → Below v k i → Exact v k i
  split :
      {k i : ℕ}
      → order_at v i ≡ combine k (order_at v (son i)) (order_at v (daughter i))
      → Exact v k (son i)
      → Exact v k (daughter i)
      → Exact v (suc k) i

-- the orders that an entry at level `k` can have
abbrev pub InRange : ℕ → ℤ → Type 0
InRange k (pos a) = a ≤ k
InRange k (negsuc a) = a ≡ k

pub combine_comm : (k : ℕ) (a b : ℤ) → combine k a b ≡ combine k b a
unfolding combine
combine_comm k (pos a) (pos b) = ground arith
combine_comm k (pos a) (negsuc b) = ground arith
combine_comm k (negsuc a) (pos b) = ground arith
combine_comm k (negsuc a) (negsuc b) = ground arith

pub combine-InRange :
    (k : ℕ) (a b : ℤ) → InRange k a → InRange k b → InRange (suc k) (combine k a b)
unfolding combine
combine-InRange k (pos a) (pos b) p q = ground arith
combine-InRange k (pos a) (negsuc b) p q = ground arith
combine-InRange k (negsuc a) (pos b) p q = omega arith
combine-InRange k (negsuc a) (negsuc b) p q = refl

pub InRange-block : (k : ℕ) (o : ℤ) → (o ≡ pos k) ⊎ (o ≡ negsuc k) → InRange k o
InRange-block k (pos a) e = ground arith
InRange-block k (negsuc a) e = ground arith

pub Exact-InRange : {v : Vector} {k i : ℕ} → Exact v k i → InRange k (order_at v i)
Exact-InRange {v} {k} {i} (block e b) = InRange-block k (order_at v i) e
Exact-InRange {v} {i} (split {k} e l r) = rw e (
    combine-InRange k (order_at v (son i)) (order_at v (daughter i)) (Exact-InRange l)
      (Exact-InRange r))

-- what a vector says under `i` depends on that subtree alone
pub Below-frame :
    (v w : Vector) (k i : ℕ)
    → ((j : ℕ) → i < j → In i j → order_at w j ≡ order_at v j)
    → Below v k i
    → Below w k i
Below-frame v w zero i same b = tt
Below-frame v w (suc k) i same (o, b, p, c) =
    let l = In-son i in
    let r = In-daughter i in
    (
      same (son i) (omega arith) l ∙ o,
      Below-frame v w k (son i) (λ j h t. same j (omega arith) (In-trans l t)) b,
      same (daughter i) (omega arith) r ∙ p,
      Below-frame v w k (daughter i) (λ j h t. same j (omega arith) (In-trans r t)) c,
    )

pub Exact-frame :
    {v w : Vector} {k i : ℕ}
    → ((j : ℕ) → In i j → order_at w j ≡ order_at v j)
    → Exact v k i
    → Exact w k i
Exact-frame {v} {w} {k} {i} same (block e b) =
    block (rw (same i (here refl)) e) (Below-frame v w k i (λ j h. same j) b)
Exact-frame {i} same (split e l r) =
    split (rw (same i (here refl), same (son i) (In-son i), same (daughter i) (In-daughter i)) e)
      (Exact-frame (λ j p. same j (In-trans (In-son i) p)) l)
      (Exact-frame (λ j p. same j (In-trans (In-daughter i) p)) r)

-- the `n` levels above entry `b` at level `k` are exact, where `old` is the order that its parent
-- has taken into account
abbrev pub Ascent : Vector → ℕ → ℕ → ℕ → ℤ → Type 0
Ascent v zero k b old = b ≡ 0
Ascent v (suc n) k b old =
    (0 < b)
    × (order_at v (parent b) ≡ combine k old (order_at v (sibling b)))
    × Exact v k (sibling b)
    × Ascent v n (suc k) (parent b) (order_at v (parent b))

-- a write under `b` does not show on the way up
pub Ascent-write :
    (v : Vector) (n k b q : ℕ) (e : EmiBuf) (old : ℤ)
    → In b q
    → Ascent v n k b old
    → Ascent (write v q e) n k b old
Ascent-write v zero k b q e old r p = p
Ascent-write v (suc n) k b q e old r (h, c, s, p) = (
  h,
  rw (other (parent b) above, other (sibling b) beside) c,
  Exact-frame (λ j i. other j (λ t. not_In-sibling h r (rw t i))) s,
  rw (other (parent b) above) (
      Ascent-write v n (suc k) (parent b) q e (order_at v (parent b)) (In-trans (In-parent b h) r)
        p),
)
  where
    other : (j : ℕ) → ¬ (q ≡ j) → order_at (write v q e) j ≡ order_at v j
    other j n = ground arith

    above : ¬ (q ≡ parent b)
    above t = omega (arith, le_of_In r)

    beside : ¬ (q ≡ sibling b)
    beside t = not_In-sibling h r (here (sym t))
