-- ===== src/Buddy/Blocks.antt =====
-- The blocks of the buddy tree of src/emi_shbuf.c that are handed out, and how they lie to the free
-- ones.
use emilib.Prelude.{
  ℕ, zero, suc, ◌+◌, ◌-◌, ◌≤◌, ◌≡◌, refl, sym, ap, ◌∙◌, ◌⊎◌, inl, inr, false, arith, eq-cases,
}
use emilib.Prelude.Int.{ℤ, pos, negsuc, is_neg}
use emilib.Buddy.{Vector, order_at, parent, sibling}
use emilib.Buddy.Index.{In, here, up, le_of_In, sibling_cases}
use emilib.Buddy.Shape.{combine, Below, Below-frame, Ascent}
use emilib.Buddy.Frame.{Depth}
use emilib.Buddy.Get.{Free}

-- block `b` of order `k` is handed out, in a tree of order `m`
pub record Used (v : Vector) (m k b : ℕ) : Type 0 where
  pub mark : order_at v b ≡ negsuc k
  pub below : Below v k b
  pub depth : Depth (m - k) b
  pub small : k ≤ m

pub Used-frame :
    (v w : Vector) (m k b : ℕ)
    → ((j : ℕ) → In b j → order_at w j ≡ order_at v j)
    → Used v m k b
    → Used w m k b
Used-frame v w m k b same u = record {
  mark = same b (here refl) ∙ u.mark;
  below = Below-frame v w k b (λ j h. same j) u.below;
  depth = u.depth;
  small = u.small;
}

combine-nonneg : (k : ℕ) (a b : ℤ) → is_neg a ≡ false → is_neg (combine k a b) ≡ false
unfolding combine
combine-nonneg k (pos a) (pos b) h = ground arith
combine-nonneg k (pos a) (negsuc b) h = ground arith
combine-nonneg k (negsuc a) b h = cc

-- nothing above a free block is in use
Ascent-nonneg :
    (n k : ℕ) (v : Vector) (b c : ℕ) (o : ℤ)
    → Ascent v n k b o
    → is_neg o ≡ false
    → In c b
    → ¬ (c ≡ b)
    → is_neg (order_at v c) ≡ false
Ascent-nonneg zero k v b c o path h r ne = absurd (ne (let q = le_of_In r in omega arith))
Ascent-nonneg (suc n) k v b c o path h (here e) ne = absurd (ne e)
Ascent-nonneg (suc n) k v b c o (p, q, s, path) h (up lt r) ne =
    let above : is_neg (order_at v (parent b)) ≡ false =
      rw q (combine-nonneg k o (order_at v (sibling b)) h) in
    elim (eq-cases c (parent b)) [
      | inl e ↦ rw e above
      | inr d ↦ Ascent-nonneg n (suc k) v (parent b) c (order_at v (parent b)) path above r d
    ]

-- no free block lies in a used one
pub not_In-Used : (v : Vector) (m k l c b : ℕ) → Used v m l c → Free v m k b → ¬ (In c b)
not_In-Used v m k l c b u f r = elim (eq-cases c b) [
  | inl e ↦ (let q : negsuc l ≡ pos k = sym u.mark ∙ ap (order_at v) e ∙ f.whole in cc)
  | inr d ↦ (let q = Ascent-nonneg (m - k) k v b c (pos k) f.path refl r d in cc (ap is_neg u.mark))
]

Depth-unique : (n l b : ℕ) → Depth n b → Depth l b → n ≡ l
Depth-unique zero zero b d e = refl
Depth-unique zero (suc l) b d (p, e) = absurd (omega arith)
Depth-unique (suc n) zero b (p, d) e = absurd (omega arith)
Depth-unique (suc n) (suc l) b (p, d) (q, e) = ap suc (Depth-unique n l (parent b) d e)

Below-same :
    (v : Vector) (k nb l nc b c : ℕ)
    → l + nc ≡ k + nb
    → Depth nb b
    → Depth nc c
    → b ≡ c
    → Below v k b
    → Below v l c × ((c ≡ b) ⊎ (order_at v c ≡ pos l))
Below-same v k nb l nc b c e db dc q below =
    let same : nb ≡ nc = Depth-unique nb nc b db (rw q dc) in
    let lev : l ≡ k = omega arith in (rw (lev, ← q) below, inl (sym q))

-- all that lies under a whole block, but for itself, has its full order
pub Below-down :
    (v : Vector) (k nb l nc b c : ℕ)
    → l + nc ≡ k + nb
    → Depth nb b
    → Depth nc c
    → In b c
    → Below v k b
    → Below v l c × ((c ≡ b) ⊎ (order_at v c ≡ pos l))
Below-down v k nb l zero b c e db dc r below =
    let q : b ≡ c = omega (arith, le_of_In r) in Below-same v k nb l 0 b c e db dc q below
Below-down v k nb l (suc nc) b c e db dc (here q) below =
    Below-same v k nb l (suc nc) b c e db dc q below
Below-down v k nb l (suc nc) b c e db (p, dc) (up lt r) below =
    let (o, x, q, y) = (Below-down v k nb (suc l) nc b (parent c) (omega arith) db dc r below).0 in
    elim (sibling_cases c p) [
      | inl (i, j) ↦ (rw i x, inr (ap (order_at v) i ∙ o))
      | inr (i, j) ↦ (rw i y, inr (ap (order_at v) i ∙ q))
    ]

-- no used block lies in a whole one, but for itself
pub not_Below-Used :
    (v : Vector) (m k l b c : ℕ)
    → k ≤ m
    → Depth (m - k) b
    → Below v k b
    → Used v m l c
    → ¬ (c ≡ b)
    → ¬ (In b c)
not_Below-Used v m k l b c le d below u ne r =
    let small = u.small in
    elim ((Below-down v k (m - k) l (m - l) b c (omega arith) d u.depth r below).1) [
      | inl e ↦ ne e
      | inr e ↦ (let q = sym u.mark ∙ e in ground arith)
    ]
