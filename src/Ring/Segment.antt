-- ===== src/Ring/Segment.antt =====
-- The nodes between two nodes of a circular list of include/list.h.
use emilib.Prelude.{
  ℕ, ◌≡◌, sym, ap, ◌∙◌, inl, inr, true, false, ◌||◌, List, [], ◌∷◌, ◌++◌, arith, ◌==◌, eq-cases,
}
use mathlib.Core.Path.{subst}
use emilib.Hlist.Chain.{has}
use emilib.Hlist.Del.{erase}
use emilib.Ring.{Rings, list_insert, list_unlink, list_del}

-- from `a` the `next` pointers lead through `xs` to `b`, and the `prev` pointers lead back
abbrev pub Segment : Rings → ℕ → List ℕ → ℕ → Type 0
Segment t a [] b = (t.nexts a ≡ b) × (t.prevs b ≡ a)
Segment t a (x ∷ xs) b = (t.nexts a ≡ x) × (t.prevs x ≡ a) × Segment t x xs b

-- the nodes differ
abbrev pub Distinct : List ℕ → Type 0
Distinct [] = Unit {0}
Distinct (x ∷ xs) = (has x xs ≡ false) × Distinct xs

-- a segment survives what spares the pointers between its nodes
pub Segment-frame :
    (t u : Rings) (a : ℕ) (xs : List ℕ) (b : ℕ)
    → ((c : ℕ) → ((c == a) || has c xs) ≡ true → u.nexts c ≡ t.nexts c)
    → ((c : ℕ) → ((c == b) || has c xs) ≡ true → u.prevs c ≡ t.prevs c)
    → Segment t a xs b
    → Segment u a xs b
Segment-frame t u a [] b n p (e, f) = (n a (ground arith) ∙ e, p b (ground arith) ∙ f)
Segment-frame t u a (x ∷ xs) b n p (e, f, s) = (
  n a (ground arith) ∙ e,
  p x (ground arith) ∙ f,
  Segment-frame t u x xs b (λ c h. n c (ground arith)) (λ c h. p c (ground arith)) s,
)

-- the node before the end
prevs_end :
    (t : Rings) (a : ℕ) (xs : List ℕ) (b : ℕ)
    → Segment t a xs b
    → ((t.prevs b == a) || has (t.prevs b) xs) ≡ true
prevs_end t a [] b (e, f) = ground arith
prevs_end t a (x ∷ xs) b (e, f, s) = ground (arith, prevs_end t x xs b s)

-- a node put in before the end
pub list_insert-Segment :
    (t : Rings) (a : ℕ) (xs : List ℕ) (b x : ℕ)
    → Distinct xs
    → has a xs ≡ false
    → has b xs ≡ false
    → has x xs ≡ false
    → ¬ (x ≡ a)
    → ¬ (x ≡ b)
    → Segment t a xs b
    → Segment (list_insert t x (t.prevs b) b) a (xs ++ (x ∷ [])) b
unfolding list_insert
list_insert-Segment t a [] b x d ha hb hx na nb (e, f) =
    (ground arith, ground arith, (ground arith, ground arith))
list_insert-Segment t a (y ∷ ys) b x (dy, d) ha hb hx na nb (e, f, s) =
    let p = prevs_end t y ys b s in
    (
      ground arith,
      ground arith,
      list_insert-Segment t y ys b x d dy (ground arith) (ground arith) (ground arith) nb s,
    )

-- the neighbours of a node of a segment
neighbours :
    (t : Rings) (a : ℕ) (xs : List ℕ) (b x : ℕ)
    → has x xs ≡ true
    → Segment t a xs b
    → (((t.nexts x == b) || has (t.nexts x) xs) ≡ true)
      × (((t.prevs x == a) || has (t.prevs x) xs) ≡ true)
neighbours t a [] b x h s = absurd (ground arith)
neighbours t a (y ∷ []) b x h (e, f, s) = (ground arith, ground arith)
neighbours t a (y ∷ z ∷ zs) b x h (e, f, (g, k, s)) = elim (eq-cases x y) [
  | inl same ↦ (ground arith, ground arith)
  | inr n ↦
      let (p, q) = neighbours t y (z ∷ zs) b x (ground arith) (g, k, s) in
      (ground arith, ground arith)
]

-- the first node taken out
del_first :
    (t : Rings) (a y : ℕ) (ys : List ℕ) (b : ℕ)
    → Distinct ys
    → has a ys ≡ false
    → has b ys ≡ false
    → has y ys ≡ false
    → ¬ (a ≡ y)
    → Segment t a (y ∷ ys) b
    → Segment (list_unlink t a (t.nexts y)) a ys b
unfolding list_unlink
del_first t a y [] b d ha hb hy n (e, f, (g, k)) = (ground arith, ground arith)
del_first t a y (z ∷ zs) b (dz, d) ha hb hy n (e, f, (g, k, s)) = (
  ground arith,
  ground arith,
  Segment-frame t (list_unlink t a (t.nexts y)) z zs b (λ c h. ground arith) (λ c h. ground arith)
      s,
)

-- a node taken out
pub list_del-Segment :
    (t : Rings) (a : ℕ) (xs : List ℕ) (b x : ℕ)
    → Distinct xs
    → has a xs ≡ false
    → has b xs ≡ false
    → has x xs ≡ true
    → Segment t a xs b
    → Segment (list_del t x) a (erase x xs) b
unfolding list_del list_unlink
list_del-Segment t a [] b x d ha hb h s = absurd (ground arith)
list_del-Segment t a (y ∷ ys) b x (dy, d) ha hb h (e, f, s) = elim (eq-cases y x) [
  | inl same ↦
      let to : erase x (y ∷ ys) ≡ ys = ground arith in
      let back : t.prevs x ≡ a = ap (λ z. t.prevs z) (sym same) ∙ f in
      rw (to, back)
        (subst (λ z. Segment (list_unlink t a (t.nexts z)) a ys b) same
          (del_first t a y ys b d (ground arith) (ground arith) dy (ground arith) (e, f, s)))
  | inr n ↦
      let inner = list_del-Segment t y ys b x d dy (ground arith) (ground arith) s in
      let to : erase x (y ∷ ys) ≡ y ∷ erase x ys = ground arith in
      let (p, q) = neighbours t y ys b x (ground arith) s in
      rw to (ground arith, ground arith, inner)
]
