-- ===== src/Hlist/Chain.antt =====
-- What a chain of include/emi_hash.h holds: the nodes in order, with their links both ways.
use emilib.Prelude.{
  ℕ, ◌≡◌, ◌∙◌, Bool, true, false, ◌||◌, not, none, some, List, [], ◌∷◌, arith, ◌==◌,
}
use emilib.Hlist.{Loc, first, next, Hlists, load}

-- whether `a` is among the nodes
abbrev pub has : ℕ → List ℕ → Bool
has a [] = false
has a (x ∷ xs) = (a == x) || has a xs

-- the place `l` is not the `next` of one of the nodes
abbrev pub away : Loc → List ℕ → Bool
away (first b) xs = true
away (next n) xs = not (has n xs)

-- from the place `l` the `next` pointers lead through the distinct nodes `xs` to null, and each node
-- points back to the place that leads to it
abbrev pub Chain : Hlists → Loc → List ℕ → Type 0
Chain t l [] = load t l ≡ none
Chain t l (x ∷ xs) =
    (load t l ≡ some x) × (t.pprevs x ≡ some l) × (has x xs ≡ false) × Chain t (next x) xs

-- a chain survives what spares its places and its nodes
pub Chain-frame :
    (t u : Hlists) (l : Loc) (xs : List ℕ)
    → load u l ≡ load t l
    → ((a : ℕ) → has a xs ≡ true → (u.nexts a ≡ t.nexts a) × (u.pprevs a ≡ t.pprevs a))
    → Chain t l xs
    → Chain u l xs
Chain-frame t u l [] e same c = e ∙ c
Chain-frame t u l (x ∷ xs) e same (p, q, out, c) =
    let (n, b) = same x (ground arith) in
    (e ∙ p, b ∙ q, out, Chain-frame t u (next x) xs n (λ a h. same a (ground arith)) c)
