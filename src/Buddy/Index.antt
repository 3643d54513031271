-- ===== src/Buddy/Index.antt =====
-- The index macros PARENT, SON, DAUGHTER and SIBLING, and the subtree of an entry.
use emilib.Prelude.{ℕ, ◌≤◌, ◌<◌, ◌≡◌, sym, ◌⊎◌, inl, inr, arith}
use emilib.Buddy.{parent, son, daughter, sibling}

-- `j` stands in the subtree of `i`
pub data In (i : ℕ) : ℕ → Type 0 where
  here : {j : ℕ} → i ≡ j → In i j
  up : {j : ℕ} → i < j → In i (parent j) → In i j

pub le_of_In : {i j : ℕ} → In i j → i ≤ j
le_of_In (here e) = omega arith
le_of_In (up h r) = omega arith

pub In-trans : {a b c : ℕ} → In a b → In b c → In a c
In-trans {a} r (here e) = rw (← e) r
In-trans r (up h s) = up (omega (arith, le_of_In r)) (In-trans r s)

pub In-son : (i : ℕ) → In i (son i)
In-son i = up (omega arith) (here (omega arith))

pub In-daughter : (i : ℕ) → In i (daughter i)
In-daughter i = up (omega arith) (here (omega arith))

pub In-parent : (b : ℕ) → 0 < b → In (parent b) b
In-parent b h = up (omega arith) (here (omega arith))

-- the subtrees that an entry stands in are nested
pub In-chain : {a b p : ℕ} → In a p → In b p → a ≤ b → In a b
In-chain (here e) s le = here (omega (arith, le_of_In s))
In-chain (up h r) (here e) le = rw e (up h r)
In-chain (up h r) (up k s) le = In-chain r s le

-- siblings are the two children of one parent
pub sibling_cases :
    (b : ℕ)
    → 0 < b
    → ((b ≡ son (parent b)) × (sibling b ≡ daughter (parent b)))
      ⊎ ((b ≡ daughter (parent b)) × (sibling b ≡ son (parent b)))
unfolding sibling
sibling_cases b h = ground arith

pub parent-sibling : (b : ℕ) → 0 < b → parent (sibling b) ≡ parent b
parent-sibling b h = omega (arith, sibling_cases b h)

-- no entry stands below both of two siblings
pub not_In-sibling : {b p : ℕ} → 0 < b → In b p → In (sibling b) p → ⊥
not_In-sibling {b} h r s = elim (sibling_cases b h) [
  | inl e ↦ below (In-chain r s (omega arith)) (omega arith) (omega arith) (parent-sibling b h)
  | inr e ↦
      below (In-chain s r (omega arith)) (omega arith) (omega arith) (sym (parent-sibling b h))
]
  where
    below : {x y : ℕ} → In x y → x < y → 0 < x → parent y ≡ parent x → ⊥
    below (here e) lt z q = omega arith
    below (up k t) lt z q = omega (arith, le_of_In t)
