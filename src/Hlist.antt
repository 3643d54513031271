-- ===== src/Hlist.antt =====
-- The hash chains of include/emi_hash.h, pointer by pointer: INIT_HLIST_HEAD, INIT_HLIST_NODE,
-- `hlist_add_head`, `__hlist_del`, `hlist_del_init` and the tests. A node is known by its address; a
-- `struct hlist_node **` is the place of a bucket's `first` or of a node's `next`. The null pointer
-- is `none`.
pub mod Chain
pub mod Add
pub mod Del
use emilib.Prelude.{
  ℕ, zero, suc, ◌≡◌, arith, Bool, true, false, Option, none, some, ◌==◌, if◌then◌else◌,
}

pub data Loc : Type 0 where
  first : ℕ → Loc
  next : ℕ → Loc

pub record Hlists : Type 0 where
  pub firsts : ℕ → Option ℕ
  pub nexts : ℕ → Option ℕ
  pub pprevs : ℕ → Option Loc

-- `f[a] = v`
abbrev pub update {ℓ} : {A : Type ℓ} → (ℕ → A) → ℕ → A → ℕ → A
update f a v b = if a == b then v else f b

pub update_self {ℓ} : {A : Type ℓ} (f : ℕ → A) (a : ℕ) (v : A) → update f a v a ≡ v
update_self f a v = ground arith

pub update_other {ℓ} : {A : Type ℓ} (f : ℕ → A) (a b : ℕ) (v : A) → ¬ (a ≡ b) → update f a v b ≡ f b
update_other f a b v n = ground arith

-- `*l`
abbrev pub load : Hlists → Loc → Option ℕ
load t (first b) = t.firsts b
load t (next n) = t.nexts n

-- `*l = v`
abbrev pub store : Hlists → Loc → Option ℕ → Hlists
store t (first b) v = record t { firsts = update t.firsts b v }
store t (next n) v = record t { nexts = update t.nexts n v }

-- `n->pprev = l`
abbrev pub set_pprev : Hlists → ℕ → Option Loc → Hlists
set_pprev t n l = record t { pprevs = update t.pprevs n l }

-- INIT_HLIST_HEAD
unfoldable pub init_hlist_head : Hlists → ℕ → Hlists
init_hlist_head t b = store t (first b) none

-- INIT_HLIST_NODE
unfoldable pub init_hlist_node : Hlists → ℕ → Hlists
init_hlist_node t n = set_pprev (store t (next n) none) n none

-- `if (n) n->pprev = l`
abbrev pub link_back : Hlists → Option ℕ → Loc → Hlists
link_back t none l = t
link_back t (some n) l = set_pprev t n (some l)

unfoldable pub hlist_add_head : Hlists → ℕ → ℕ → Hlists
hlist_add_head t n b =
    let head = load t (first b) in
    let t₁ = link_back (store t (next n) head) head (next n) in
    set_pprev (store t₁ (first b) (some n)) n (some (first b))

abbrev pub is_none {ℓ} : {A : Type ℓ} → Option A → Bool
is_none none = true
is_none (some a) = false

pub hlist_unhashed : Hlists → ℕ → Bool
hlist_unhashed t n = is_none (t.pprevs n)

unfoldable pub hlist_empty : Hlists → ℕ → Bool
hlist_empty t b = is_none (t.firsts b)

-- `__hlist_del`, where `pprev` is not null
unfoldable pub hlist_unlink : Hlists → ℕ → Loc → Hlists
hlist_unlink t n pprev = let after = load t (next n) in link_back (store t pprev after) after pprev

-- `hlist_del_init`
unfoldable pub hlist_del_init : Hlists → ℕ → Hlists
unfolding hlist_unlink init_hlist_node
hlist_del_init t n = elim (t.pprevs n) [
  | none ↦ t
  | some pprev ↦ init_hlist_node (hlist_unlink t n pprev) n
]
