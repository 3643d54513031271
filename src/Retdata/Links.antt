-- ===== src/Retdata/Links.antt =====
-- Which blocks of return data are found after `emi_msg_read_retdata`, src/emi_sock.c.
use emilib.Prelude.{
  ℕ, zero, suc, ◌+◌, ◌*◌, ◌-◌, ◌≤◌, ◌<◌, ◌≡◌, refl, ap, ◌∙◌, inl, inr, arith, false, none, some, [],
  ◌∷◌, ltb, lt→ltb, ◌==◌, Bool-cases,
}
use mathlib.Core.Path.{subst}
use emilib.Retdata.{
  Blocks, sizeof_retdata, set_next, link_blocks, emi_msg_read_retdata, get_next_retdata,
  for_each_retdata,
}

link_blocks-ends :
    (n base : ℕ) (k : Blocks) (block left : ℕ)
    → left < n
    → (u : Blocks) × (link_blocks n base k block left ≡ some u)
unfolding link_blocks
link_blocks-ends zero base k block left h = absurd (omega arith)
link_blocks-ends (suc n) base k block left h =
    let used = k.size block + sizeof_retdata in
    elim (Bool-cases (ltb used left)) [
      | inl e ↦
          let (u, run) =
            link_blocks-ends n base (set_next k block (base + used)) (base + used) (left - used)
              (ground arith) in
          (u, rw (link_blocks, e) run)
      | inr e ↦ (set_next (set_next k block (base + used)) block 0, rw (link_blocks, e) refl)
    ]

-- with more fuel than bytes of return data the loop that links the blocks ends, whatever their sizes
pub emi_msg_read_retdata-ends :
    (fuel : ℕ) (k : Blocks) (retdata_offset retsize : ℕ)
    → retsize < fuel
    → (u : Blocks) × (emi_msg_read_retdata fuel k retdata_offset retsize ≡ some u)
unfolding emi_msg_read_retdata
emi_msg_read_retdata-ends fuel k base retsize h = link_blocks-ends fuel base k base retsize h

-- one block is linked to nothing
link_last :
    (n base : ℕ) (k : Blocks) (block left : ℕ)
    → left ≤ k.size block + sizeof_retdata
    → link_blocks (suc n) base k block left
      ≡ some (set_next (set_next k block (base + (k.size block + sizeof_retdata))) block 0)
unfolding link_blocks
link_last n base k block left h =
    let e : ltb (k.size block + sizeof_retdata) left ≡ false = ground arith in
    rw (link_blocks, e) refl

link_next :
    (n base : ℕ) (k : Blocks) (block left : ℕ)
    → let used = k.size block + sizeof_retdata in
      used < left
      → link_blocks (suc n) base k block left
        ≡ link_blocks n base (set_next k block (base + used)) (base + used) (left - used)
unfolding link_blocks
link_next n base k block left h =
    let e = lt→ltb (k.size block + sizeof_retdata) left h in rw (link_blocks, e) refl

-- a walk over two linked blocks
walk_two :
    (k : Blocks) (base second retsize : ℕ)
    → 0 < retsize
    → 0 < second
    → k.next_offset base ≡ second
    → k.next_offset second ≡ 0
    → for_each_retdata 3 k base retsize (some base) ≡ some (base ∷ second ∷ [])
unfolding for_each_retdata get_next_retdata
walk_two k base second retsize r s e f =
    let r₁ : (retsize == 0) ≡ false = ground arith in
    let s₁ : (second == 0) ≡ false = ground arith in rw (r₁, e, s₁, r₁, f) refl

walk_first :
    (k : Blocks) (base second retsize : ℕ)
    → 0 < base
    → 0 < retsize
    → 0 < second
    → k.next_offset base ≡ second
    → k.next_offset second ≡ 0
    → for_each_retdata 3 k base retsize (get_next_retdata k base retsize none)
      ≡ some (base ∷ second ∷ [])
unfolding get_next_retdata
walk_first k base second retsize p r s e f =
    let r₁ : (retsize == 0) ≡ false = ground arith in
    let p₁ : (base == 0) ≡ false = ground arith in
    rw (r₁, p₁) (walk_two k base second retsize r s e f)

-- the loop links the block of the size `first` at `base` to the one behind it
abbrev pub TwoLinked : Blocks → ℕ → ℕ → ℕ → Type 0
TwoLinked k base first retsize =
    ((u : Blocks) × (emi_msg_read_retdata 2 k base retsize ≡ some u)
      × (for_each_retdata 3 u base retsize (get_next_retdata u base retsize none)
          ≡ some (base ∷ (base + (first + sizeof_retdata)) ∷ []))
      × (u.size ≡ k.size))

module _ (k : Blocks) (base : ℕ) (pos : 0 < base) where
  -- two blocks that were read one behind the other are both found, in that order; the loop leaves the
  -- sizes of all blocks as they were
  pub two_blocks :
      let second = base + (k.size base + sizeof_retdata) in
      let retsize = k.size base + sizeof_retdata + (k.size second + sizeof_retdata) in
      (u : Blocks) × (emi_msg_read_retdata 2 k base retsize ≡ some u)
      × (for_each_retdata 3 u base retsize (get_next_retdata u base retsize none)
          ≡ some (base ∷ second ∷ []))
      × (u.size ≡ k.size)
  unfolding emi_msg_read_retdata
  two_blocks =
      let used = k.size base + sizeof_retdata in
      let second = base + used in
      let retsize = used + (k.size second + sizeof_retdata) in
      let k₁ = set_next k base second in
      let k₂ = set_next k₁ second (base + (k.size second + sizeof_retdata)) in
      let u = set_next k₂ second 0 in
      (
        u,
        link_next 1 base k base retsize (omega arith)
            ∙ link_last 0 base k₁ second (retsize - used) (omega arith),
        walk_first u base second retsize pos (omega arith) (omega arith) (ground arith)
            (ground arith),
        refl,
      )

  -- what `two_blocks` gives, for blocks of the sizes `first` and `second`
  pub two_blocks_sized :
      (first second retsize : ℕ)
      → k.size base ≡ first
      → k.size (base + (first + sizeof_retdata)) ≡ second
      → retsize ≡ first + sizeof_retdata + (second + sizeof_retdata)
      → TwoLinked k base first retsize
  two_blocks_sized first second retsize e f total =
      let at : k.size (base + (k.size base + sizeof_retdata)) ≡ second =
        ap (λ z. k.size (base + (z + sizeof_retdata))) e ∙ f in
      subst (λ z. TwoLinked k base z retsize) e
        (subst (TwoLinked k base (k.size base)) (omega arith) two_blocks)

  -- of three blocks of the same size that were read one behind the other only the first two are
  -- found: the loop links the second one to itself, and then to nothing
  pub third_block :
      let used = k.size base + sizeof_retdata in
      k.size (base + used) ≡ k.size base
      → (u : Blocks) × (emi_msg_read_retdata 3 k base (3 * used) ≡ some u)
        × (for_each_retdata 3 u base (3 * used) (get_next_retdata u base (3 * used) none)
            ≡ some (base ∷ (base + used) ∷ []))
  unfolding emi_msg_read_retdata
  third_block same =
      let used = k.size base + sizeof_retdata in
      let second = base + used in
      let k₁ = set_next k base second in
      let again = k.size second + sizeof_retdata in
      let k₂ = set_next k₁ second (base + again) in
      let k₃ = set_next k₂ second (base + again) in
      let u = set_next k₃ second 0 in
      let back : base + again ≡ second = omega arith in
      (
        u,
        link_next 2 base k base (3 * used) (omega arith)
            ∙ link_next 1 base k₁ second (3 * used - used) (omega arith)
            ∙ ap (λ z. link_blocks 1 base k₂ z (3 * used - used - again)) back
            ∙ link_last 0 base k₂ second (3 * used - used - again) (omega arith),
        walk_first u base second (3 * used) pos (omega arith) (omega arith) (ground arith)
            (ground arith),
      )
