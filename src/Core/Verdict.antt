-- ===== src/Core/Verdict.antt =====
-- What becomes of SUCCEEDED in a message to receivers, src/emi_core.c with src/emi_ifr.c.
use emilib.Prelude.{
  ℕ, ◌+◌, ◌-◌, ◌/◌, ◌%◌, ◌^◌, ◌≡◌, refl, ap, ◌∙◌, inl, inr, arith, Bool, true, false, ◌&&◌, ◌||◌,
  ◌==◌, if◌then◌else◌, Bool-cases,
}
use emilib.Message.{has_flag, set_flag, clear_flag, mode_block, ret_succeeded}
use emilib.Core.{judged}

has_flag-set_flag : (x : ℕ) → has_flag (set_flag x ret_succeeded) mode_block ≡ has_flag x mode_block
has_flag-set_flag x = elim (Bool-cases (has_flag x ret_succeeded)) [
  | inl e ↦ rw e refl
  | inr e ↦
      let same : (x + 2 ^ ret_succeeded) / 2 ^ mode_block % 2 ≡ x / 2 ^ mode_block % 2 =
        ground arith in
      rw e (ap (λ z. z == 1) same)
]

clear_flag-set_flag :
    (x : ℕ) → clear_flag (set_flag x ret_succeeded) ret_succeeded ≡ clear_flag x ret_succeeded
clear_flag-set_flag x = elim (Bool-cases (has_flag x ret_succeeded)) [
  | inl e ↦ rw e (rw e refl)
  | inr e ↦
      let up : has_flag (x + 2 ^ ret_succeeded) ret_succeeded ≡ true = ground arith in
      rw (e, up) (omega arith)
]

clear_flag-clear_flag :
    (x : ℕ) → clear_flag (clear_flag x ret_succeeded) ret_succeeded ≡ clear_flag x ret_succeeded
clear_flag-clear_flag x = elim (Bool-cases (has_flag x ret_succeeded)) [
  | inl e ↦
      let down : has_flag (x - 2 ^ ret_succeeded) ret_succeeded ≡ false = ground arith in
      rw (e, down) refl
  | inr e ↦ rw e (rw e refl)
]

-- two rounds judge as one in which either of them failed
pub judged-judged : (a b : Bool) (x : ℕ) → judged b (judged a x) ≡ judged (a || b) x
judged-judged false b x = refl
judged-judged true false x = refl
judged-judged true true x = elim (Bool-cases (has_flag x mode_block)) [
  | inl e ↦ elim (Bool-cases (has_flag (clear_flag x ret_succeeded) mode_block)) [
    | inl q ↦ rw e (rw q (clear_flag-clear_flag x))
    | inr q ↦ rw e (rw q refl)
  ]
  | inr e ↦ rw e (rw e refl)
]

-- the flags at the end of a message for which `k` receivers did not go
abbrev pub verdict : ℕ → Bool → ℕ → ℕ
verdict k failed flag =
    if (k == 0) || (failed && has_flag flag mode_block)
    then clear_flag flag ret_succeeded
    else set_flag flag ret_succeeded

-- SUCCEEDED, which is set before the receivers are signalled, is what `verdict` says when those that
-- failed and the broker, which finds that `k` receivers did not go, have made their changes
pub judged-verdict :
    (k : ℕ) (failed : Bool) (x : ℕ)
    → (if k == 0
        then clear_flag (judged failed (set_flag x ret_succeeded)) ret_succeeded
        else judged failed (set_flag x ret_succeeded))
      ≡ verdict k failed x
judged-verdict k false x = elim (Bool-cases (k == 0)) [
  | inl z ↦ rw z (clear_flag-set_flag x)
  | inr z ↦ rw z refl
]
judged-verdict k true x =
    let flag = has_flag-set_flag x in
    let once = clear_flag-set_flag x in
    let y = set_flag x ret_succeeded in
    elim (Bool-cases (has_flag x mode_block)) [
      | inl e ↦
          let q = flag ∙ e in
          elim (Bool-cases (k == 0)) [
            | inl z ↦ rw (z, q) (clear_flag-clear_flag y ∙ once)
            | inr z ↦ rw (z, q, e) once
          ]
      | inr e ↦
          let q = flag ∙ e in
          elim (Bool-cases (k == 0)) [ inl z ↦ rw (z, q) once | inr z ↦ rw (z, q, e) refl ]
    ]
