-- ===== src/Handler/Find.antt =====
-- Which function handles a message in a process, src/emi_ifr.c.
use emilib.Prelude.{
  ℕ, zero, suc, ◌+◌, ◌-◌, ◌^◌, Bool, true, ◌&&◌, ◌<◌, ◌≡◌, refl, ◌∙◌, inl, inr, arith, false,
  Option, none, some, List, [], ◌∷◌, ◌==◌, if◌then◌else◌, length, eq-cases, Option-cases,
}
use emilib.Hlist.{update, update_self}
use emilib.Hlist.Chain.{has}
use emilib.Message.{EmiMsg, has_flag, clear_flag, mode_block, ret_succeeded}
use emilib.Ring.{Rings}
use emilib.Ring.Segment.{Segment}
use emilib.Ring.Laws.{IsRing, list_add-IsRing}
use emilib.Handler.{Functions, find_func, add_func, handled, func_sterotype_thread}

-- the function of the first node that is registered for the message
abbrev pub lookup : Functions → ℕ → List ℕ → Option ℕ
lookup fs msg [] = none
lookup fs msg (x ∷ xs) = if fs.msg x == msg then some (fs.func x) else lookup fs msg xs

find_func-walk :
    (n : ℕ) (fs : Functions) (head a msg : ℕ) (xs : List ℕ)
    → Segment fs.rings a xs head
    → has head xs ≡ false
    → length xs < n
    → find_func n fs head (fs.rings.nexts a) msg ≡ some (lookup fs msg xs)
unfolding find_func
find_func-walk zero fs head a msg xs s o h = absurd (omega arith)
find_func-walk (suc n) fs head a msg [] (e, f) o h = rw e (ground arith)
find_func-walk (suc n) fs head a msg (x ∷ xs) (e, f, s) o h =
    let rest = find_func-walk n fs head x msg xs s (ground arith) (omega arith) in
    let q : (x == head) ≡ false = ground arith in rw (e, find_func, rest, q) (ground arith)

pub find_func-lookup :
    (n : ℕ) (fs : Functions) (head msg : ℕ) (xs : List ℕ)
    → IsRing fs.rings head xs
    → length xs < n
    → find_func n fs head (fs.rings.nexts head) msg ≡ some (lookup fs msg xs)
find_func-lookup n fs head msg xs r h = find_func-walk n fs head head msg xs r.segment r.no_head h

lookup-frame :
    (fs : Functions) (fl msg func msg' : ℕ) (t : Rings) (xs : List ℕ)
    → has fl xs ≡ false
    → lookup
        (record { rings = t; msg = update fs.msg fl msg; func = update fs.func fl func })
        msg'
        xs
      ≡ lookup fs msg' xs
lookup-frame fs fl msg func msg' t [] o = refl
lookup-frame fs fl msg func msg' t (x ∷ xs) o =
    ground (arith, lookup-frame fs fl msg func msg' t xs)

-- a registration in a process, with a new node: the list stays well-formed with the node before the
-- others, and with fuel for the list the process finds the new function for its message, and for
-- every other message what it found until then
pub add_func-find :
    (n : ℕ) (fs : Functions) (head fl msg func : ℕ) (xs : List ℕ)
    → IsRing fs.rings head xs
    → ¬ (fl ≡ head)
    → has fl xs ≡ false
    → suc (length xs) < n
    → let u = add_func fs head fl msg func in
      IsRing u.rings head (fl ∷ xs)
      × ((msg' : ℕ)
          → find_func n u head (u.rings.nexts head) msg' ≡ (
              if msg == msg'
              then some (some func)
              else find_func n fs head (fs.rings.nexts head) msg'))
unfolding add_func
add_func-find n fs head fl msg func xs r d o h =
    let u = add_func fs head fl msg func in
    let r' = list_add-IsRing fs.rings head fl xs r d o in
    (
      r',
      λ msg'.
          let kept = lookup-frame fs fl msg func msg' u.rings xs o in
          let old = find_func-lookup n fs head msg' xs r (omega arith) in
          let now = find_func-lookup n u head msg' (fl ∷ xs) r' (omega arith) in
          let m₁ = update_self fs.msg fl msg in
          let f₁ = update_self fs.func fl func in
          now
          ∙ elim (eq-cases msg msg') [ inl e ↦ ground arith | inr e ↦ ground (arith, kept, old) ],
    )

-- what the function that is found returns, and the message after it: without a function, -1 and the
-- message as it was
abbrev pub outcome : (ℕ → EmiMsg → ℕ × EmiMsg) → Option ℕ → EmiMsg → ℕ × EmiMsg
outcome call none m = (2 ^ 32 - 1, m)
outcome call (some f) m = call f m

-- what becomes of the message `u` once the function gave `ret`: its count falls by one, SUCCEEDED is
-- cleared if the message blocks and `ret` is not 0, and nothing else changes
pub record Counted (ret : ℕ) (u v : EmiMsg) : Type 0 where
  pub count : 0 < u.count → u.count < 2 ^ 32 → v.count + 1 ≡ u.count
  pub failed :
      has_flag u.flag mode_block ≡ true
      → ¬ (ret ≡ 0)
      → (v.flag ≡ clear_flag u.flag ret_succeeded) × (has_flag v.flag ret_succeeded ≡ false)
  pub succeeded : ret ≡ 0 → v.flag ≡ u.flag
  pub not_blocking : has_flag u.flag mode_block ≡ false → v.flag ≡ u.flag
  pub others : v ≡ record u { flag = v.flag; count = v.count }

handled-Counted : (u : EmiMsg) (ret : ℕ) → Counted ret u (handled u ret)
unfolding handled
handled-Counted u ret = record {
  count = λ p h. omega arith;
  failed =
      λ b n. let other : (ret == 0) ≡ false = ground arith in rw (b, other) (refl, cleared u.flag);
  succeeded = λ z. rw z (same (has_flag u.flag mode_block));
  not_blocking = λ b. rw b refl;
  others = refl;
}
  where
    cleared : (flag : ℕ) → has_flag (clear_flag flag ret_succeeded) ret_succeeded ≡ false
    cleared flag = ground arith

    same : (b : Bool) → (if b && false then clear_flag u.flag ret_succeeded else u.flag) ≡ u.flag
    same true = refl
    same false = refl

-- with fuel for the process's list func_sterotype_thread ends: the message goes to the first function
-- that is registered for it, or to none, which counts as a return of -1; then its count falls by one,
-- SUCCEEDED is cleared if the message blocks and the function did not return 0, and nothing else
-- changes
pub func_sterotype_thread_lem :
    (n : ℕ) (fs : Functions) (head : ℕ) (xs : List ℕ) (call : ℕ → EmiMsg → ℕ × EmiMsg) (m : EmiMsg)
    → IsRing fs.rings head xs
    → length xs < n
    → let r = outcome call (lookup fs m.msg xs) m in
      (v : EmiMsg) × (func_sterotype_thread n fs head call m ≡ some v) × Counted r.0 r.1 v
unfolding func_sterotype_thread
func_sterotype_thread_lem n fs head xs call m r h =
    let found = find_func-lookup n fs head m.msg xs r h in
    elim (Option-cases (lookup fs m.msg xs)) [
      | inl e ↦ (
        handled m (2 ^ 32 - 1),
        rw (found, func_sterotype_thread, e) refl,
        rw e (handled-Counted m (2 ^ 32 - 1)),
      )
      | inr (f, e) ↦ (
        handled (call f m).1 (call f m).0,
        rw (found, func_sterotype_thread, e) refl,
        rw e (handled-Counted (call f m).1 (call f m).0),
      )
    ]
