-- ===== src/Pool/Created.antt =====
-- What the making and the destruction of a pool of src/emi_thread.c come to.
use emilib.Prelude.{
  none, ℕ, zero, suc, ◌<◌, ◌≡◌, refl, sym, ap, ◌∙◌, Bool, true, false, ◌&&◌, Option, some, List, [],
  ◌∷◌, arith, ◌==◌, length, eq-cases, Bool-cases, inl, inr,
}
use mathlib.Core.Path.{subst}
use emilib.Hlist.Chain.{has}
use emilib.Hlist.Del.{erase}
use emilib.Ring.{Rings, init_list_head, list_unlink, list_del}
use emilib.Ring.Segment.{Distinct}
use emilib.Ring.Laws.{IsRing, list_del-IsRing}
use emilib.Pool.{Pool, add_threads, emi_thread_pool_init}
use emilib.Pool.Invariant.{IsPool, init-IsPool}
use emilib.Pool.Create.{
  Parts, destroy_threads, destroyed, settle, create_pool, made, all_made,
  create_threads-add_threads,
}

destroy_threads-step :
    (joins : ℕ → Bool) (n : ℕ) (t : Rings) (head pos : ℕ) (u : Rings) (ts : List ℕ)
    → (pos == head) ≡ false
    → joins pos ≡ true
    → destroy_threads joins n (list_del t pos) head (t.nexts pos) ≡ some (u, ts)
    → destroy_threads joins (suc n) t head pos ≡ some (u, pos ∷ ts)
unfolding destroy_threads
destroy_threads-step joins n t head pos u ts e j q = rw (destroy_threads, e, j, q) refl

list_del-first :
    (t : Rings) (head pos : ℕ) → t.prevs pos ≡ head → (list_del t pos).nexts head ≡ t.nexts pos
unfolding list_del list_unlink
list_del-first t head pos e = ground arith

-- from the first node `pos` on, if each thread ends once it is told to, the threads of the list are
-- given back in its order, which ends with an empty list
destroy_threads-all :
    (joins : ℕ → Bool) (n : ℕ) (t : Rings) (head pos : ℕ) (xs : List ℕ)
    → ((c : ℕ) → has c xs ≡ true → joins c ≡ true)
    → IsRing t head xs
    → t.nexts head ≡ pos
    → length xs < n
    → (u : Rings) × (destroy_threads joins n t head pos ≡ some (u, xs)) × IsRing u head []
unfolding destroy_threads
destroy_threads-all joins zero t head pos xs j r e f = absurd (omega arith)
destroy_threads-all joins (suc n) t head pos [] j r e f =
    (t, (let s = r.segment in ground arith), r)
destroy_threads-all joins (suc n) t head pos (x ∷ xs) j r e f =
    let (first, back, s) = r.segment in
    let here : x ≡ pos = sym first ∙ e in
    let out : (pos == head) ≡ false = (let h = r.no_head in ground arith) in
    let del : IsRing (list_del t pos) head xs =
      subst (IsRing (list_del t pos) head) (ground arith)
        (list_del-IsRing t head pos (x ∷ xs) r (ground arith)) in
    let on = list_del-first t head pos (ap t.prevs (sym here) ∙ back) in
    let (u, q, done) =
      destroy_threads-all joins n (list_del t pos) head (t.nexts pos) xs (λ c m. j c (ground arith))
        del on (omega arith) in
    (
      u,
      destroy_threads-step joins n t head pos u xs out (j pos (ground arith)) q
          ∙ ap (λ z. some (u, z ∷ xs)) (sym here),
      done,
    )

length-erase : (x : ℕ) (xs : List ℕ) → has x xs ≡ true → length xs ≡ suc (length (erase x xs))
length-erase x [] h = absurd (ground arith)
length-erase x (y ∷ ys) h = elim (Bool-cases (y == x)) [
  | inl e ↦ ground arith
  | inr n ↦ ground (arith, length-erase x ys (ground arith))
]

has_erase_other :
    (c x : ℕ) (xs : List ℕ) → has c xs ≡ true → (c == x) ≡ false → has c (erase x xs) ≡ true
has_erase_other c x [] h n = h
has_erase_other c x (y ∷ ys) h n = elim (eq-cases y c) [
  | inl e ↦ ground arith
  | inr k ↦ ground (arith, has_erase_other c x ys (ground arith) n)
]

-- a list without repetitions is no longer than a list that holds its elements
length-bounded :
    (xs ys : List ℕ)
    → Distinct xs
    → ((c : ℕ) → has c xs ≡ true → has c ys ≡ true)
    → length xs < suc (length ys)
length-bounded [] ys d h = omega arith
length-bounded (x ∷ xs) ys (dx, d) h =
    let e = length-erase x ys (h x (ground arith)) in
    let rest =
      length-bounded xs (erase x ys) d
        (λ c m. has_erase_other c x ys (h c (ground arith)) (other c m)) in
    omega arith
  where
    other : (c : ℕ) → has c xs ≡ true → (c == x) ≡ false
    other c m = elim (Bool-cases (c == x)) [
      | inl e ↦
          absurd
            (let q : c ≡ x = ground arith in let w = ap (λ z. has z xs) (sym q) in ground arith)
      | inr n ↦ n
    ]

-- what a pool that was to have the threads `ts` is: with the lock and all threads it is well-formed
-- and nothing was given back; without the lock it is as it was; and where a thread could not be made,
-- all others were given back, each once, and its list is empty
abbrev pub Outcome : Bool → Bool → ℕ → List ℕ → Pool → Pool → List ℕ → Type 0
Outcome false all head ts raw p freed = (p ≡ raw) × (freed ≡ [])
Outcome true true head ts raw p freed = IsPool head ts p × (freed ≡ [])
Outcome true false head ts raw p freed =
    IsRing p.rings head [] × Distinct freed × ((c : ℕ) → has c freed ≡ has c ts)

pub Outcome-IsPool :
    (lock all : Bool) (head : ℕ) (ts : List ℕ) (raw p : Pool) (freed : List ℕ)
    → Outcome lock all head ts raw p freed
    → (lock && all) ≡ true
    → IsPool head ts p
Outcome-IsPool false all head ts raw p freed o e = cc
Outcome-IsPool true false head ts raw p freed o e = cc
Outcome-IsPool true true head ts raw p freed (is, none_left) e = is

failed-Outcome :
    (joins : ℕ → Bool) (n : ℕ) (raw p : Pool) (head : ℕ) (ts : List ℕ)
    → ((c : ℕ) → has c ts ≡ true → joins c ≡ true)
    → IsPool head ts p
    → length ts < n
    → (q : Pool) × (freed : List ℕ) × (destroyed p
          (destroy_threads joins n p.rings head (p.rings.nexts head))
        ≡ some (false, q, freed))
      × Outcome true false head ts raw q freed
failed-Outcome joins n raw p head ts j is f =
    let few = length-bounded is.order ts is.ring.distinct (λ c m. sym (is.members c) ∙ m) in
    let (u, e, done) =
      destroy_threads-all joins n p.rings head (p.rings.nexts head) is.order
        (λ c m. j c (sym (is.members c) ∙ m)) is.ring refl (omega arith) in
    (record p { rings = u }, is.order, ap (destroyed p) e, (done, is.ring.distinct, is.members))

-- a pool of src/emi_thread.c is made, with more fuel than threads, where `malloc` gives distinct
-- addresses, and where each thread ends once it is told to if they cannot all be made: this ends,
-- and it succeeds if and only if the lock and all threads can be made; then the pool is well-formed
-- and holds the threads. Without the lock nothing is done, and where a thread cannot be made those
-- made before it are given back, each once, and the list is empty
pub create_pool-Outcome :
    (joins : ℕ → Bool) (n : ℕ) (lock : Bool) (raw : Pool) (head : ℕ) (xs : List (Option ℕ × Parts))
    → has head (made xs) ≡ false
    → Distinct (made xs)
    → length (made xs) < n
    → (all_made xs ≡ false → (c : ℕ) → has c (made xs) ≡ true → joins c ≡ true)
    → (q : Pool) × (freed : List ℕ) × (create_pool joins n lock raw head xs
        ≡ some (lock && all_made xs, q, freed))
      × Outcome lock (all_made xs) head (made xs) raw q freed
unfolding create_pool settle emi_thread_pool_init
create_pool-Outcome joins n false raw head xs h d f j = (raw, [], refl, (refl, refl))
create_pool-Outcome joins n true raw head xs h d f j =
    let start : Pool = record raw { rings = init_list_head raw.rings head } in
    let p = add_threads start head (made xs) in
    let all = create_threads-add_threads start head xs in
    let is : IsPool head (made xs) p = init-IsPool head (made xs) raw h d in
    elim (Bool-cases (all_made xs)) [
      | inl e ↦ (
        p,
        [],
        ap (settle joins n head) (all ∙ ap (λ z. (z, p)) e) ∙ ap (λ z. some (z, p, [])) (sym e),
        subst (λ z. Outcome true z head (made xs) raw p []) (sym e) (is, refl),
      )
      | inr e ↦
          let (q, freed, r, o) = failed-Outcome joins n raw p head (made xs) (j e) is f in
          (
            q,
            freed,
            ap (settle joins n head) (all ∙ ap (λ z. (z, p)) e)
                ∙ r
                ∙ ap (λ z. some (z, q, freed)) (sym e),
            subst (λ z. Outcome true z head (made xs) raw q freed) (sym e) o,
          )
    ]

destroy_threads_waits :
    (joins : ℕ → Bool) (n : ℕ) (t : Rings) (head pos : ℕ) (xs : List ℕ) (c : ℕ)
    → has c xs ≡ true
    → joins c ≡ false
    → IsRing t head xs
    → t.nexts head ≡ pos
    → destroy_threads joins n t head pos ≡ none
unfolding destroy_threads
destroy_threads_waits joins zero t head pos xs c m j r e = refl
destroy_threads_waits joins (suc n) t head pos [] c m j r e = absurd (ground arith)
destroy_threads_waits joins (suc n) t head pos (x ∷ xs) c m j r e =
    let (first, back, s) = r.segment in
    let here : x ≡ pos = sym first ∙ e in
    let out : (pos == head) ≡ false = (let h = r.no_head in ground arith) in
    let del : IsRing (list_del t pos) head xs =
      subst (IsRing (list_del t pos) head) (ground arith)
        (list_del-IsRing t head pos (x ∷ xs) r (ground arith)) in
    let on = list_del-first t head pos (ap t.prevs (sym here) ∙ back) in
    elim (Bool-cases (joins pos)) [
      | inl y ↦
          let other : ¬ (c ≡ x) =
            λ q. let w : true ≡ false = sym y ∙ ap joins (sym (q ∙ here)) ∙ j in cc in
          let rest =
            destroy_threads_waits joins n (list_del t pos) head (t.nexts pos) xs c (ground arith) j
              del on in
          rw (destroy_threads, out, y, rest) refl
      | inr y ↦ rw (destroy_threads, out, y) refl
    ]

-- where not all threads can be made, and one of those that were made does not end once it is told
-- to, the making of a pool never ends
pub create_pool_waits :
    (joins : ℕ → Bool) (n : ℕ) (raw : Pool) (head : ℕ) (xs : List (Option ℕ × Parts)) (c : ℕ)
    → has head (made xs) ≡ false
    → Distinct (made xs)
    → all_made xs ≡ false
    → has c (made xs) ≡ true
    → joins c ≡ false
    → create_pool joins n true raw head xs ≡ none
unfolding create_pool settle emi_thread_pool_init
create_pool_waits joins n raw head xs c h d some_left m j =
    let start : Pool = record raw { rings = init_list_head raw.rings head } in
    let p = add_threads start head (made xs) in
    let is : IsPool head (made xs) p = init-IsPool head (made xs) raw h d in
    ap (settle joins n head) (create_threads-add_threads start head xs ∙ ap (λ z. (z, p)) some_left)
    ∙ ap (destroyed p) (
        destroy_threads_waits joins n p.rings head (p.rings.nexts head) is.order c
          (is.members c ∙ m) j is.ring refl)
