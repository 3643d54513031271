-- ===== src/Pool/Submit.antt =====
-- Who gets a job that is submitted to the pool of src/emi_thread.c.
use emilib.Prelude.{
  none, [], ◌∷◌, ◌++◌, if◌then◌else◌, ℕ, ◌<◌, ◌≡◌, refl, sym, ◌∙◌, inl, inr, Bool, true, false,
  some, List, length,
}
use emilib.Hlist.{update_self, update_other}
use emilib.Hlist.Chain.{has}
use emilib.Pool.{
  Pool, Submission, taken, own_thread, refused, thread_idle, thread_busy, emi_thread_pool_submit,
}
use emilib.Ring.Laws.{IsRing, list_move_tail-IsRing}
use emilib.Hlist.Del.{erase}
use emilib.Pool.Invariant.{IsPool, first_thread, Status-cases}

-- how a submission to a pool, whose list is `order`, ended
pub record Submitted (head : ℕ) (ts order : List ℕ) (p : Pool) (spawns : Bool) (job : ℕ)
    (r : Submission × Pool) : Type 0 where
  pub thread : has (p.rings.nexts head) ts ≡ true
  pub was_free : r.0 ≡ taken → p.func (p.rings.nexts head) ≡ none
  pub job_given : r.0 ≡ taken → r.1.func (p.rings.nexts head) ≡ some job
  pub is_busy : r.0 ≡ taken → r.1.status (p.rings.nexts head) ≡ thread_busy
  pub last :
      r.0 ≡ taken
      → IsRing r.1.rings head (erase (p.rings.nexts head) order ++ (p.rings.nexts head ∷ []))
  pub others :
      (c : ℕ) → ¬ (p.rings.nexts head ≡ c) → (r.1.func c ≡ p.func c) × (r.1.status c ≡ p.status c)
  pub was_idle : p.status (p.rings.nexts head) ≡ thread_idle → r.0 ≡ taken
  pub was_busy :
      p.status (p.rings.nexts head) ≡ thread_busy
      → (r.1 ≡ p) × (spawns ≡ true → r.0 ≡ own_thread) × (spawns ≡ false → r.0 ≡ refused)

-- a submission to a well-formed pool of at least one thread: if the first thread of the list is idle
-- it had no job, it has this one and is busy, and it goes behind all others of the list; if not the
-- pool stays as it is, and the job gets a thread of its own, or is refused where none can be made. No
-- other thread's job or state changes
pub emi_thread_pool_submit-Submitted :
    (head : ℕ) (ts : List ℕ) (p : Pool) (spawns : Bool) (job : ℕ) (is : IsPool head ts p)
    → 0 < length ts
    → Submitted head ts is.order p spawns job (emi_thread_pool_submit p head spawns job)
unfolding emi_thread_pool_submit
emi_thread_pool_submit-Submitted head ts p spawns job is h =
    let t = p.rings.nexts head in
    let f = first_thread head ts p is h in
    let m = sym (is.members t) ∙ f in
    elim (Status-cases head (p.status t)) [
      | inl e ↦
          rw (emi_thread_pool_submit, e)
            (record {
              thread = m;
              was_free = λ q. is.jobs t m e;
              job_given = λ q. update_self p.func t (some job);
              is_busy = λ q. update_self p.status t thread_busy;
              last = λ q. list_move_tail-IsRing p.rings head t is.order is.ring f;
              others = λ c n.
                  (update_other p.func t c (some job) n, update_other p.status t c thread_busy n);
              was_idle = λ q. refl;
              was_busy = λ q. absurd (let w = e in cc);
            })
      | inr e ↦
          rw (emi_thread_pool_submit, e)
            (record {
              thread = m;
              was_free = λ q. absurd (not_taken spawns q);
              job_given = λ q. absurd (not_taken spawns q);
              is_busy = λ q. absurd (not_taken spawns q);
              last = λ q. absurd (not_taken spawns q);
              others = λ c n. (refl, refl);
              was_idle = λ q. cc;
              was_busy = λ q. (refl, λ y. rw y refl, λ y. rw y refl);
            })
    ]
  where
    not_taken : (b : Bool) → ¬ ((if b then own_thread else refused) ≡ taken)
    not_taken true q = cc
    not_taken false q = cc
