-- ===== src/Pool/Invariant.antt =====
-- What holds of the pool of src/emi_thread.c at all times.
use emilib.Prelude.{
  ℕ, ◌<◌, ◌≡◌, refl, sym, ap, ◌∙◌, ◌⊎◌, inl, inr, Bool, true, false, ◌||◌, Option, none, some, List,
  [], ◌∷◌, ◌++◌, arith, ◌==◌, eq-cases, length,
}
use emilib.Hlist.{update_self, update, update_other}
use emilib.Hlist.Chain.{has}
use emilib.Hlist.Del.{erase}
use emilib.Ring.{init_list_head}
use emilib.Ring.Segment.{Segment, Segment-frame, Distinct}
use emilib.Ring.Laws.{
  IsRing, init_list_head-IsRing, list_add-IsRing, list_move-IsRing, list_move_tail-IsRing,
}
use emilib.Pool.{
  Status, thread_busy, thread_idle, Pool, add_thread, add_threads, emi_thread_pool_init,
  emi_thread_pool_submit, clear_func, set_idle, give_back,
}
use emilib.Pool.Steps.{Step, submits, finishes, idles, returns, Reached, init, step}

-- the pool's list holds the threads `ts` in some order, and a thread of the pool that is idle has no
-- job
pub record IsPool (head : ℕ) (ts : List ℕ) (p : Pool) : Type 0 where
  pub order : List ℕ
  pub ring : IsRing p.rings head order
  pub members : (c : ℕ) → has c order ≡ has c ts
  pub jobs : (c : ℕ) → has c ts ≡ true → p.status c ≡ thread_idle → p.func c ≡ none

has_moved : (c x : ℕ) (xs : List ℕ) → has x xs ≡ true → has c (x ∷ erase x xs) ≡ has c xs
has_moved c x [] h = absurd (ground arith)
has_moved c x (y ∷ ys) h = elim (eq-cases y x) [
  | inl e ↦ ground arith
  | inr n ↦ ground (arith, has_moved c x ys (ground arith))
]

has_append : (c x : ℕ) (xs : List ℕ) → has c (xs ++ (x ∷ [])) ≡ has c (x ∷ xs)
has_append c x [] = ground arith
has_append c x (y ∷ ys) = ground (arith, has_append c x ys)

-- one thread's state and job change together
jobs_update :
    (p : Pool) (ts : List ℕ) (t : ℕ) (s : Status) (j : Option ℕ)
    → (s ≡ thread_idle → j ≡ none)
    → ((c : ℕ) → has c ts ≡ true → ¬ (t ≡ c) → p.status c ≡ thread_idle → p.func c ≡ none)
    → (c : ℕ) → has c ts ≡ true
    → update p.status t s c ≡ thread_idle
    → update p.func t j c ≡ none
jobs_update p ts t s j e k c m i = elim (eq-cases t c) [
  | inl q ↦
      let f = update_self p.func t j in
      let g = update_self p.status t s in
      ap (update p.func t j) (sym q) ∙ f ∙ e (sym g ∙ ap (update p.status t s) q ∙ i)
  | inr n ↦ update_other p.func t c j n ∙ k c m n (sym (update_other p.status t c s n) ∙ i)
]

module _ (head : ℕ) where
  -- a new thread
  add_thread-IsPool :
      (p : Pool) (ts : List ℕ) (t : ℕ)
      → IsPool head ts p
      → ¬ (t ≡ head)
      → has t ts ≡ false
      → IsPool head (t ∷ ts) (add_thread p head t)
  unfolding add_thread init_list_head
  add_thread-IsPool p ts t is n o =
      let out : has t is.order ≡ false = is.members t ∙ o in
      let r = is.ring in
      let kept : IsRing (init_list_head p.rings t) head is.order = record {
        segment =
            Segment-frame p.rings (init_list_head p.rings t) head is.order head
              (λ c m. update_other p.rings.nexts t c t (apart t c head is.order m n out))
              (λ c m. update_other p.rings.prevs t c t (apart t c head is.order m n out)) r.segment;
        no_head = r.no_head;
        distinct = r.distinct;
      } in
      record {
        order = t ∷ is.order;
        ring = list_add-IsRing (init_list_head p.rings t) head t is.order kept n out;
        members = λ c. ground (arith, is.members c);
        jobs =
            jobs_update p (t ∷ ts) t thread_idle none (λ q. refl)
              (λ c m d. is.jobs c (ground arith));
      }
    where
      apart :
          (t c head : ℕ) (xs : List ℕ)
          → ((c == head) || has c xs) ≡ true
          → ¬ (t ≡ head)
          → has t xs ≡ false
          → ¬ (t ≡ c)
      apart t c head xs m n o e =
          let q : ((t == head) || has t xs) ≡ true = ap (λ z. (z == head) || has z xs) e ∙ m in
          absurd (ground arith)

  pub first_thread :
      (ts : List ℕ) (p : Pool)
      → (is : IsPool head ts p) → 0 < length ts
      → has (p.rings.nexts head) is.order ≡ true
  first_thread [] p is h = absurd (omega arith)
  first_thread (t ∷ ts) p is h = go is.order is.ring.segment (is.members t)
    where
      go :
          (xs : List ℕ)
          → Segment p.rings head xs head
          → has t xs ≡ has t (t ∷ ts)
          → has (p.rings.nexts head) xs ≡ true
      go [] s m = absurd (ground arith)
      go (x ∷ xs) (e, f, s) m = ground arith

  -- a pool thread takes the job
  given :
      (ts : List ℕ) (p : Pool) (spawns : Bool) (job : ℕ)
      → IsPool head ts p
      → 0 < length ts
      → let t = p.rings.nexts head in
        p.status t ≡ thread_idle → IsPool head ts (emi_thread_pool_submit p head spawns job).1
  unfolding emi_thread_pool_submit
  given ts p spawns job is h e =
      let t = p.rings.nexts head in
      let m = first_thread ts p is h in
      rw (emi_thread_pool_submit, e)
        (record {
          order = erase t is.order ++ (t ∷ []);
          ring = list_move_tail-IsRing p.rings head t is.order is.ring m;
          members =
              λ c. has_append c t (erase t is.order) ∙ has_moved c t is.order m ∙ is.members c;
          jobs = jobs_update p ts t thread_busy (some job) (λ q. cc) (λ c k d. is.jobs c k);
        })

  pub Status-cases : (s : Status) → (s ≡ thread_idle) ⊎ (s ≡ thread_busy)
  Status-cases thread_busy = inr refl
  Status-cases thread_idle = inl refl

  pub submit-IsPool :
      (ts : List ℕ) (p : Pool) (spawns : Bool) (job : ℕ)
      → IsPool head ts p
      → 0 < length ts
      → IsPool head ts (emi_thread_pool_submit p head spawns job).1
  unfolding emi_thread_pool_submit
  submit-IsPool ts p spawns job is h = elim (Status-cases (p.status (p.rings.nexts head))) [
    | inl e ↦ given ts p spawns job is h e
    | inr e ↦ rw (emi_thread_pool_submit, e) is
  ]

  Step-IsPool :
      (ts : List ℕ) (p q : Pool)
      → 0 < length ts
      → IsPool head ts p
      → Step head ts p q
      → IsPool head ts q
  unfolding clear_func set_idle give_back
  Step-IsPool ts p q h is (submits spawns job) = submit-IsPool ts p spawns job is h
  Step-IsPool ts p q h is (finishes t job e) = record {
    order = is.order;
    ring = is.ring;
    members = is.members;
    jobs = λ c k q. elim (eq-cases t c) [
      | inl e ↦ ground arith
      | inr n ↦ update_other p.func t c none n ∙ is.jobs c k q
    ];
  }
  Step-IsPool ts p q h is (idles t e) = record {
    order = is.order;
    ring = is.ring;
    members = is.members;
    jobs = λ c k q. elim (eq-cases t c) [
      | inl same ↦ ap p.func (sym same) ∙ e
      | inr n ↦ is.jobs c k (sym (update_other p.status t c thread_idle n) ∙ q)
    ];
  }
  Step-IsPool ts p q h is (returns t m) =
      let here = is.members t ∙ m in
      record {
        order = t ∷ erase t is.order;
        ring = list_move-IsRing p.rings head t is.order is.ring here;
        members = λ c. has_moved c t is.order here ∙ is.members c;
        jobs = is.jobs;
      }

  -- the threads `acc`, and then those of `ts`
  abbrev join : List ℕ → List ℕ → List ℕ
  join [] acc = acc
  join (t ∷ ts) acc = join ts (t ∷ acc)

  has-join : (c : ℕ) (ts acc : List ℕ) → has c (join ts acc) ≡ (has c ts || has c acc)
  has-join c [] acc = refl
  has-join c (t ∷ ts) acc = ground (arith, has-join c ts (t ∷ acc))

  add_threads-IsPool :
      (ts acc : List ℕ) (p : Pool)
      → IsPool head acc p
      → has head ts ≡ false
      → Distinct ts
      → ((c : ℕ) → has c ts ≡ true → has c acc ≡ false)
      → IsPool head (join ts acc) (add_threads p head ts)
  unfolding add_threads
  add_threads-IsPool [] acc p is n d o = is
  add_threads-IsPool (t ∷ ts) acc p is n (dt, d) o =
      add_threads-IsPool ts (t ∷ acc) (add_thread p head t)
        (add_thread-IsPool p acc t is (ground arith) (o t (ground arith))) (ground arith) d
        (λ c m. other c m)
    where
      other : (c : ℕ) → has c ts ≡ true → has c (t ∷ acc) ≡ false
      other c m =
          let out = o c (ground arith) in
          elim (eq-cases c t) [
            | inl e ↦ absurd (let q : true ≡ false = sym m ∙ ap (λ z. has z ts) e ∙ dt in cc)
            | inr k ↦ ground arith
          ]

  pub init-IsPool :
      (ts : List ℕ) (raw : Pool)
      → has head ts ≡ false
      → Distinct ts
      → IsPool head ts (emi_thread_pool_init raw head ts)
  unfolding emi_thread_pool_init
  init-IsPool ts raw n d =
      let start : IsPool head [] (record raw { rings = init_list_head raw.rings head }) = record {
        order = [];
        ring = init_list_head-IsRing raw.rings head;
        members = λ c. refl;
        jobs = λ c m q. absurd (ground arith);
      } in
      let all =
        add_threads-IsPool ts [] (record raw { rings = init_list_head raw.rings head }) start n d
          (λ c m. refl) in
      let same : (c : ℕ) → has c (join ts []) ≡ has c ts = λ c. ground (arith, has-join c ts []) in
      record {
        order = all.order;
        ring = all.ring;
        members = λ c. all.members c ∙ same c;
        jobs = λ c m q. all.jobs c (same c ∙ m) q;
      }

  pub Reached-IsPool :
      (ts : List ℕ) (p : Pool)
      → has head ts ≡ false
      → Distinct ts
      → 0 < length ts
      → Reached head ts p
      → IsPool head ts p
  Reached-IsPool ts p n d h (init raw) = init-IsPool ts raw n d
  Reached-IsPool ts p n d h (step {p = o} r s) =
      Step-IsPool ts o p h (Reached-IsPool ts o n d h r) s
