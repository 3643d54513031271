-- ===== src/Pool/Order.antt =====
-- Which functions a thread of the pool of src/emi_thread.c runs, and in which order.
use emilib.Prelude.{
  ℕ, ◌≡◌, refl, sym, ap, ◌∙◌, Bool, true, false, Option, none, some, List, [], ◌∷◌, ◌++◌,
  append-nil, ◌⊎◌, inl, inr,
}
use mathlib.Core.Path.{subst}
use emilib.Pool.Worker.{
  Place, starting, testing, blocking, waiting, woken, running, clearing, moving, ended, Status,
  thread_idle, thread_busy, thread_exit, marked, Worker, emi_thread_init, wake, resumed, Step,
  locks, finds_none, finds_job, waits, resumes, clears, idles, moves, sets_status, sets_func,
  sets_args, signals_it, Steps, here, next, wakes,
}

-- whether the thread is in a job, and whether it is there or right behind it
abbrev is_running : Place → Bool
is_running running = true
is_running starting = false
is_running testing = false
is_running blocking = false
is_running waiting = false
is_running woken = false
is_running clearing = false
is_running moving = false
is_running ended = false

abbrev is_active : Place → Bool
is_active running = true
is_active clearing = true
is_active starting = false
is_active testing = false
is_active blocking = false
is_active waiting = false
is_active woken = false
is_active moving = false
is_active ended = false

-- the function that the thread was given and has not started
abbrev awaited : Bool → Option ℕ → List ℕ
awaited true f = []
awaited false none = []
awaited false (some f) = f ∷ []

abbrev functions : List (ℕ × ℕ) → List ℕ
functions [] = []
functions ((f, a) ∷ rest) = f ∷ functions rest

functions-append :
    (xs : List (ℕ × ℕ)) (f a : ℕ) → functions (xs ++ ((f, a) ∷ [])) ≡ functions xs ++ (f ∷ [])
functions-append [] f a = refl
functions-append ((g, b) ∷ xs) f a = ap (λ l. g ∷ l) (functions-append xs f a)

-- the functions that the thread started are those that it was given, in their order, but for one that
-- it has yet to start; a thread that says to be idle, or that a submission has just marked busy, has
-- no function and is in none
pub record InOrder (w : Worker) : Type 0 where
  pub order : w.given ≡ functions w.started ++ awaited (is_running w.place) w.func
  pub no_func : w.status ≡ thread_idle → w.func ≡ none
  pub not_active : w.status ≡ thread_idle → is_active w.place ≡ false
  pub just_marked :
      (f a : ℕ)
      → w.stage ≡ marked f a
      → (w.status ≡ thread_busy) × (w.func ≡ none) × (is_active w.place ≡ false)
  pub cleared : w.place ≡ clearing → w.func ≡ none

active_running : (p : Place) → is_active p ≡ false → is_running p ≡ false
active_running starting e = refl
active_running testing e = refl
active_running blocking e = refl
active_running waiting e = refl
active_running woken e = refl
active_running running e = e
active_running clearing e = refl
active_running moving e = refl
active_running ended e = refl

-- the thread goes from a place outside of its jobs to another
place-InOrder :
    (w : Worker) (p : Place)
    → InOrder w
    → is_active w.place ≡ false
    → is_active p ≡ false
    → InOrder (record w { place = p })
place-InOrder w p i e k = record {
  order =
      i.order
      ∙ ap (λ z. functions w.started ++ awaited z w.func)
          (active_running w.place e ∙ sym (active_running p k));
  no_func = i.no_func;
  not_active = λ q. k;
  just_marked = λ f a q. let (b, n, _) = i.just_marked f a q in (b, n, k);
  cleared = λ q. absurd (let x = ap is_active q in cc);
}

wake-cases : (p : Place) → (wake p ≡ p) ⊎ ((p ≡ waiting) × (wake p ≡ woken))
wake-cases starting = inl refl
wake-cases testing = inl refl
wake-cases blocking = inl refl
wake-cases waiting = inr (refl, refl)
wake-cases woken = inl refl
wake-cases running = inl refl
wake-cases clearing = inl refl
wake-cases moving = inl refl
wake-cases ended = inl refl

resumed-is_active : (s : Status) → is_active (resumed s) ≡ false
resumed-is_active thread_idle = refl
resumed-is_active thread_busy = refl
resumed-is_active thread_exit = refl

-- nothing is outstanding before a submission
settled :
    (w : Worker)
    → InOrder w
    → w.func ≡ none
    → is_active w.place ≡ false
    → w.given ≡ functions w.started
settled w i n k =
    i.order
    ∙ ap (λ z. functions w.started ++ awaited z w.func) (active_running w.place k)
    ∙ ap (λ z. functions w.started ++ awaited false z) n
    ∙ append-nil (functions w.started)

Step-InOrder : {w u : Worker} → InOrder w → Step w u → InOrder u
Step-InOrder {w} i (locks e) = place-InOrder w testing i (ap is_active e) refl
Step-InOrder {w} i (finds_none e f) = place-InOrder w blocking i (ap is_active e) refl
Step-InOrder {w} i (finds_job f e j) =
    let q : awaited (is_running w.place) w.func ≡ f ∷ [] = rw (e, j) refl in
    record {
      order =
          i.order
          ∙ ap (λ l. functions w.started ++ l) q
          ∙ sym (functions-append w.started f w.args)
          ∙ sym (append-nil (functions (w.started ++ ((f, w.args) ∷ []))));
      no_func = i.no_func;
      not_active = λ q. absurd (let none_left = i.no_func q in cc);
      just_marked = λ g a q. absurd (let (b, n, k) = i.just_marked g a q in cc);
      cleared = λ q. cc;
    }
Step-InOrder {w} i (waits e) = place-InOrder w waiting i (ap is_active e) refl
Step-InOrder {w} i (resumes e) =
    place-InOrder w (resumed w.status) i (ap is_active e) (resumed-is_active w.status)
Step-InOrder {w} i (clears e) = record {
  order = i.order ∙ ap (λ z. functions w.started ++ awaited z w.func) (ap is_running e);
  no_func = λ q. refl;
  not_active = λ q. absurd (let k = i.not_active q in let x = ap is_active e in cc);
  just_marked =
      λ g a q. absurd (let (b, n, k) = i.just_marked g a q in let x = ap is_active e in cc);
  cleared = λ q. refl;
}
Step-InOrder {w} i (idles e) = record {
  order = i.order ∙ ap (λ z. functions w.started ++ awaited z w.func) (ap is_running e);
  no_func = λ q. i.cleared e;
  not_active = λ q. refl;
  just_marked =
      λ g a q. absurd (let (b, n, k) = i.just_marked g a q in let x = ap is_active e in cc);
  cleared = λ q. cc;
}
Step-InOrder {w} i (moves e s) = place-InOrder w testing i (ap is_active e) refl
Step-InOrder {w} i (sets_status f a s e) = record {
  order = i.order;
  no_func = λ q. cc;
  not_active = λ q. cc;
  just_marked = λ g b q. (refl, i.no_func e, i.not_active e);
  cleared = i.cleared;
}
Step-InOrder {w} i (sets_func f a s) =
    let (b, n, k) = i.just_marked f a s in
    record {
      order =
          ap (λ l. l ++ (f ∷ [])) (settled w i n k)
          ∙ ap (λ z. functions w.started ++ awaited z (some f)) (sym (active_running w.place k));
      no_func = λ q. absurd (let c = b in cc);
      not_active = λ q. k;
      just_marked = λ g c q. cc;
      cleared = λ q. absurd (let x = ap is_active q in cc);
    }
Step-InOrder {w} i (sets_args a s) = record {
  order = i.order;
  no_func = i.no_func;
  not_active = i.not_active;
  just_marked = λ g b q. cc;
  cleared = i.cleared;
}
Step-InOrder {w} i (signals_it n e) =
    let same : InOrder (record w { signals = n }) = record {
      order = i.order;
      no_func = i.no_func;
      not_active = i.not_active;
      just_marked = i.just_marked;
      cleared = i.cleared;
    } in
    elim (wake-cases w.place) [
      | inl q ↦ subst (λ p. InOrder (record w { place = p; signals = n })) (sym q) same
      | inr (k, q) ↦
          subst (λ p. InOrder (record w { place = p; signals = n })) (sym q)
            (place-InOrder (record w { signals = n }) woken same (ap is_active k) refl)
    ]

Steps-InOrder : {b : Bool} {w u : Worker} → InOrder w → Steps b w u → InOrder u
Steps-InOrder i here = i
Steps-InOrder i (next r s) = Step-InOrder (Steps-InOrder i r) s
Steps-InOrder i (wakes {u} b r e) = place-InOrder u woken (Steps-InOrder i r) (ap is_active e) refl

-- in every state that a new thread comes to, with spurious wake-ups or without, it has started the
-- functions that it was given, each once and in their order, but for at most the last one; and it has
-- no function if it says to be idle. With which args it starts them is not said
pub emi_thread_init-InOrder :
    (args : ℕ) (spurious : Bool) (w : Worker) → Steps spurious (emi_thread_init args) w → InOrder w
emi_thread_init-InOrder args spurious w r =
    Steps-InOrder
      (record {
        order = refl;
        no_func = λ q. refl;
        not_active = λ q. refl;
        just_marked = λ f a q. cc;
        cleared = λ q. refl;
      })
      r
