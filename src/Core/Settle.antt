-- ===== src/Core/Settle.antt =====
-- The wait for the receivers, `while(msg_pos->count)` of src/emi_core.c, over all of its rounds.
use emilib.Prelude.{
  ℕ, ◌+◌, ◌-◌, ◌≤◌, ◌<◌, ◌^◌, ◌≡◌, refl, sym, ap, ◌∙◌, inl, inr, Bool, true, false, ◌||◌, Option,
  none, some, List, [], ◌∷◌, arith, ltb, ◌==◌, length, Bool-cases,
}
use mathlib.Core.Path.{subst}
use emilib.Hlist.{first, load}
use emilib.Hlist.Chain.{has}
use emilib.Hash.{hash32, MsgTable}
use emilib.Hash.Table.{Entries, IsTable}
use emilib.Core.{Wait, Round, judged, count_off, sweep, wait}
use emilib.Core.Verdict.{judged-judged}
use emilib.Core.Send.{wait_over}
use emilib.Core.Sweep.{is_gone, staying, sweep-Swept}
use emilib.Core.Registry.{Registration, settle, losses, remaining, reads, reads-gone, reads-staying}

length-staying : (out : ℕ → Bool) (xs : List ℕ) → length (staying out xs) ≤ length xs
length-staying out [] = omega arith
length-staying out (x ∷ xs) = ground (arith, length-staying out xs)

has-staying :
    (out : ℕ → Bool) (a : ℕ) (xs : List ℕ) → has a (staying out xs) ≡ true → has a xs ≡ true
has-staying out a [] m = m
has-staying out a (x ∷ xs) m = ground (arith, has-staying out a xs)

pub reads-same :
    (t u : MsgTable) (xs : List ℕ) → u.msg ≡ t.msg → u.pid ≡ t.pid → reads u xs ≡ reads t xs
reads-same t u [] e k = refl
reads-same t u (x ∷ xs) e k =
    ap (λ h. (h x, u.pid x) ∷ reads u xs) e
    ∙ ap (λ h. (t.msg x, h x) ∷ reads u xs) k
    ∙ ap (λ l. (t.msg x, t.pid x) ∷ l) (reads-same t u xs e k)

-- the wait from the state `w` on, for a message of bucket `b`, ended in `v` with `k` receivers, the
-- flags `flag` and the registrations `ys` of the bucket
pub record Settled (w : Wait) (f : Entries) (b k flag : ℕ) (ys : List Registration) (v : Wait)
    : Type 0 where
  pub entries : Entries
  pub is : IsTable v.table entries
  pub bucket : reads v.table (entries b) ≡ ys
  pub within : (a : ℕ) → has a (entries b) ≡ true → has a (f b) ≡ true
  pub others : (c : ℕ) → ¬ (b ≡ c) → entries c ≡ f c
  pub left : v.receivers ≡ k
  pub flags : v.flag ≡ flag
  pub msg : v.table.msg ≡ w.table.msg
  pub pid : v.table.pid ≡ w.table.pid

Settled-now :
    (w : Wait) (f : Entries) (b k flag : ℕ) (ys : List Registration)
    → IsTable w.table f
    → w.receivers ≡ k
    → w.flag ≡ flag
    → reads w.table (f b) ≡ ys
    → Settled w f b k flag ys w
Settled-now w f b k flag ys is e g q = record {
  entries = f;
  is = is;
  bucket = q;
  within = λ a m. m;
  others = λ c d. refl;
  left = e;
  flags = g;
  msg = refl;
  pid = refl;
}

-- a round of which the wait makes one step
wait_step :
    (fuel : ℕ) (r : Round) (rs : List Round) (w v : Wait) (msg : ℕ)
    → (w.count == 0) ≡ false
    → let u = count_off r w in
      sweep fuel r.alive u (load u.table.lists (first (hash32 msg))) msg ≡ some v
      → wait fuel (r ∷ rs) w msg ≡ wait fuel rs v msg
unfolding wait
wait_step fuel r rs w v msg n run = rw (wait, n, run) refl

-- the round `r` of the wait led from `w` to `v`
record Passed (fuel msg : ℕ) (r : Round) (rs : List Round) (w : Wait) (f : Entries) (v : Wait)
    : Type 0 where
  entries : Entries
  run : wait fuel (r ∷ rs) w msg ≡ wait fuel rs v msg
  is : IsTable v.table entries
  count : v.count ≡ w.count - (r.handled + losses r.alive msg (reads w.table (f (hash32 msg))))
  flags : v.flag ≡ judged r.failed w.flag
  left : v.receivers ≡ w.receivers - losses r.alive msg (reads w.table (f (hash32 msg)))
  bucket :
      reads v.table (entries (hash32 msg)) ≡ remaining r.alive msg (reads w.table (f (hash32 msg)))
  shorter : length (entries (hash32 msg)) ≤ length (f (hash32 msg))
  within : (a : ℕ) → has a (entries (hash32 msg)) ≡ true → has a (f (hash32 msg)) ≡ true
  others : (c : ℕ) → ¬ (hash32 msg ≡ c) → entries c ≡ f c
  same_msg : v.table.msg ≡ w.table.msg
  same_pid : v.table.pid ≡ w.table.pid

wait-Passed :
    (fuel msg : ℕ) (r : Round) (rs : List Round) (w : Wait) (f : Entries)
    → IsTable w.table f
    → w.receivers < 2 ^ 32
    → w.count ≤ w.receivers
    → length (f (hash32 msg)) < fuel
    → (w.count == 0) ≡ false
    → r.handled + losses r.alive msg (reads w.table (f (hash32 msg))) ≤ w.count
    → (v : Wait) × Passed fuel msg r rs w f v
wait-Passed fuel msg r rs w f is c l h n fits =
    let b = hash32 msg in
    let out = is_gone r.alive w.table msg in
    let u = count_off r w in
    let lost = reads-gone r.alive w.table msg (f b) in
    let (v, run, s) =
      sweep-Swept fuel r.alive u msg f is (omega arith) (omega arith) (omega arith) (omega arith)
        h in
    (
      v,
      record {
        entries = s.entries;
        run = wait_step fuel r rs w v msg n run;
        is = s.is;
        count = omega (arith, s.counted);
        flags = s.flag;
        left = omega (arith, s.left);
        bucket =
            reads-same w.table v.table (s.entries b) s.msg s.pid
            ∙ ap (reads w.table) s.bucket
            ∙ reads-staying r.alive w.table msg (f b);
        shorter = subst (λ l. length l ≤ length (f b)) (sym s.bucket) (length-staying out (f b));
        within = λ a m. has-staying out a (f b) (subst (λ l. has a l ≡ true) s.bucket m);
        others = s.others;
        same_msg = s.msg;
        same_pid = s.pid;
      },
    )

Settled-after :
    (fuel msg k flag : ℕ) (r : Round) (rs : List Round) (w v o : Wait) (f : Entries)
    (ys : List Registration) (p : Passed fuel msg r rs w f v)
    → Settled v p.entries (hash32 msg) k flag ys o
    → Settled w f (hash32 msg) k flag ys o
Settled-after fuel msg k flag r rs w v o f ys p d = record {
  entries = d.entries;
  is = d.is;
  bucket = d.bucket;
  within = λ a m. p.within a (d.within a m);
  others = λ c q. d.others c q ∙ p.others c q;
  left = d.left;
  flags = d.flags;
  msg = d.msg ∙ p.same_msg;
  pid = d.pid ∙ p.same_pid;
}

-- what a wait that is over gives
abbrev found : Wait → List ℕ → Bool → Option (ℕ × Bool × List Registration)
found w xs before = some (w.receivers, before, reads w.table xs)

settled :
    (w : Wait) (xs : List ℕ) (k : ℕ) (before failed : Bool) (ys : List Registration)
    → found w xs before ≡ some (k, failed, ys)
    → (w.receivers ≡ k) × (before ≡ failed) × (reads w.table xs ≡ ys)
settled w xs k before failed ys e =
    (ap (λ z. (the z).0) e, ap (λ z. (the z).1) e, ap (λ z. (the z).2) e)
  where
    the : Option (ℕ × Bool × List Registration) → ℕ × Bool × List Registration
    the none = (k, failed, ys)
    the (some z) = z

-- if the receivers are all counted off or found gone in the rounds, each once, the wait ends
pub wait-Settled :
    (fuel : ℕ) (rs : List Round) (w : Wait) (msg : ℕ) (f : Entries) (k x : ℕ) (before failed : Bool)
    (ys : List Registration)
    → IsTable w.table f
    → w.flag ≡ judged before x
    → w.receivers < 2 ^ 32
    → w.count ≤ w.receivers
    → length (f (hash32 msg)) < fuel
    → settle msg rs before w.count w.receivers (reads w.table (f (hash32 msg)))
      ≡ some (k, failed, ys)
    → (v : Wait) × (wait fuel rs w msg ≡ some v) × Settled w f (hash32 msg) k (judged failed x) ys v
wait-Settled fuel [] w msg f k x before failed ys is p c l h e = elim (Bool-cases (w.count == 0)) [
  | inl z ↦
      let same : found w (f (hash32 msg)) before ≡ some (k, failed, ys) = ground arith in
      let (over, flags, rest) = settled w (f (hash32 msg)) k before failed ys same in
      (
        w,
        wait_over fuel [] w msg (ground arith),
        Settled-now w f (hash32 msg) k (judged failed x) ys is over (p ∙ ap (λ z. judged z x) flags)
            rest,
      )
  | inr n ↦ absurd (ground arith)
]
wait-Settled fuel (r ∷ rs) w msg f k x before failed ys is p c l h e =
    let b = hash32 msg in
    let g = losses r.alive msg (reads w.table (f b)) in
    elim (Bool-cases (w.count == 0)) [
      | inl z ↦
          let same : found w (f b) before ≡ some (k, failed, ys) = ground arith in
          let (over, flags, rest) = settled w (f b) k before failed ys same in
          (
            w,
            wait_over fuel (r ∷ rs) w msg (ground arith),
            Settled-now w f b k (judged failed x) ys is over (p ∙ ap (λ z. judged z x) flags) rest,
          )
      | inr n ↦ elim (Bool-cases (ltb w.count (r.handled + g))) [
        | inl more ↦ absurd (ground arith)
        | inr all ↦
            let rest : settle msg rs (before || r.failed) (w.count - (r.handled + g))
                  (w.receivers - g) (remaining r.alive msg (reads w.table (f b)))
                ≡ some (k, failed, ys) =
              ground arith in
            let (v, s) = wait-Passed fuel msg r rs w f is c l h n (ground arith) in
            let q : settle msg rs (before || r.failed) v.count v.receivers
                  (reads v.table (s.entries b))
                ≡ some (k, failed, ys) =
              rw (s.count, s.left, s.bucket) rest in
            let flags : v.flag ≡ judged (before || r.failed) x =
              s.flags ∙ ap (judged r.failed) p ∙ judged-judged before r.failed x in
            let (o, run, d) =
              wait-Settled fuel rs v msg s.entries k x (before || r.failed) failed ys s.is flags
                (omega (arith, s.left)) (omega (arith, s.left, s.count)) (omega (arith, s.shorter))
                q in
            (o, s.run ∙ run, Settled-after fuel msg k (judged failed x) r rs w v o f ys s d)
      ]
    ]
