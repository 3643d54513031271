-- ===== src/Broker/Main.antt =====
-- The command line of the broker, src/main.c. Texts are lists of the characters' codes, without the
-- zero at their end.
use emilib.Prelude.{
  ℕ, ◌≡◌, ◌∙◌, refl, ap, ◌||◌, arith, Bool, true, false, Option, none, some, List, [], ◌∷◌, ◌++◌,
  length, ltb, ◌==◌, ◌>>=◌, if◌then◌else◌, Bool-cases, inl, inr,
}
use emilib.Hlist.Chain.{has}

abbrev pub dash : ℕ
dash = 45

-- the characters d and h
abbrev pub opt_d : ℕ
opt_d = 100

abbrev pub opt_h : ℕ
opt_h = 104

-- the characters behind a dash: whether DAEMONIZE is set behind them, or `none` where the usage is
-- printed
unfoldable pub parse_flags : List ℕ → Bool → Option Bool
parse_flags [] daemonize = some daemonize
parse_flags (opt ∷ rest) daemonize =
    let set = parse_flags rest true in
    let cleared = parse_flags rest false in
    if opt == opt_d then set else if opt == opt_h then none else cleared

-- the loop over the arguments, which ends at the first without a dash
unfoldable pub parse_args : List (List ℕ) → Bool → Option Bool
parse_args [] daemonize = some daemonize
parse_args ([] ∷ args) daemonize = some daemonize
parse_args ((c ∷ flags) ∷ args) daemonize =
    if c == dash then parse_flags flags daemonize >>= parse_args args else some daemonize

-- `main`: whether the broker runs as a daemon, or `none` where it prints its usage
unfoldable pub main : List (List ℕ) → Option Bool
main args = if ltb 1 (length args) then none else parse_args args false

only_d :
    (ds : List ℕ) (b : Bool)
    → ((d : ℕ) → has d ds ≡ true → d ≡ opt_d)
    → parse_flags ds b ≡ some (has opt_d ds || b)
unfolding parse_flags
only_d [] b k = refl
only_d (d ∷ ds) b k =
    let q = k d (ground arith) in
    let e : (d == opt_d) ≡ true = ground arith in
    let e' : has opt_d (d ∷ ds) ≡ true = ground arith in
    rw (e, e') (only_d ds true (λ c m. k c (ground arith)) ∙ ap some (or-true (has opt_d ds)))
  where
    or-true : (b : Bool) → (b || true) ≡ true
    or-true true = refl
    or-true false = refl

-- an unknown character takes back what stood before it: where neither the characters before it nor
-- itself is h, and behind it there is only d, the broker runs as a daemon if there is a d behind it
pub parse_flags-unknown :
    (before : List ℕ) (c : ℕ) (after : List ℕ) (daemonize : Bool)
    → has opt_h before ≡ false
    → (c == opt_h) ≡ false
    → (c == opt_d) ≡ false
    → ((d : ℕ) → has d after ≡ true → d ≡ opt_d)
    → parse_flags (before ++ (c ∷ after)) daemonize ≡ some (has opt_d after)
unfolding parse_flags
parse_flags-unknown [] c after daemonize h nh nd only =
    rw (nh, nd) (only_d after false only ∙ ap some (or-false (has opt_d after)))
  where
    or-false : (b : Bool) → (b || false) ≡ b
    or-false true = refl
    or-false false = refl
parse_flags-unknown (d ∷ before) c after daemonize h nh nd only =
    let k : (d == opt_h) ≡ false = ground arith in
    let rest = parse_flags-unknown before c after true (ground arith) nh nd only in
    let rest' = parse_flags-unknown before c after false (ground arith) nh nd only in
    elim (Bool-cases (d == opt_d)) [ inl e ↦ rw e rest | inr n ↦ rw (n, k) rest' ]
