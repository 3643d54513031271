-- ===== src/Sar/Unknown.antt =====
-- What an unknown option of src/emi_sar.c does.
use emilib.Prelude.{
  ℕ, ◌+◌, ◌^◌, ◌≡◌, refl, ap, ◌∙◌, inl, inr, Bool, true, false, Option, none, some, List, [], ◌∷◌,
  ◌++◌, length, ltb, ◌==◌, ◌>>=◌, if◌then◌else◌, Bool-cases,
}
use mathlib.Core.Path.{subst}
use emilib.Prelude.Int.{ℤ, pos, negsuc}
use emilib.Message.{has_flag, set_flag}
use emilib.Sar.{
  register_msg, send_msg, msg_data, msg_cmd, msg_num, block_mode, every_bit, dash, opt_b, opt_r,
  opt_s, opt_d, opt_ret, opt_c, opt_m, Options, no_options, set_msgr, set_msgnum, set_addr,
  set_sentdata, set_retdata, copied, parse_option, parse_arg, next_arg, parse_args, Action,
  registers, choose, main,
}

-- the characters that are no options
abbrev pub IsUnknown : ℕ → Type 0
IsUnknown c =
    ((c == opt_b) ≡ false)
    × ((c == opt_r) ≡ false)
    × ((c == opt_s) ≡ false)
    × ((c == opt_d) ≡ false)
    × ((c == opt_ret) ≡ false)
    × ((c == opt_c) ≡ false)
    × ((c == opt_m) ≡ false)

-- if there are options, every bit of `option` is set
abbrev FullOf : Option Options → Type 0
FullOf none = Unit {0}
FullOf (some o) = o.option ≡ every_bit

FullOf-if : (b : Bool) (x y : Option Options) → FullOf x → FullOf y → FullOf (if b then x else y)
FullOf-if true x y f g = f
FullOf-if false x y f g = g

FullOf-bind :
    (m : Option Options) (f : Options → Option Options)
    → FullOf m
    → ((o : Options) → o.option ≡ every_bit → FullOf (f o))
    → FullOf (m >>= f)
FullOf-bind none f m k = tt
FullOf-bind (some o) f m k = k o m

FullOf-after :
    (A : Type 0) (m : Option A) (f : A → Option Options)
    → ((a : A) → FullOf (f a))
    → FullOf (m >>= f)
FullOf-after A none f k = tt
FullOf-after A (some a) f k = k a

FullOf-copied :
    (n : ℕ) (f : List ℕ → Options) (v : List ℕ) → (f v).option ≡ every_bit → FullOf (copied n f v)
FullOf-copied n f v h = FullOf-if (ltb (length v) n) (some (f v)) none h tt

-- a bit of -1 that is set again
kept :
    (bit : ℕ) (o : Options)
    → has_flag every_bit bit ≡ true
    → o.option ≡ every_bit
    → set_flag o.option bit ≡ every_bit
kept bit o h i =
    ap (λ z. set_flag z bit) i ∙ ap (λ z. if z then every_bit else every_bit + 2 ^ bit) h

set_msgr-full : (o : Options) (n : ℤ) → o.option ≡ every_bit → (set_msgr o n).option ≡ every_bit
set_msgr-full o (pos n) i = kept register_msg o refl i
set_msgr-full o (negsuc n) i = i

set_msgnum-full : (o : Options) (n : ℤ) → o.option ≡ every_bit → (set_msgnum o n).option ≡ every_bit
set_msgnum-full o (pos n) i = kept msg_num o refl i
set_msgnum-full o (negsuc n) i = i

set_addr-full :
    (o : Options) (v : List ℕ) → o.option ≡ every_bit → (set_addr o v).option ≡ every_bit
set_addr-full o [] i = i
set_addr-full o (c ∷ cs) i = kept send_msg o refl i

module _ (atol : List ℕ → ℤ) where
  parse_option-full :
      (v : Option (List ℕ)) (opt : ℕ) (o : Options)
      → o.option ≡ every_bit
      → FullOf (parse_option atol v opt o)
  unfolding parse_option
  parse_option-full v opt o i = FullOf-if (opt == opt_b) _ _ (kept block_mode o refl i) (
      FullOf-if (opt == opt_r) _ _ (FullOf-after (List ℕ) v _ (λ x. set_msgr-full o (atol x) i)) (
        FullOf-if (opt == opt_s) _ _
          (FullOf-after (List ℕ) v _ (λ x. FullOf-copied 32 (set_addr o) x (set_addr-full o x i)))
          (FullOf-if (opt == opt_d) _ _
            (FullOf-after (List ℕ) v _
              (λ x. FullOf-copied 1024 (set_sentdata o) x (kept msg_data o refl i)))
            (FullOf-if (opt == opt_ret) _ _
              (FullOf-after (List ℕ) v _
                (λ x. FullOf-copied 1024 (set_retdata o) x (kept msg_data o refl i)))
              (FullOf-if (opt == opt_c) _ _ (FullOf-after (List ℕ) v _ (λ x. kept msg_cmd o refl i))
                (FullOf-if (opt == opt_m) _ _
                  (FullOf-after (List ℕ) v _ (λ x. set_msgnum-full o (atol x) i)) refl))))))

  parse_arg-full :
      (v : Option (List ℕ)) (a : List ℕ) (o : Options)
      → o.option ≡ every_bit
      → FullOf (parse_arg atol v a o)
  unfolding parse_arg
  parse_arg-full v [] o i = i
  parse_arg-full v (c ∷ []) o i = i
  parse_arg-full v (c ∷ d ∷ cs) o i = elim (Bool-cases (c == dash)) [
    | inl e ↦
        rw (parse_arg, e)
          (FullOf-bind (parse_option atol v d o) (parse_arg atol v (d ∷ cs))
            (parse_option-full v d o i) (λ p j. parse_arg-full v (d ∷ cs) p j))
    | inr n ↦ rw (parse_arg, n) i
  ]

  parse_args-full :
      (args : List (List ℕ)) (o : Options) → o.option ≡ every_bit → FullOf (parse_args atol args o)
  unfolding parse_args
  parse_args-full [] o i = i
  parse_args-full (a ∷ args) o i =
      FullOf-bind (parse_arg atol (next_arg args) a o) (parse_args atol args)
        (parse_arg-full (next_arg args) a o i) (λ p j. parse_args-full args p j)

  unknown_arg :
      (v : Option (List ℕ)) (c : ℕ) (cs : List ℕ) (o : Options)
      → IsUnknown c
      → FullOf (parse_arg atol v (dash ∷ c ∷ cs) o)
  unfolding parse_arg parse_option
  unknown_arg v c cs o (b, r, s, d, e, f, g) =
      let all : parse_option atol v c o ≡ some (record o { option = every_bit }) =
        rw (parse_option, b, r, s, d, e, f, g) refl in
      rw (parse_arg, all) (parse_arg-full v (c ∷ cs) (record o { option = every_bit }) refl)

  unknown_args :
      (before : List (List ℕ)) (c : ℕ) (cs : List ℕ) (after : List (List ℕ)) (o : Options)
      → IsUnknown c
      → FullOf (parse_args atol (before ++ ((dash ∷ c ∷ cs) ∷ after)) o)
  unfolding parse_args
  unknown_args [] c cs after o u =
      FullOf-bind (parse_arg atol (next_arg after) (dash ∷ c ∷ cs) o) (parse_args atol after)
        (unknown_arg (next_arg after) c cs o u) (λ p j. parse_args-full after p j)
  unknown_args (a ∷ before) c cs after o u =
      FullOf-after Options (parse_arg atol (next_arg (before ++ ((dash ∷ c ∷ cs) ∷ after))) a o)
        (parse_args atol (before ++ ((dash ∷ c ∷ cs) ∷ after)))
        (λ p. unknown_args before c cs after p u)

  chosen :
      (m : Option Options) (r : Action × Options)
      → FullOf m
      → (m >>= (λ o. some (choose o, o))) ≡ some r
      → r.0 ≡ registers r.1.msgr true
  unfolding choose
  chosen none r f e = cc
  chosen (some o) r f e =
      let q : (choose o, o) ≡ r = ap (λ z. elim z [ none ↦ (choose o, o) | some x ↦ x ]) e in
      subst (λ z. z.0 ≡ registers z.1.msgr true) q (rw (choose, f) refl)

  -- if an argument begins with a dash and a character that is no option, and the arguments are read
  -- to their end, the tool registers for the number in msgr, with return data, whatever the other
  -- arguments ask for
  pub main-unknown :
      (before : List (List ℕ)) (c : ℕ) (cs : List ℕ) (after : List (List ℕ)) (r : Action × Options)
      → IsUnknown c
      → main atol (before ++ ((dash ∷ c ∷ cs) ∷ after)) ≡ some r
      → r.0 ≡ registers r.1.msgr true
  unfolding main
  main-unknown [] c cs after r u e =
      chosen (parse_args atol ((dash ∷ c ∷ cs) ∷ after) no_options) r
        (unknown_args [] c cs after no_options u) e
  main-unknown (a ∷ before) c cs after r u e =
      chosen (parse_args atol (a ∷ (before ++ ((dash ∷ c ∷ cs) ∷ after))) no_options) r
        (unknown_args (a ∷ before) c cs after no_options u) e
