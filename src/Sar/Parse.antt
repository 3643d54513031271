-- ===== src/Sar/Parse.antt =====
-- Which options the command line of src/emi_sar.c sets.
use emilib.Prelude.{
  ℕ, ◌<◌, ◌≡◌, refl, ap, ◌∙◌, true, false, Option, some, List, [], ◌∷◌, ◌++◌, arith, length, ltb,
  ◌==◌, ◌>>=◌,
}
use emilib.Prelude.Int.{ℤ, pos}
use emilib.Message.{set_flag}
use emilib.Sar.{
  register_msg, send_msg, msg_data, msg_cmd, msg_num, block_mode, dash, opt_b, opt_r, opt_s, opt_d,
  opt_ret, opt_c, opt_m, Options, set_msgr, set_msgnum, set_addr, set_sentdata, set_retdata,
  set_cmd, copied, parse_option, parse_arg, next_arg, parse_args,
}

-- the options, as one means them
pub data Setting : Type 0 where
  blocks : Setting
  registers_for : ℕ → Setting
  sends_to : List ℕ → Setting
  gives_data : List ℕ → Setting
  gives_retdata : List ℕ → Setting
  gives_cmd : ℕ → Setting
  gives_msg : ℕ → Setting

-- what a setting sets
abbrev pub apply : Setting → Options → Options
apply blocks o = record o { option = set_flag o.option block_mode }
apply (registers_for n) o = record o { option = set_flag o.option register_msg; msgr = pos n }
apply (sends_to []) o = record o { addr = [] }
apply (sends_to (c ∷ cs)) o = record o { option = set_flag o.option send_msg; addr = c ∷ cs }
apply (gives_data v) o = record o { option = set_flag o.option msg_data; sentdata = v }
apply (gives_retdata v) o = record o { option = set_flag o.option msg_data; retdata = v }
apply (gives_cmd n) o = record o { option = set_flag o.option msg_cmd; cmd = pos n }
apply (gives_msg n) o = record o { option = set_flag o.option msg_num; msgnum = pos n }

abbrev pub apply_all : List Setting → Options → Options
apply_all [] o = o
apply_all (x ∷ xs) o = apply_all xs (apply x o)

-- an argument that begins with another character than a dash
abbrev pub IsValue : List ℕ → Type 0
IsValue [] = Unit {0}
IsValue (c ∷ cs) = (c == dash) ≡ false

-- the values are no options and fit into their buffers
abbrev pub Fits : Setting → Type 0
Fits blocks = Unit {0}
Fits (registers_for n) = Unit {0}
Fits (sends_to v) = IsValue v × (length v < 32)
Fits (gives_data v) = IsValue v × (length v < 1024)
Fits (gives_retdata v) = IsValue v × (length v < 1024)
Fits (gives_cmd n) = Unit {0}
Fits (gives_msg n) = Unit {0}

abbrev pub AllFit : List Setting → Type 0
AllFit [] = Unit {0}
AllFit (x ∷ xs) = Fits x × AllFit xs

parse_arg-value :
    (atol : List ℕ → ℤ) (next : Option (List ℕ)) (v : List ℕ) (o : Options)
    → IsValue v
    → parse_arg atol next v o ≡ some o
unfolding parse_arg
parse_arg-value atol next [] o i = refl
parse_arg-value atol next (c ∷ []) o i = refl
parse_arg-value atol next (c ∷ d ∷ cs) o i = rw (parse_arg, i) refl

parse_arg-option :
    (atol : List ℕ → ℤ) (next : Option (List ℕ)) (opt : ℕ) (o p : Options)
    → parse_option atol next opt o ≡ some p
    → parse_arg atol next (dash ∷ opt ∷ []) o ≡ some p
unfolding parse_arg
parse_arg-option atol next opt o p e = rw e refl

-- an option with its value
parse_args-pair :
    (atol : List ℕ → ℤ) (opt : ℕ) (v : List ℕ) (rest : List (List ℕ)) (o p : Options)
    → IsValue v
    → parse_option atol (some v) opt o ≡ some p
    → parse_args atol ((dash ∷ opt ∷ []) ∷ v ∷ rest) o ≡ parse_args atol rest p
unfolding parse_args
parse_args-pair atol opt v rest o p i e =
    rw (parse_arg-option atol (some v) opt o p e, parse_arg-value atol (next_arg rest) v p i) refl

copied-some : (n : ℕ) (f : List ℕ → Options) (v : List ℕ) → length v < n → copied n f v ≡ some (f v)
copied-some n f v l = let e : ltb (length v) n ≡ true = ground arith in rw e refl

set_addr-apply : (v : List ℕ) (o : Options) → set_addr o v ≡ apply (sends_to v) o
set_addr-apply [] o = refl
set_addr-apply (c ∷ cs) o = refl

module _ (atol : List ℕ → ℤ) (itoa : ℕ → List ℕ) (back : (n : ℕ) → atol (itoa n) ≡ pos n)
    (plain : (n : ℕ) → IsValue (itoa n)) where
  -- the arguments of a setting
  abbrev pub print : Setting → List (List ℕ)
  print blocks = (dash ∷ opt_b ∷ []) ∷ []
  print (registers_for n) = (dash ∷ opt_r ∷ []) ∷ itoa n ∷ []
  print (sends_to v) = (dash ∷ opt_s ∷ []) ∷ v ∷ []
  print (gives_data v) = (dash ∷ opt_d ∷ []) ∷ v ∷ []
  print (gives_retdata v) = (dash ∷ opt_ret ∷ []) ∷ v ∷ []
  print (gives_cmd n) = (dash ∷ opt_c ∷ []) ∷ itoa n ∷ []
  print (gives_msg n) = (dash ∷ opt_m ∷ []) ∷ itoa n ∷ []

  abbrev pub print_all : List Setting → List (List ℕ)
  print_all [] = []
  print_all (x ∷ xs) = print x ++ print_all xs

  print-parse :
      (x : Setting) (rest : List (List ℕ)) (o : Options)
      → Fits x
      → parse_args atol (print x ++ rest) o ≡ parse_args atol rest (apply x o)
  unfolding parse_args parse_option
  print-parse blocks rest o f =
      ap (λ z. z >>= parse_args atol rest)
        (parse_arg-option atol (next_arg rest) opt_b o (apply blocks o) refl)
  print-parse (registers_for n) rest o f =
      parse_args-pair atol opt_r (itoa n) rest o (apply (registers_for n) o) (plain n)
        (ap (λ z. some (set_msgr o z)) (back n))
  print-parse (sends_to v) rest o (i, l) =
      parse_args-pair atol opt_s v rest o (apply (sends_to v) o) i
        (copied-some 32 (set_addr o) v l ∙ ap some (set_addr-apply v o))
  print-parse (gives_data v) rest o (i, l) =
      parse_args-pair atol opt_d v rest o (apply (gives_data v) o) i
        (copied-some 1024 (set_sentdata o) v l)
  print-parse (gives_retdata v) rest o (i, l) =
      parse_args-pair atol opt_ret v rest o (apply (gives_retdata v) o) i
        (copied-some 1024 (set_retdata o) v l)
  print-parse (gives_cmd n) rest o f =
      parse_args-pair atol opt_c (itoa n) rest o (apply (gives_cmd n) o) (plain n)
        (ap (λ z. some (set_cmd o z)) (back n))
  print-parse (gives_msg n) rest o f =
      parse_args-pair atol opt_m (itoa n) rest o (apply (gives_msg n) o) (plain n)
        (ap (λ z. some (set_msgnum o z)) (back n))

  -- where atol reads back what itoa writes, without a dash, a command line of settings whose values
  -- fit into their buffers and do not begin with a dash sets what its settings mean, in their order
  pub parse_args-print_all :
      (xs : List Setting) (o : Options)
      → AllFit xs
      → parse_args atol (print_all xs) o ≡ some (apply_all xs o)
  unfolding parse_args
  parse_args-print_all [] o f = refl
  parse_args-print_all (x ∷ xs) o (f, fs) =
      print-parse x (print_all xs) o f ∙ parse_args-print_all xs (apply x o) fs
