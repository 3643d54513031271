-- ===== src/Config/Lines.antt =====
-- What `get_config` of src/emi_config.c finds in a file of lines.
use emilib.Prelude.{
  ℕ, zero, suc, ◌<◌, ◌≡◌, refl, ◌∙◌, arith, true, false, some, List, [], ◌∷◌, ◌++◌, ltb, ◌==◌,
  length,
}
use emilib.Hlist.Chain.{has}
use emilib.Config.{
  hash_sign, newline, equals_sign, emi_port, ends_value, stack_size, skip_line, found, match_term,
  read_stack, get_config,
}

-- a line of the file
pub data Line : Type 0 where
  comment : List ℕ → Line
  blank : Line
  setting : List ℕ → Line

abbrev pub print : Line → List ℕ → List ℕ
print (comment xs) rest = hash_sign ∷ (xs ++ (newline ∷ rest))
print blank rest = newline ∷ rest
print (setting ds) rest = emi_port ++ (equals_sign ∷ (ds ++ (newline ∷ rest)))

abbrev pub print_all : List Line → List ℕ
print_all [] = []
print_all (l ∷ ls) = print l (print_all ls)

-- a value: it ends with the line, and it is not empty
abbrev pub IsValue : List ℕ → Type 0
IsValue ds =
    (has hash_sign ds ≡ false)
    × (has newline ds ≡ false)
    × (has equals_sign ds ≡ false)
    × (0 < length ds)
    × (length ds < stack_size)

abbrev pub IsLine : Line → Type 0
IsLine (comment xs) = has newline xs ≡ false
IsLine blank = Unit {0}
IsLine (setting ds) = IsValue ds

abbrev pub AreLines : List Line → Type 0
AreLines [] = Unit {0}
AreLines (l ∷ ls) = IsLine l × AreLines ls

-- the port of the last setting, or `port`
abbrev pub last_port : (List ℕ → ℕ) → ℕ → List Line → ℕ
last_port atoi port [] = port
last_port atoi port (setting ds ∷ ls) = last_port atoi (atoi ds) ls
last_port atoi port (comment xs ∷ ls) = last_port atoi port ls
last_port atoi port (blank ∷ ls) = last_port atoi port ls

skip_line-comment :
    (xs rest : List ℕ)
    → has newline xs ≡ false
    → skip_line (xs ++ (newline ∷ rest)) ≡ some (newline ∷ rest)
unfolding skip_line
skip_line-comment [] rest h = refl
skip_line-comment (x ∷ xs) rest h = ground (arith, skip_line-comment xs rest)

-- the value is read up to the character that ends it
read_stack_rest :
    (ds rest : List ℕ) (c : ℕ)
    → has hash_sign ds ≡ false
    → has newline ds ≡ false
    → has equals_sign ds ≡ false
    → ends_value c ≡ true
    → read_stack (ds ++ (c ∷ rest)) ≡ some (ds, c ∷ rest)
unfolding read_stack
read_stack_rest [] [] c h n q e = rw e refl
read_stack_rest [] (x ∷ rest) c h n q e = rw e refl
read_stack_rest (d ∷ []) rest c h n q e =
    let inner : ends_value d ≡ false = ground arith in
    let plain : (d == equals_sign) ≡ false = ground arith in
    let after = read_stack_rest [] rest c refl refl refl e in rw (inner, plain, after) refl
read_stack_rest (d ∷ d' ∷ ds) rest c h n q e =
    let inner : ends_value d ≡ false = ground arith in
    let plain : (d == equals_sign) ≡ false = ground arith in
    let after = read_stack_rest (d' ∷ ds) rest c (ground arith) (ground arith) (ground arith) e in
    rw (inner, plain, after) refl

read_stack_value :
    (ds rest : List ℕ) (c : ℕ)
    → IsValue ds
    → ends_value c ≡ true
    → read_stack (equals_sign ∷ (ds ++ (c ∷ rest))) ≡ some (ds, c ∷ rest)
unfolding read_stack
read_stack_value [] rest c (h, n, q, p, l) e = absurd (omega arith)
read_stack_value (d ∷ ds) rest c (h, n, q, p, l) e =
    let after = read_stack_rest ds rest c (ground arith) (ground arith) (ground arith) e in
    rw after refl

match_term-emi_port : (q : List ℕ) → match_term emi_port (emi_port ++ q) ≡ found q
unfolding match_term
match_term-emi_port q = refl

-- a setting whose value ends with the character `c`
setting_step :
    (n : ℕ) (atoi : List ℕ → ℕ) (port : ℕ) (ds rest : List ℕ) (c : ℕ)
    → IsValue ds
    → ends_value c ≡ true
    → get_config (suc n) atoi port (emi_port ++ (equals_sign ∷ (ds ++ (c ∷ rest))))
      ≡ get_config n atoi (atoi ds) rest
unfolding get_config
setting_step n atoi port ds rest c v e =
    let (h, k, q, p, l) = v in
    let short : ltb (length ds) stack_size ≡ true = ground arith in
    rw
      (
        get_config,
        match_term-emi_port (equals_sign ∷ (ds ++ (c ∷ rest))),
        read_stack_value ds rest c v e,
        short,
      )
      refl

comment_step :
    (n : ℕ) (atoi : List ℕ → ℕ) (port : ℕ) (xs rest : List ℕ)
    → has newline xs ≡ false
    → get_config (suc n) atoi port (hash_sign ∷ (xs ++ (newline ∷ rest)))
      ≡ get_config n atoi port rest
unfolding get_config skip_line match_term
comment_step n atoi port xs rest h = rw (get_config, skip_line-comment xs rest h) refl

-- a file of comments, blank lines and settings, with more fuel than lines, is read to its end, and
-- the port is that of its last setting
pub get_config-print_all :
    (fuel : ℕ) (atoi : List ℕ → ℕ) (port : ℕ) (ls : List Line)
    → AreLines ls
    → length ls < fuel
    → get_config fuel atoi port (print_all ls) ≡ some (last_port atoi port ls)
unfolding get_config skip_line match_term
get_config-print_all zero atoi port ls ok h = absurd (omega arith)
get_config-print_all (suc n) atoi port [] ok h = refl
get_config-print_all (suc n) atoi port (comment xs ∷ ls) (l, ok) h =
    comment_step n atoi port xs (print_all ls) l
    ∙ get_config-print_all n atoi port ls ok (omega arith)
get_config-print_all (suc n) atoi port (blank ∷ ls) (l, ok) h =
    get_config-print_all n atoi port ls ok (omega arith)
get_config-print_all (suc n) atoi port (setting ds ∷ ls) (l, ok) h =
    setting_step n atoi port ds (print_all ls) newline l refl
    ∙ get_config-print_all n atoi (atoi ds) ls ok (omega arith)

-- a setting in a comment that stands behind a setting is read as one
pub get_config_commented :
    (atoi : List ℕ → ℕ) (port : ℕ) (ds es : List ℕ)
    → IsValue ds
    → IsValue es
    → get_config 3 atoi port (
        emi_port
        ++ (equals_sign
            ∷ (ds ++ (hash_sign ∷ (emi_port ++ (equals_sign ∷ (es ++ (newline ∷ []))))))))
      ≡ some (atoi es)
unfolding get_config
get_config_commented atoi port ds es v w =
    setting_step 2 atoi port ds (emi_port ++ (equals_sign ∷ (es ++ (newline ∷ [])))) hash_sign v
      refl
    ∙ setting_step 1 atoi (atoi ds) es [] newline w refl
