-- ===== src/Config.antt =====
-- How `get_config` of src/emi_config.c reads the configuration file, once it is in memory. The text
-- is a list of character codes, and to read behind its end is a fault. `atoi` is an argument.
pub mod Lines
pub mod File
pub mod Load
mod Tests
use emilib.Prelude.{
  ℕ, zero, suc, Bool, true, false, ◌||◌, Option, none, some, List, [], ◌∷◌, ltb, ◌==◌,
  if◌then◌else◌, length,
}

-- the characters that end a value, and the one behind the name
abbrev pub hash_sign : ℕ
hash_sign = 35

abbrev pub newline : ℕ
newline = 10

abbrev pub equals_sign : ℕ
equals_sign = 61

-- `EMI_PORT`
abbrev pub emi_port : List ℕ
emi_port = 69 ∷ 77 ∷ 73 ∷ 95 ∷ 80 ∷ 79 ∷ 82 ∷ 84 ∷ []

abbrev pub ends_value : ℕ → Bool
ends_value c = (c == hash_sign) || (c == newline)

-- `sizeof(stack)`
abbrev pub stack_size : ℕ
stack_size = 256

abbrev pub tail : List ℕ → List ℕ
tail [] = []
tail (c ∷ cs) = cs

-- the loop to the end of the line
unfoldable pub skip_line : List ℕ → Option (List ℕ)
skip_line [] = none
skip_line (c ∷ cs) = if c == newline then some (c ∷ cs) else skip_line cs

abbrev pub skip_comment : List ℕ → Option (List ℕ)
skip_comment [] = none
skip_comment (c ∷ cs) = if ends_value c then skip_line (c ∷ cs) else some (c ∷ cs)

-- `strncmp` of a name with the text, and what follows the name
pub data Match : Type 0 where
  found : List ℕ → Match
  differs : Match
  beyond : Match

unfoldable pub match_term : List ℕ → List ℕ → Match
match_term [] p = found p
match_term (k ∷ ks) [] = beyond
match_term (k ∷ ks) (c ∷ cs) = if k == c then match_term ks cs else differs

abbrev pub push : ℕ → Option (List ℕ × List ℕ) → Option (List ℕ × List ℕ)
push c none = none
push c (some (stack, p)) = some (c ∷ stack, p)

-- the loop that copies the value
unfoldable pub read_stack : List ℕ → Option (List ℕ × List ℕ)
read_stack [] = none
read_stack (c ∷ []) = if ends_value c then some ([], c ∷ []) else none
read_stack (c ∷ d ∷ cs) =
    if ends_value c
    then some ([], c ∷ d ∷ cs)
    else if c == equals_sign
    then push d (read_stack cs)
    else push c (read_stack (d ∷ cs))

-- the loop over the text; `port` is what the member held. `stack` wants a last character that is 0
unfoldable pub get_config : ℕ → (List ℕ → ℕ) → ℕ → List ℕ → Option ℕ
get_config zero atoi port p = none
get_config (suc n) atoi port [] = some port
get_config (suc n) atoi port (c ∷ cs) = elim (skip_comment (c ∷ cs)) [
  | none ↦ none
  | some p ↦ elim (match_term emi_port p) [
    | beyond ↦ none
    | differs ↦ get_config n atoi port (tail p)
    | found q ↦ elim (read_stack q) [
      | none ↦ none
      | some r ↦
          let (stack, rest) = r in
          if ltb (length stack) stack_size then get_config n atoi (atoi stack) (tail rest) else none
    ]
  ]
]
