-- ===== src/Sar.antt =====
-- The command line tool of src/emi_sar.c, which registers for a message or sends one. Texts are lists
-- of the characters' codes, without the zero at their end; `atol` is an argument. `none` is a read
-- behind the arguments or a write behind a buffer.
pub mod Parse
pub mod Unknown
pub mod Run
mod Tests
use emilib.Prelude.{
  ℕ, ◌≡◌, Bool, true, false, ◌||◌, Option, none, some, List, [], ◌∷◌, length, ltb, ◌==◌, ◌>>=◌,
  if◌then◌else◌,
}
use emilib.Prelude.Int.{ℤ, pos, negsuc, is_neg}
use emilib.Message.{has_flag, set_flag}

-- the bits of `option`, an `int` as the number of its 32 bits
abbrev pub register_msg : ℕ
register_msg = 0

abbrev pub send_msg : ℕ
send_msg = 1

abbrev pub msg_data : ℕ
msg_data = 2

abbrev pub msg_cmd : ℕ
msg_cmd = 3

abbrev pub msg_num : ℕ
msg_num = 4

abbrev pub block_mode : ℕ
block_mode = 5

-- -1
abbrev pub every_bit : ℕ
every_bit = 4294967295

abbrev pub dash : ℕ
dash = 45

-- the characters of the options: b, r, s, d, R, c and m
abbrev pub opt_b : ℕ
opt_b = 98

abbrev pub opt_r : ℕ
opt_r = 114

abbrev pub opt_s : ℕ
opt_s = 115

abbrev pub opt_d : ℕ
opt_d = 100

abbrev pub opt_ret : ℕ
opt_ret = 82

abbrev pub opt_c : ℕ
opt_c = 99

abbrev pub opt_m : ℕ
opt_m = 109

-- what the arguments set; the sizes are the lengths of the data
pub record Options : Type 0 where
  pub option : ℕ
  pub msgr : ℤ
  pub msgnum : ℤ
  pub cmd : ℤ
  pub addr : List ℕ
  pub sentdata : List ℕ
  pub retdata : List ℕ

abbrev pub no_options : Options
no_options = record {
  option = 0;
  msgr = negsuc 0;
  msgnum = negsuc 0;
  cmd = pos 0;
  addr = [];
  sentdata = [];
  retdata = [];
}

-- `option |= 1 << bit`
abbrev pub with_bit : ℕ → Options → Options
with_bit bit o = record o { option = set_flag o.option bit }

abbrev pub set_msgr : Options → ℤ → Options
set_msgr o n =
    if is_neg n then record o { msgr = n } else with_bit register_msg (record o { msgr = n })

abbrev pub set_msgnum : Options → ℤ → Options
set_msgnum o n =
    if is_neg n then record o { msgnum = n } else with_bit msg_num (record o { msgnum = n })

abbrev pub set_addr : Options → List ℕ → Options
set_addr o [] = record o { addr = [] }
set_addr o (c ∷ cs) = with_bit send_msg (record o { addr = c ∷ cs })

abbrev pub set_sentdata : Options → List ℕ → Options
set_sentdata o v = with_bit msg_data (record o { sentdata = v })

abbrev pub set_retdata : Options → List ℕ → Options
set_retdata o v = with_bit msg_data (record o { retdata = v })

abbrev pub set_cmd : Options → ℤ → Options
set_cmd o n = with_bit msg_cmd (record o { cmd = n })

-- `strcpy` to a buffer of `n` characters
abbrev pub copied : ℕ → (List ℕ → Options) → List ℕ → Option Options
copied n f v = if ltb (length v) n then some (f v) else none

-- the `switch`; `value` is the argument that follows
unfoldable pub parse_option : (List ℕ → ℤ) → Option (List ℕ) → ℕ → Options → Option Options
parse_option atol value opt o =
    if opt == opt_b
    then some (with_bit block_mode o)
    else if opt == opt_r
    then value >>= (λ v. some (set_msgr o (atol v)))
    else if opt == opt_s
    then value >>= copied 32 (set_addr o)
    else if opt == opt_d
    then value >>= copied 1024 (set_sentdata o)
    else if opt == opt_ret
    then value >>= copied 1024 (set_retdata o)
    else if opt == opt_c
    then value >>= (λ v. some (set_cmd o (atol v)))
    else if opt == opt_m
    then value >>= (λ v. some (set_msgnum o (atol v)))
    else some (record o { option = every_bit })

-- one argument: a character behind a dash is an option, and is looked at as a further dash
unfoldable pub parse_arg : (List ℕ → ℤ) → Option (List ℕ) → List ℕ → Options → Option Options
parse_arg atol value [] o = some o
parse_arg atol value (c ∷ []) o = some o
parse_arg atol value (c ∷ opt ∷ rest) o = elim (c == dash) [
  | false ↦ some o
  | true ↦ parse_option atol value opt o >>= parse_arg atol value (opt ∷ rest)
]

abbrev pub next_arg : List (List ℕ) → Option (List ℕ)
next_arg [] = none
next_arg (v ∷ vs) = some v

-- the loop over the arguments; a value is looked at as an argument, too
unfoldable pub parse_args : (List ℕ → ℤ) → List (List ℕ) → Options → Option Options
parse_args atol [] o = some o
parse_args atol (a ∷ args) o = parse_arg atol (next_arg args) a o >>= parse_args atol args

-- what `main` does: it registers, with return data or without, it sends, or it prints the usage
pub data Action : Type 0 where
  registers : ℤ → Bool → Action
  sends : Action
  shows_usage : Action

unfoldable pub choose : Options → Action
choose o =
    if has_flag o.option register_msg
    then registers o.msgr (has_flag o.option msg_data)
    else if has_flag o.option send_msg || has_flag o.option msg_num
    then sends
    else shows_usage

unfoldable pub main : (List ℕ → ℤ) → List (List ℕ) → Option (Action × Options)
main atol [] = some (shows_usage, no_options)
main atol (a ∷ args) = parse_args atol (a ∷ args) no_options >>= (λ o. some (choose o, o))
