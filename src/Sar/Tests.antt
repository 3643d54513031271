-- ===== src/Sar/Tests.antt =====
-- Command lines of the tool of src/emi_sar.c, with the address `7` and over the slow connection.
use emilib.Prelude.{
  ℕ, zero, suc, ◌≡◌, refl, ap, arith, true, none, some, List, [], ◌∷◌, length, ◌>>=◌, if◌then◌else◌,
}
use emilib.Prelude.Int.{ℤ, pos, negsuc}
use emilib.Hlist.Chain.{has}
use emilib.Message.{EmiMsg, store_bytes}
use emilib.Sock.Slow.{Line, slow}
use emilib.Client.{inaddr_none, colon, zeros, emi_msg_send}
use emilib.Sar.{
  dash, Options, no_options, parse_option, parse_arg, parse_args, Action, registers, choose, main,
}
use emilib.Sar.Parse.{
  Setting, blocks, sends_to, gives_data, gives_msg, print_all, apply_all, IsValue,
  parse_args-print_all,
}
use emilib.Sar.Unknown.{main-unknown}
use emilib.Sar.Run.{blocking, Library, send, unset, Posted, send-Posted, send_port}

-- numbers as so many ones
abbrev ones : ℕ → List ℕ
ones zero = []
ones (suc n) = 49 ∷ ones n

abbrev count : List ℕ → ℤ
count v = pos (length v)

count-ones : (n : ℕ) → count (ones n) ≡ pos n
count-ones zero = refl
count-ones (suc n) = ap (λ z. pos (suc z)) (ap magnitude (count-ones n))
  where
    magnitude : ℤ → ℕ
    magnitude (pos n) = n
    magnitude (negsuc n) = n

ones-IsValue : (n : ℕ) → IsValue (ones n)
ones-IsValue zero = tt
ones-IsValue (suc n) = refl

-- `-b -s 7 -m 111 -d 55`
abbrev settings : List Setting
settings = blocks ∷ sends_to (55 ∷ []) ∷ gives_msg 3 ∷ gives_data (53 ∷ 53 ∷ []) ∷ []

parse_args-print_all_example :
    parse_args count (print_all count ones count-ones ones-IsValue settings) no_options
    ≡ some (apply_all settings no_options)
parse_args-print_all_example =
    parse_args-print_all count ones count-ones ones-IsValue settings no_options
      (tt, ((refl, omega arith), (tt, ((refl, omega arith), tt))))

-- `-c -1`
abbrev below_zero : Action × Options
below_zero = (registers (negsuc 0) true, record no_options { option = 4294967295; cmd = pos 2 })

below_zero-main : main count ((dash ∷ 99 ∷ []) ∷ ((dash ∷ 49 ∷ []) ∷ [])) ≡ some below_zero
unfolding main parse_args parse_arg parse_option choose
below_zero-main = refl

main-unknown_example : below_zero.0 ≡ registers below_zero.1.msgr true
main-unknown_example =
    main-unknown count ((dash ∷ 99 ∷ []) ∷ []) 49 [] [] below_zero
      (refl, refl, refl, refl, refl, refl, refl) below_zero-main

abbrev inet_addr : List ℕ → ℕ
inet_addr xs = if has colon xs then inaddr_none else 7

abbrev library : Library Line
library = record {
  inet_addr = inet_addr;
  atoi = length;
  emi_port = 1361;
  pid = 9;
  connect = λ to. some ([], []);
  sizeof_msg = 80;
  mem = λ c. 1;
  malloc = some 100;
  malloc_ret = none;
}

abbrev chosen : Options
chosen = apply_all settings no_options

send-Posted_example : (m : EmiMsg) × (mem : ℕ → ℕ) × Posted Line 2 60 slow library chosen 100 m mem
send-Posted_example = send-Posted Line 2 60 slow library chosen 100 refl refl refl (omega arith)

-- `7:1`
abbrev with_port : Options
with_port = record chosen { addr = 55 ∷ colon ∷ 49 ∷ [] }

send_port_example : send 2 60 slow library with_port ≡ (
    emi_msg_send 2 60 slow
      (some ([], []))
      (store_bytes (λ c. 1) 100 (zeros 82))
      100
      none
      (blocking with_port (unset 80 100 2))
    >>= (λ s. some (some s)))
send_port_example =
    send_port Line 2 60 slow library with_port 100 (55 ∷ []) (49 ∷ []) (λ xs h. rw h refl) refl refl
      refl (omega arith) (omega arith)
