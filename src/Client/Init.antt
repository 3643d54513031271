-- ===== src/Client/Init.antt =====
-- `emi_msg_init` of src/emi_if.c with an address that names a port.
use emilib.Prelude.{
  ℕ, ◌<◌, ◌≡◌, refl, arith, true, false, Option, some, List, [], ◌∷◌, ◌++◌, ltb, ◌==◌, length,
}
use emilib.Hlist.Chain.{has}
use emilib.Client.{
  Client, colon, split_at_colon, split_ipaddr, inaddr_none, emi_addr_init, emi_msg_init,
}

split_at_colon-parts :
    (ip port : List ℕ)
    → has colon ip ≡ false
    → split_at_colon (ip ++ (colon ∷ port)) ≡ (ip, some port)
unfolding split_at_colon
split_at_colon-parts [] port h = refl
split_at_colon-parts (c ∷ ip) port h =
    let other : (c == colon) ≡ false = ground arith in
    let rest = split_at_colon-parts ip port (ground arith) in rw (other, rest) refl

-- an address with its port is parsed: the two parts, if they fit
pub split_ipaddr-parts :
    (atoi : List ℕ → ℕ) (emi_port : ℕ) (ip port : List ℕ)
    → has colon ip ≡ false
    → length ip < 16
    → length (ip ++ (colon ∷ port)) < 32
    → split_ipaddr atoi emi_port (ip ++ (colon ∷ port)) ≡ some (ip, atoi port)
unfolding split_ipaddr
split_ipaddr-parts atoi emi_port ip port h small long =
    let whole : ltb (length (ip ++ (colon ∷ port))) 32 ≡ true = ground arith in
    let host : ltb (length ip) 16 ≡ true = ground arith in
    rw (split_at_colon-parts ip port h, whole, host) refl

has_inner : (xs ys : List ℕ) → has colon (xs ++ (colon ∷ ys)) ≡ true
has_inner [] ys = refl
has_inner (x ∷ xs) ys = ground (arith, has_inner xs ys)

-- an address of a host and a port, where `inet_addr` takes no text with a colon: emi_msg_init fails,
-- and of the message it sets nothing but the address, to INADDR_NONE
pub emi_msg_init_port :
    (inet_addr atoi : List ℕ → ℕ) (emi_port pid a : ℕ) (c : Client) (ip port : List ℕ)
    (msg_num cmd flag data_size : ℕ) (content : Option (List ℕ))
    → ((xs : List ℕ) → has colon xs ≡ true → inet_addr xs ≡ inaddr_none)
    → has colon ip ≡ false
    → length ip < 16
    → length (ip ++ (colon ∷ port)) < 32
    → emi_msg_init inet_addr atoi emi_port pid a c
        (some (ip ++ (colon ∷ port)))
        msg_num
        cmd
        flag
        data_size
        content
      ≡ some (false, record c { addr = record (c.addr) { s_addr = inaddr_none } })
unfolding emi_msg_init emi_addr_init
emi_msg_init_port inet_addr atoi emi_port pid a c ip port msg_num cmd flag data_size content
      none_with h small long =
    let member : has colon (ip ++ (colon ∷ port)) ≡ true = has_inner ip port in
    rw
      (
        emi_msg_init,
        split_ipaddr-parts atoi emi_port ip port h small long,
        none_with (ip ++ (colon ∷ port)) member,
      )
      refl
