-- ===== src/Config/Tests.antt =====
-- Configuration files at small sizes.
use emilib.Prelude.{
  suc, length, ◌==◌, ap, sym, if◌then◌else◌, Bool-cases, inl, inr, ℕ, ◌+◌, ◌*◌, ◌-◌, ◌<◌, ◌≡◌, refl,
  some, none, List, [], ◌∷◌, ◌++◌, arith,
}
use emilib.Config.{
  hash_sign, newline, equals_sign, emi_port, skip_line, match_term, read_stack, get_config,
}
use emilib.Config.File.{Files, Counts, open_first, load_config}
use emilib.Config.Load.{load_config-print_all}
use emilib.Config.Lines.{
  Line, AreLines, last_port, comment, blank, setting, print_all, get_config_commented,
}

-- the number that digits write, for texts of digits
abbrev digits_from : ℕ → List ℕ → ℕ
digits_from n [] = n
digits_from n (c ∷ cs) = digits_from (10 * n + (c - 48)) cs

abbrev atoi : List ℕ → ℕ
atoi cs = digits_from 0 cs

-- `#x`, a blank line, `EMI_PORT=1361`, `EMI_PORT=7`
abbrev file : List Line
file = comment (120 ∷ []) ∷ blank ∷ setting (49 ∷ 51 ∷ 54 ∷ 49 ∷ []) ∷ setting (55 ∷ []) ∷ []

-- an empty value takes the line that follows: `EMI_PORT=`, `5`
empty_value :
    get_config 9 atoi 1 (emi_port ++ (equals_sign ∷ newline ∷ 53 ∷ newline ∷ []))
    ≡ some (digits_from 0 (10 ∷ 53 ∷ []))
unfolding get_config skip_line match_term read_stack
empty_value = refl

-- the last line does not end
no_newline : get_config 9 atoi 1 (emi_port ++ (equals_sign ∷ 53 ∷ [])) ≡ none
unfolding get_config skip_line match_term read_stack
no_newline = refl

file-AreLines : AreLines file
file-AreLines = (
  refl,
  (
    tt,
    (
      (refl, refl, refl, omega arith, omega arith),
      ((refl, refl, refl, omega arith, omega arith), tt),
    ),
  ),
)

get_config_commented_example :
    get_config 3 atoi 1
      (emi_port ++ (equals_sign ∷ 53 ∷ hash_sign ∷ (emi_port ++ (equals_sign ∷ 55 ∷ newline ∷ []))))
    ≡ some 7
get_config_commented_example =
    get_config_commented atoi 1 (53 ∷ []) (55 ∷ []) (refl, refl, refl, omega arith, omega arith)
      (refl, refl, refl, omega arith, omega arith)

-- a system in which only the last name opens, with the numbers of descriptors and of mappings
abbrev system : Files (ℕ × ℕ)
system = record {
  open_file = λ f name. if length name == 13 then some (3, (suc f.0, f.1)) else none;
  close = λ f d. (f.0 - 1, f.1);
  fstat = λ f d. some 30;
  mmap = λ f d size. some (print_all file, (f.0, suc f.1));
  munmap = λ f. (f.0, f.1 - 1);
  read = λ f d n. none;
}

got : (A : Type 0) (a b : A) → some a ≡ some b → a ≡ b
got A a b e = ap (λ z. elim z [ none ↦ a | some x ↦ x ]) e

system-Counts : Counts (ℕ × ℕ) system (λ f. f.0) (λ f. f.1)
system-Counts = record {
  opens = λ f g name d e. elim (Bool-cases (length name == 13)) [
    | inl q ↦
        let r = got (ℕ × (ℕ × ℕ)) (3, (suc f.0, f.1)) (d, g) (rw q at e) in
        (sym (ap (λ z. z.1.0) r), sym (ap (λ z. z.1.1) r))
    | inr q ↦ absurd (let r : none ≡ some (d, g) = rw q at e in cc)
  ];
  maps_one = λ f g d size text e.
      let r = got (List ℕ × (ℕ × ℕ)) (print_all file, (f.0, suc f.1)) (text, g) e in
      (sym (ap (λ z. z.1.0) r), sym (ap (λ z. z.1.1) r));
  unmaps = λ f. (refl, refl);
  closes = λ f d. (refl, refl);
  reads = λ f g d n buf e. cc;
}

system-positive :
    (f g : ℕ × ℕ) (name : List ℕ) (d : ℕ) → system.open_file f name ≡ some (d, g) → 0 < d
system-positive f g name d e = elim (Bool-cases (length name == 13)) [
  | inl q ↦
      let r = got (ℕ × (ℕ × ℕ)) (3, (suc f.0, f.1)) (d, g) (rw q at e) in
      omega (arith, ap (λ z. z.0) r)
  | inr q ↦ absurd (let r : none ≡ some (d, g) = rw q at e in cc)
]

load_config-print_all_example :
    (u : ℕ × ℕ) × (load_config system 9 atoi (some 1) (3, 0)
      ≡ some (some (last_port atoi 1 file), u))
    × (u.0 ≡ 3)
    × (u.1 ≡ 0)
unfolding open_first
load_config-print_all_example =
    load_config-print_all (ℕ × ℕ) system (λ f. f.0) (λ f. f.1) system-Counts system-positive 9 atoi
      1 3 30 (3, 0) (4, 0) (4, 1) file refl refl refl file-AreLines (omega arith)
