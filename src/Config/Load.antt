-- ===== src/Config/Load.antt =====
-- What `get_config` of src/emi_config.c gives for a file, and what it and `get_pid_max` leave open.
use emilib.Prelude.{
  ℕ, suc, ◌<◌, ◌≡◌, refl, sym, ap, ◌∙◌, arith, true, false, Option, none, some, List, [], ◌∷◌, ltb,
  ◌==◌, length, Option-cases, inl, inr,
}
use emilib.Config.Lines.{Line, print_all, AreLines, last_port, get_config-print_all}
use emilib.Config.File.{
  Files, names, open_first, was_mapped, map_file, opened, load_config, pid_max_name, get_pid_max,
  Counts,
}

open_first-miss :
    (F : Type 0) (k : Files F) (name : List ℕ) (ns : List (List ℕ)) (fd : Option ℕ) (f : F)
    → k.open_file f name ≡ none
    → open_first k (name ∷ ns) fd f ≡ open_first k ns none f
unfolding open_first
open_first-miss F k name ns fd f q = rw (open_first, q) refl

open_first-hit :
    (F : Type 0) (k : Files F) (name : List ℕ) (ns : List (List ℕ)) (fd : Option ℕ) (f g : F)
    (d : ℕ)
    → k.open_file f name ≡ some (d, g)
    → 0 < d
    → open_first k (name ∷ ns) fd f ≡ (some d, g)
unfolding open_first
open_first-hit F k name ns fd f g d q big =
    let up : ltb 0 d ≡ true = ground arith in rw (open_first, q, up) refl

module _ (F : Type 0) (k : Files F) (fds maps : F → ℕ) (is : Counts F k fds maps)
    (positive : (f g : F) (name : List ℕ) (d : ℕ) → k.open_file f name ≡ some (d, g) → 0 < d) where
  open_first-one :
      (ns : List (List ℕ)) (f g : F) (d : ℕ)
      → open_first k ns none f ≡ (some d, g)
      → (fds g ≡ suc (fds f)) × (maps g ≡ maps f)
  unfolding open_first
  open_first-one [] f g d e = absurd (let q = ap (λ z. z.0) e in cc)
  open_first-one (name ∷ ns) f g d e = elim (Option-cases (k.open_file f name)) [
    | inl q ↦ open_first-one ns f g d (sym (open_first-miss F k name ns none f q) ∙ e)
    | inr ((c, h), q) ↦
        let (one, same) = is.opens f h name c q in
        let e' = sym (open_first-hit F k name ns none f h c q (positive f h name c q)) ∙ e in
        let there : h ≡ g = ap (λ z. z.1) e' in
        (ap fds (sym there) ∙ one, ap maps (sym there) ∙ same)
  ]

  -- where open never gives the descriptor 0, as while standard input is open: the first name that opens
  -- leads to a file of comments, blank lines and settings, which is mapped, with more fuel than lines:
  -- what get_config gives is the port of its last setting, or the port that
  -- was in the memory, and nothing stays open or mapped
  pub load_config-print_all :
      (fuel : ℕ) (atoi : List ℕ → ℕ) (port d size : ℕ) (f g h : F) (ls : List Line)
      → open_first k names none f ≡ (some d, g)
      → k.fstat g d ≡ some size
      → k.mmap g d size ≡ some (print_all ls, h)
      → AreLines ls
      → length ls < fuel
      → (u : F) × (load_config k fuel atoi (some port) f ≡ some (some (last_port atoi port ls), u))
        × (fds u ≡ fds f)
        × (maps u ≡ maps f)
  unfolding load_config was_mapped
  load_config-print_all fuel atoi port d size f g h ls opens stat mapped lines few =
      let (one, same) = open_first-one names f g d opens in
      let (fds₁, maps₁) = is.maps_one g h d size (print_all ls) mapped in
      let (fds₂, maps₂) = is.unmaps h in
      let (fds₃, maps₃) = is.closes (k.munmap h) d in
      (
        k.close (k.munmap h) d,
        rw
            (
              load_config,
              opens,
              opened,
              stat,
              map_file,
              mapped,
              get_config-print_all fuel atoi port ls lines few,
            )
            refl,
        omega arith,
        omega arith,
      )

  -- a file of which the size cannot be had stays open
  pub load_config_leak :
      (fuel : ℕ) (atoi : List ℕ → ℕ) (malloc : Option ℕ) (d : ℕ) (f g : F)
      → open_first k names none f ≡ (some d, g)
      → k.fstat g d ≡ none
      → (load_config k fuel atoi malloc f ≡ some (none, g)) × (fds g ≡ suc (fds f))
  unfolding load_config
  load_config_leak fuel atoi malloc d f g opens stat =
      (rw (load_config, opens, opened, stat) refl, (open_first-one names f g d opens).0)

  -- a file that is not empty and cannot be mapped is read nevertheless
  pub load_config_unmapped :
      (fuel : ℕ) (atoi : List ℕ → ℕ) (port d size : ℕ) (f g : F)
      → open_first k names none f ≡ (some d, g)
      → k.fstat g d ≡ some size
      → k.mmap g d size ≡ none
      → 0 < size
      → load_config k fuel atoi (some port) f ≡ none
  unfolding load_config was_mapped
  load_config_unmapped fuel atoi port d size f g opens stat mapped big =
      let some_left : (size == 0) ≡ false = ground arith in
      rw (load_config, opens, opened, stat, map_file, mapped, some_left) refl

module _ (F : Type 0) (k : Files F) (fds maps : F → ℕ) (is : Counts F k fds maps) where
  -- get_pid_max leaves nothing open
  pub get_pid_max-closes :
      (atoi : List ℕ → ℕ) (f : F)
      → (fds (get_pid_max k atoi f).1 ≡ fds f) × (maps (get_pid_max k atoi f).1 ≡ maps f)
  unfolding get_pid_max
  get_pid_max-closes atoi f = elim (Option-cases (k.open_file f pid_max_name)) [
    | inl e ↦ rw (get_pid_max, e) (refl, refl)
    | inr ((d, g), e) ↦
        let (one, same) = is.opens f g pid_max_name d e in
        elim (Option-cases (k.read g d 8)) [
          | inl r ↦
              let (fds₁, maps₁) = is.closes g d in rw (get_pid_max, e, r) (omega arith, omega arith)
          | inr ((buf, h), r) ↦
              let (fds₁, maps₁) = is.reads g h d 8 buf r in
              let (fds₂, maps₂) = is.closes h d in rw (get_pid_max, e, r) (omega arith, omega arith)
        ]
  ]
