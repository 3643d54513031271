-- ===== src/Config/File.antt =====
-- How `get_config` and `get_pid_max` of src/emi_config.c come to the text of a file, and what they
-- leave open. The calls of the operating system are an argument.
use emilib.Prelude.{
  ℕ, suc, ◌-◌, ◌≡◌, Option, none, some, List, [], ◌∷◌, ltb, ◌==◌, ◌>>=◌, if◌then◌else◌,
}
use emilib.Config.{get_config}

-- what the code calls, on the state `F` of the system; a call that fails gives nothing, `fstat` gives
-- the size of a file and `mmap` its text
pub record Files (F : Type 0) : Type 0 where
  pub open_file : F → List ℕ → Option (ℕ × F)
  pub close : F → ℕ → F
  pub fstat : F → ℕ → Option ℕ
  pub mmap : F → ℕ → ℕ → Option (List ℕ × F)
  pub munmap : F → F
  pub read : F → ℕ → ℕ → Option (List ℕ × F)

-- `emi.conf`, `$HOME/.emi.conf`, `$HOME/emi.conf` and `/etc/emi.conf`
abbrev pub names : List (List ℕ)
names =
    (101 ∷ 109 ∷ 105 ∷ 46 ∷ 99 ∷ 111 ∷ 110 ∷ 102 ∷ [])
    ∷ (36 ∷ 72 ∷ 79 ∷ 77 ∷ 69 ∷ 47 ∷ 46 ∷ 101 ∷ 109 ∷ 105 ∷ 46 ∷ 99 ∷ 111 ∷ 110 ∷ 102 ∷ [])
    ∷ (36 ∷ 72 ∷ 79 ∷ 77 ∷ 69 ∷ 47 ∷ 101 ∷ 109 ∷ 105 ∷ 46 ∷ 99 ∷ 111 ∷ 110 ∷ 102 ∷ [])
    ∷ (47 ∷ 101 ∷ 116 ∷ 99 ∷ 47 ∷ 101 ∷ 109 ∷ 105 ∷ 46 ∷ 99 ∷ 111 ∷ 110 ∷ 102 ∷ [])
    ∷ []

-- the loop over the names, with the descriptor that the last call gave; one that is 0 does not end it
unfoldable pub open_first : {F : Type 0} → Files F → List (List ℕ) → Option ℕ → F → Option ℕ × F
open_first k [] fd f = (fd, f)
open_first k (name ∷ ns) fd f = elim (k.open_file f name) [
  | none ↦ open_first k ns none f
  | some r ↦
      let (d, g) = r in
      let rest = open_first k ns (some d) g in if ltb 0 d then (some d, g) else rest
]

-- the text as it can be read: a mapping that failed is not noticed, and only an empty one is not read
abbrev pub readable : ℕ → Option (List ℕ) → Option (List ℕ)
readable size none = if size == 0 then some [] else none
readable size (some text) = some text

-- what follows `mmap`; `malloc` gives memory in which there is a port, or NULL
unfoldable pub was_mapped :
    {F : Type 0}
    → Files F
    → ℕ
    → (List ℕ → ℕ)
    → Option ℕ
    → ℕ
    → ℕ
    → Option (List ℕ)
    → F
    → Option (Option ℕ × F)
was_mapped k fuel atoi none d size text f = some (none, k.close (k.munmap f) d)
was_mapped k fuel atoi (some port) d size text f =
    readable size text
    >>= get_config fuel atoi port
    >>= (λ p. some (some p, k.close (k.munmap f) d))

abbrev pub map_file :
    {F : Type 0} → Files F → ℕ → (List ℕ → ℕ) → Option ℕ → ℕ → F → ℕ → Option (Option ℕ × F)
map_file k fuel atoi malloc d f size = elim (k.mmap f d size) [
  | none ↦ was_mapped k fuel atoi malloc d size none f
  | some r ↦ let (text, g) = r in was_mapped k fuel atoi malloc d size (some text) g
]

abbrev pub opened :
    {F : Type 0} → Files F → ℕ → (List ℕ → ℕ) → Option ℕ → Option ℕ × F → Option (Option ℕ × F)
opened k fuel atoi malloc (none, f) = some (none, f)
opened k fuel atoi malloc (some d, f) = elim (k.fstat f d) [
  | none ↦ some (none, f)
  | some size ↦ map_file k fuel atoi malloc d f size
]

-- the whole of `get_config`: the port, or NULL
unfoldable pub load_config :
    {F : Type 0} → Files F → ℕ → (List ℕ → ℕ) → Option ℕ → F → Option (Option ℕ × F)
load_config k fuel atoi malloc f = opened k fuel atoi malloc (open_first k names none f)

-- `/proc/sys/kernel/pid_max`
abbrev pub pid_max_name : List ℕ
pid_max_name =
    47 ∷ 112 ∷ 114 ∷ 111 ∷ 99 ∷ 47 ∷ 115 ∷ 121 ∷ 115 ∷ 47 ∷ 107 ∷ 101 ∷ 114 ∷ 110 ∷ 101 ∷ 108 ∷ 47
    ∷ 112 ∷ 105 ∷ 100 ∷ 95 ∷ 109 ∷ 97 ∷ 120 ∷ []

abbrev pub default_pid_max : ℕ
default_pid_max = 32768

unfoldable pub get_pid_max : {F : Type 0} → Files F → (List ℕ → ℕ) → F → ℕ × F
get_pid_max k atoi f = elim (k.open_file f pid_max_name) [
  | none ↦ (default_pid_max, f)
  | some r ↦
      let (d, g) = r in
      elim (k.read g d 8) [
        | none ↦ (default_pid_max, k.close g d)
        | some t ↦ let (buf, h) = t in (atoi buf, k.close h d)
      ]
]

-- the port that the broker listens at, `set_default_config` with what `get_config` gives
abbrev pub default_port : ℕ
default_port = 1361

abbrev pub set_default_config : Option ℕ → ℕ
set_default_config none = default_port
set_default_config (some port) = port

-- how many descriptors and how many mappings there are
pub record Counts (F : Type 0) (k : Files F) (fds maps : F → ℕ) : Type 0 where
  pub opens :
      (f g : F) (name : List ℕ) (d : ℕ)
      → k.open_file f name ≡ some (d, g)
      → (fds g ≡ suc (fds f)) × (maps g ≡ maps f)
  pub maps_one :
      (f g : F) (d size : ℕ) (text : List ℕ)
      → k.mmap f d size ≡ some (text, g)
      → (fds g ≡ fds f) × (maps g ≡ suc (maps f))
  pub unmaps : (f : F) → (fds (k.munmap f) ≡ fds f) × (maps (k.munmap f) ≡ maps f - 1)
  pub closes : (f : F) (d : ℕ) → (fds (k.close f d) ≡ fds f - 1) × (maps (k.close f d) ≡ maps f)
  pub reads :
      (f g : F) (d n : ℕ) (buf : List ℕ)
      → k.read f d n ≡ some (buf, g)
      → (fds g ≡ fds f) × (maps g ≡ maps f)
