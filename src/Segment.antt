-- ===== src/Segment.antt =====
-- The shared memory's segment, src/emi_shmem.c, as an object of POSIX shared memory and as a mapped
-- file. The calls of the operating system are an argument. Names are lists of character codes.
pub mod Names
pub mod Space
pub mod Sample
mod Tests
use emilib.Prelude.{
  ℕ, ◌+◌, ◌*◌, ◌/◌, ◌%◌, ◌^◌, Bool, true, false, Option, none, some, List, [], ◌∷◌, ◌++◌, ltb,
  if◌then◌else◌, length,
}

-- what the code calls, on the state `F` of the system: the descriptor of a name that is opened, or
-- created if the flag is set, the end of a descriptor and of a name, and a mapping and its end
pub record System (F : Type 0) : Type 0 where
  pub shm_open : F → List ℕ → Bool → Option (ℕ × F)
  pub ftruncate : F → ℕ → ℕ → Bool × F
  pub unlink : F → List ℕ → F
  pub close : F → ℕ → F
  pub mmap : F → ℕ → ℕ → Bool → Option (ℕ × F)
  pub munmap : F → ℕ → ℕ → F
  pub page_size : ℕ

-- POSIX_SHMEM, or the file
pub data Kind : Type 0 where
  posix : Kind
  file : Kind

abbrev pub slash : ℕ
slash = 47

-- `/tmp`
abbrev pub tmp : List ℕ
tmp = slash ∷ 116 ∷ 109 ∷ 112 ∷ []

-- the name that `emi_shm_init` opens, and the one that `emi_shm_destroy` removes
abbrev pub init_pathname : Kind → List ℕ → List ℕ
init_pathname posix name = slash ∷ name
init_pathname file name = tmp ++ (slash ∷ name)

abbrev pub destroy_pathname : Kind → List ℕ → List ℕ
destroy_pathname posix name = slash ∷ name
destroy_pathname file name = tmp ++ name

abbrev pub path_max : ℕ
path_max = 4096

-- the size in whole pages, as a `size_t`
abbrev pub in_pages : ℕ → ℕ → ℕ
in_pages page_size size = (size + page_size) % 2 ^ 64 / page_size * page_size % 2 ^ 64

-- the system, and the variable `shmem_size`
pub record Segment (F : Type 0) : Type 0 where
  pub system : F
  pub shmem_size : ℕ

-- what follows the opening; `create` is the mode EMI_SHM_CREATE
abbrev pub sized :
    {F : Type 0} → System F → Segment F → List ℕ → ℕ → Bool → Option (ℕ × F) → Option ℕ × Segment F
sized k s pathname size create none = (none, s)
sized k s pathname size false (some (shm_id, f)) =
    (some shm_id, record { system = f; shmem_size = in_pages k.page_size size })
sized k s pathname size true (some (shm_id, f)) =
    let shmem_size = in_pages k.page_size size in
    let (ok, g) = k.ftruncate f shm_id shmem_size in
    if ok
    then (some shm_id, record { system = g; shmem_size = shmem_size })
    else (none, record { system = k.unlink g pathname; shmem_size = shmem_size })

-- `none` is a name that does not fit into `pathname`
unfoldable pub emi_shm_init :
    {F : Type 0} → System F → Kind → Segment F → List ℕ → ℕ → Bool → Option (Option ℕ × Segment F)
emi_shm_init k kind s name size create =
    let pathname = init_pathname kind name in
    if ltb (length pathname) path_max
    then some (sized k s pathname size create (k.shm_open s.system pathname create))
    else none

unfoldable pub emi_shm_destroy :
    {F : Type 0} → System F → Kind → Segment F → List ℕ → ℕ → Option (Segment F)
emi_shm_destroy k kind s name id =
    let pathname = destroy_pathname kind name in
    if ltb (length pathname) path_max
    then some (record s { system = k.unlink (k.close s.system id) pathname })
    else none

abbrev pub mapped : {F : Type 0} → Segment F → Option (ℕ × F) → Option ℕ × Segment F
mapped s none = (none, s)
mapped s (some (p, f)) = (some p, record s { system = f })

-- `both` is the flag EMI_SHM_READ|EMI_SHM_WRITE
unfoldable pub emi_shm_alloc : {F : Type 0} → System F → Segment F → ℕ → Bool → Option ℕ × Segment F
emi_shm_alloc k s id both = mapped s (k.mmap s.system s.shmem_size id both)

unfoldable pub emi_shm_free : {F : Type 0} → System F → Segment F → ℕ → Segment F
emi_shm_free k s addr = record s { system = k.munmap s.system addr s.shmem_size }
