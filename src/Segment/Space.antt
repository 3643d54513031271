-- ===== src/Segment/Space.antt =====
-- How the broker makes the shared memory, `int_global_shm_space` of src/emi_core.c, and how it
-- removes it.
use emilib.Prelude.{
  ℕ, ◌+◌, ◌*◌, ◌/◌, ◌%◌, ◌^◌, ◌≤◌, ◌<◌, ◌≡◌, refl, sym, arith, true, Option, none, some, List, [],
  ◌∷◌, ◌>>=◌, inl, inr, Bool-cases,
}
use native.Mathlib.Nat.{div-mul-le_self, lt-div-mul-add}
use mathlib.Core.Path.{subst}
use emilib.Shmem.{Sizes, ShmemMgr, get_shm_size, emi_shmem_mgr_init}
use emilib.Shmem.Layout.{Layout, emi_shmem_mgr_init-Layout}
use emilib.Segment.{
  System, Segment, Kind, posix, file, in_pages, init_pathname, destroy_pathname, mapped, sized,
  emi_shm_init, emi_shm_destroy, emi_shm_alloc,
}

-- `emilib`
abbrev pub emilib_name : List ℕ
emilib_name = 101 ∷ 109 ∷ 105 ∷ 108 ∷ 105 ∷ 98 ∷ []

-- `core_shmid`, which is -1 or an identifier, `core_shmem_mgr` if it was set, and the segment
pub record Space (F : Type 0) : Type 0 where
  pub core_shmid : Option ℕ
  pub core_shmem_mgr : Option ShmemMgr
  pub segment : Segment F

-- what follows `emi_shm_alloc`
abbrev pub based :
    {F : Type 0} → System F → Kind → Sizes → ℕ → ℕ → Option ℕ × Segment F → Option (Space F)
based k kind z pid_max id (some base, s) = some (record {
  core_shmid = some id;
  core_shmem_mgr = some (emi_shmem_mgr_init z base pid_max);
  segment = s;
})
based k kind z pid_max id (none, s) =
    emi_shm_destroy k kind s emilib_name id
    >>= (λ u. some (record { core_shmid = some id; core_shmem_mgr = none; segment = u }))

-- what follows `emi_shm_init`
abbrev pub opened :
    {F : Type 0} → System F → Kind → Sizes → ℕ → Option ℕ × Segment F → Option (Space F)
opened k kind z pid_max (none, s) =
    some (record { core_shmid = none; core_shmem_mgr = none; segment = s })
opened k kind z pid_max (some id, s) = based k kind z pid_max id (emi_shm_alloc k s id true)

unfoldable pub int_global_shm_space :
    {F : Type 0} → System F → Kind → Sizes → Segment F → ℕ → Option (Space F)
int_global_shm_space k kind z s pid_max =
    emi_shm_init k kind s emilib_name (get_shm_size z pid_max) true >>= opened k kind z pid_max

abbrev pub released : {F : Type 0} → System F → Kind → Segment F → Option ℕ → Option (Segment F)
released k kind s none = some s
released k kind s (some id) = emi_shm_destroy k kind s emilib_name id

unfoldable pub emi_release : {F : Type 0} → System F → Kind → Space F → Option (Segment F)
emi_release k kind s = released k kind s.segment s.core_shmid

-- whole pages hold the size
in_pages-covers :
    (page_size size : ℕ)
    → 0 < page_size
    → size + page_size < 2 ^ 64
    → size ≤ in_pages page_size size
in_pages-covers page_size size p h =
    let total = size + page_size in
    let whole : total % 2 ^ 64 ≡ total = omega arith in
    let below = div-mul-le_self total page_size in
    let above = lt-div-mul-add {a = total} p in
    let fits : total / page_size * page_size % 2 ^ 64 ≡ total / page_size * page_size =
      omega arith in
    subst (λ y. size ≤ y / page_size * page_size % 2 ^ 64) (sym whole)
      (subst (λ y. size ≤ y) (sym fits) (omega arith))

-- in the mapped memory there is room for all regions, which do not overlap
pub record Ready (F : Type 0) (z : Sizes) (pid_max : ℕ) (mgr : ShmemMgr) (s : Space F)
    : Type 0 where
  pub layout : Layout z mgr.base pid_max mgr
  pub room : get_shm_size z pid_max ≤ s.segment.shmem_size
  pub known : (id : ℕ) × (s.core_shmid ≡ some id)

module _ (F : Type 0) (k : System F) (kind : Kind) (z : Sizes) (pid_max : ℕ) where
  destroyed :
      (s : Segment F) (id : ℕ)
      → (u : Segment F) × (emi_shm_destroy k kind s emilib_name id ≡ some u)
  unfolding emi_shm_destroy
  destroyed s id = go kind
    where
      go : (c : Kind) → (u : Segment F) × (emi_shm_destroy k c s emilib_name id ≡ some u)
      go posix = (
        record s { system = k.unlink (k.close s.system id) (destroy_pathname posix emilib_name) },
        refl,
      )
      go file = (
        record s { system = k.unlink (k.close s.system id) (destroy_pathname file emilib_name) },
        refl,
      )

  based-Ready :
      (id : ℕ) (s : Segment F) (r : Option ℕ × Segment F)
      → get_shm_size z pid_max ≤ s.shmem_size
      → r.1.shmem_size ≡ s.shmem_size
      → (v : Space F) × (based k kind z pid_max id r ≡ some v)
        × ((mgr : ShmemMgr) → v.core_shmem_mgr ≡ some mgr → Ready F z pid_max mgr v)
  unfolding emi_shmem_mgr_init
  based-Ready id s (some base, t) room same =
      let mgr = emi_shmem_mgr_init z base pid_max in
      let v : Space F = record { core_shmid = some id; core_shmem_mgr = some mgr; segment = t } in
      (
        v,
        refl,
        λ m e.
            let q : mgr ≡ m = cc in
            subst (λ y. Ready F z pid_max y v) q
              (record {
                layout = emi_shmem_mgr_init-Layout z base pid_max;
                room = omega arith;
                known = (id, refl);
              }),
      )
  based-Ready id s (none, t) room same =
      let (u, run) = destroyed t id in
      (record { core_shmid = some id; core_shmem_mgr = none; segment = u }, rw run refl, λ m e. cc)

  mapped-size : (s : Segment F) (id : ℕ) → (emi_shm_alloc k s id true).1.shmem_size ≡ s.shmem_size
  unfolding emi_shm_alloc
  mapped-size s id = go (k.mmap s.system s.shmem_size id true)
    where
      go : (o : Option (ℕ × F)) → (mapped s o).1.shmem_size ≡ s.shmem_size
      go none = refl
      go (some (x, f)) = refl

  truncated :
      (s : Segment F) (pathname : List ℕ) (size : ℕ)
      → 0 < k.page_size
      → size + k.page_size < 2 ^ 64
      → (o : Option (ℕ × F)) (id : ℕ) → (sized k s pathname size true o).0 ≡ some id
      → size ≤ (sized k s pathname size true o).1.shmem_size
  truncated s pathname size p h none id e = cc
  truncated s pathname size p h (some (i, f)) id e =
      elim (Bool-cases (k.ftruncate f i (in_pages k.page_size size)).0) [
        | inl y ↦ rw y (in_pages-covers k.page_size size p h)
        | inr y ↦ rw y (in_pages-covers k.page_size size p h)
      ]

  -- what emi_shm_init gives for the size of the shared memory
  made :
      0 < k.page_size
      → get_shm_size z pid_max + k.page_size < 2 ^ 64
      → (s : Segment F)
      → (r : Option ℕ × Segment F) × (emi_shm_init k kind s emilib_name
            (get_shm_size z pid_max)
            true
          ≡ some r)
        × ((id : ℕ) → r.0 ≡ some id → get_shm_size z pid_max ≤ r.1.shmem_size)
  unfolding emi_shm_init
  made p h s = go kind
    where
      go :
          (c : Kind)
          → (r : Option ℕ × Segment F) × (emi_shm_init k c s emilib_name
                (get_shm_size z pid_max)
                true
              ≡ some r)
            × ((id : ℕ) → r.0 ≡ some id → get_shm_size z pid_max ≤ r.1.shmem_size)
      go posix =
          let name = init_pathname posix emilib_name in
          let size = get_shm_size z pid_max in
          (
            sized k s name size true (k.shm_open s.system name true),
            refl,
            truncated s name size p h (k.shm_open s.system name true),
          )
      go file =
          let name = init_pathname file emilib_name in
          let size = get_shm_size z pid_max in
          (
            sized k s name size true (k.shm_open s.system name true),
            refl,
            truncated s name size p h (k.shm_open s.system name true),
          )

  -- with a page size, and sizes that a `size_t` holds, int_global_shm_space ends; if it sets the
  -- regions they lie one behind the other in the memory that is mapped, and the segment is known to
  -- emi_release
  pub int_global_shm_space-Ready :
      (s : Segment F)
      → 0 < k.page_size
      → get_shm_size z pid_max + k.page_size < 2 ^ 64
      → (v : Space F) × (int_global_shm_space k kind z s pid_max ≡ some v)
        × ((mgr : ShmemMgr) → v.core_shmem_mgr ≡ some mgr → Ready F z pid_max mgr v)
  unfolding int_global_shm_space
  int_global_shm_space-Ready s p h = let ((shmid, t), run, room) = made p h s in go shmid t run room
    where
      go :
          (shmid : Option ℕ) (t : Segment F)
          → emi_shm_init k kind s emilib_name (get_shm_size z pid_max) true ≡ some (shmid, t)
          → ((id : ℕ) → shmid ≡ some id → get_shm_size z pid_max ≤ t.shmem_size)
          → (v : Space F) × (int_global_shm_space k kind z s pid_max ≡ some v)
            × ((mgr : ShmemMgr) → v.core_shmem_mgr ≡ some mgr → Ready F z pid_max mgr v)
      go none t run room = (
        record { core_shmid = none; core_shmem_mgr = none; segment = t },
        rw (int_global_shm_space, run) refl,
        λ m e. cc,
      )
      go (some id) t run room =
          let (v, run', ready) =
            based-Ready id t (emi_shm_alloc k t id true) (room id refl) (mapped-size t id) in
          (v, rw (int_global_shm_space, run) run', ready)
