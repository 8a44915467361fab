-- ===== src/Vm/Space.antt =====
-- The address spaces of kernel/vm.c: uvmunmap to uvmclear, kvmmake, and the page tables of processes of
-- kernel/proc.c. false is the result -1. The loops are given a round for every page below MAXVA, after
-- which walk panics.
use operating_systems_lab.Prelude.{
  ℕ, zero, suc, ◌+◌, ◌-◌, ◌*◌, ◌/◌, ◌%◌, ◌^◌, Bool, true, false, not, Option, none, some, ltb, leb,
  ◌==◌, if◌then◌else◌,
}
use operating_systems_lab.Prelude.Run.{return, panic, ◌>>=◌, ◌>>◌}
use operating_systems_lab.Kalloc.{kfree, pgsize}
use operating_systems_lab.Vm.{
  M, pte2pa, pte_v, pte_rwx, pte_flags, load, store, clear_page, alloc_page, walk, map_rounds,
  mappages,
}
use operating_systems_lab.Vm.Bytes.{move_bytes}

-- PGROUNDUP on a uint64.
unfoldable pub round_up : ℕ → ℕ
round_up sz = (sz + pgsize - 1) % 2 ^ 64 / pgsize * pgsize

-- A number that is kept in an int and read back as a uint64.
unfoldable pub through_int : ℕ → ℕ
through_int n = let r = n % 2 ^ 32 in if ltb r (2 ^ 31) then r else r + (2 ^ 64 - 2 ^ 32)

unfoldable pub uvmcreate : M ℕ
uvmcreate = do
  pagetable ← alloc_page
  if pagetable == 0 then return 0 else (do clear_page pagetable; return pagetable)

-- PTE_W|PTE_X|PTE_R|PTE_U
abbrev pub user_perm : ℕ
user_perm = 30

-- The page is used without a test for 0, as in the source.
unfoldable pub uvminit : ℕ → ℕ → ℕ → M (Unit {0})
unfolding mappages
uvminit pagetable src sz = if leb pgsize sz then panic else do
  mem ← alloc_page
  clear_page mem
  ok ← mappages pagetable 0 pgsize mem user_perm
  move_bytes mem src sz

unfoldable pub uvmclear : ℕ → ℕ → M (Unit {0})
unfolding walk
uvmclear pagetable va = do
  r ← walk pagetable va false
  elim r [ none ↦ panic | some a ↦ do pte ← load a; store a (pte - pte / 16 % 2 * 16) ]

module _ (end_addr : ℕ) where
  abbrev pub free_page : ℕ → M (Unit {0})
  free_page pa k = elim (kfree end_addr pa k) [ none ↦ none | some k' ↦ some (tt, k') ]

  -- A round of uvmunmap behind its walk; `next` is the next round.
  unfoldable pub unmap_entry : M (Unit {0}) → Bool → Option ℕ → M (Unit {0})
  unfolding pte2pa
  unmap_entry next do_free none k = none
  unmap_entry next do_free (some pte) k = elim (pte_v (k.word pte)) [
    | false ↦ none
    | true ↦ elim (pte_flags (k.word pte) == 1) [
      | true ↦ none
      | false ↦
          (do if do_free then free_page (pte2pa (k.word pte)) else return tt; store pte 0; next) k
    ]
  ]

  unfoldable pub unmap_from : ℕ → ℕ → ℕ → ℕ → Bool → M (Unit {0})
  unfolding walk unmap_entry
  unmap_from zero pagetable a last do_free = panic
  unmap_from (suc rounds) pagetable a last do_free = elim (ltb a last) [
    | false ↦ return tt
    | true ↦
        walk pagetable a false
        >>= unmap_entry (unmap_from rounds pagetable (a + pgsize) last do_free) do_free
  ]

  unfoldable pub uvmunmap : ℕ → ℕ → ℕ → Bool → M (Unit {0})
  unfolding unmap_from
  uvmunmap pagetable va npages do_free =
      if not (va % pgsize == 0)
      then panic
      else unmap_from (map_rounds + 1) pagetable va ((va + npages * pgsize) % 2 ^ 64) do_free

  unfoldable pub uvmdealloc : ℕ → ℕ → ℕ → M ℕ
  unfolding uvmunmap round_up through_int
  uvmdealloc pagetable oldsz newsz = if leb oldsz newsz then return oldsz else do
    if ltb (round_up newsz) (round_up oldsz)
        then uvmunmap pagetable (round_up newsz)
            (through_int ((round_up oldsz - round_up newsz) / pgsize)) true
        else return tt
    return newsz

  -- The loop of uvmalloc; `first` is the old size, rounded up.
  unfoldable pub alloc_from : ℕ → ℕ → ℕ → ℕ → ℕ → M ℕ
  unfolding uvmdealloc mappages
  alloc_from zero pagetable first a newsz = panic
  alloc_from (suc rounds) pagetable first a newsz = elim (ltb a newsz) [
    | false ↦ return newsz
    | true ↦ do
      mem ← alloc_page
      elim (mem == 0) [
        | true ↦ do uvmdealloc pagetable a first; return 0
        | false ↦ do
          clear_page mem
          ok ← mappages pagetable a pgsize mem user_perm
          elim ok [
            | true ↦ alloc_from rounds pagetable first (a + pgsize) newsz
            | false ↦ do free_page mem; uvmdealloc pagetable a first; return 0
          ]
      ]
  ]

  unfoldable pub uvmalloc : ℕ → ℕ → ℕ → M ℕ
  unfolding alloc_from
  uvmalloc pagetable oldsz newsz =
      if ltb newsz oldsz
      then return oldsz
      else alloc_from (map_rounds + 1) pagetable (round_up oldsz) (round_up oldsz) newsz

  -- The loop of freewalk over the last n entries; `below` frees a table of the next level.
  unfoldable pub free_entries : (ℕ → M (Unit {0})) → ℕ → ℕ → M (Unit {0})
  unfolding pte2pa
  free_entries below zero pagetable = return tt
  free_entries below (suc n) pagetable = do
    pte ← load (pagetable + 8 * (512 - suc n))
    elim (pte_v pte) [
      | false ↦ free_entries below n pagetable
      | true ↦ elim (pte_rwx pte) [
        | true ↦ panic
        | false ↦ do
          below (pte2pa pte)
          store (pagetable + 8 * (512 - suc n)) 0
          free_entries below n pagetable
      ]
    ]

  -- freewalk of a table with `levels` levels at most.
  unfoldable pub freewalk : ℕ → ℕ → M (Unit {0})
  unfolding free_entries
  freewalk zero pagetable = panic
  freewalk (suc levels) pagetable = do
    free_entries (freewalk levels) 512 pagetable
    free_page pagetable

  unfoldable pub uvmfree : ℕ → ℕ → M (Unit {0})
  unfolding uvmunmap round_up freewalk
  uvmfree pagetable sz = do
    if sz == 0 then return tt else uvmunmap pagetable 0 (round_up sz / pgsize) true
    freewalk 3 pagetable

  -- A round of uvmcopy behind its walk.
  unfoldable pub copy_entry : M Bool → ℕ → ℕ → Option ℕ → M Bool
  unfolding pte2pa mappages uvmunmap
  copy_entry next new i none k = none
  copy_entry next new i (some pte) k = elim (pte_v (k.word pte)) [
    | false ↦ none
    | true ↦
        (do
          mem ← alloc_page
          elim (mem == 0) [
            | true ↦ do uvmunmap new 0 (i / pgsize) true; return false
            | false ↦ do
              move_bytes mem (pte2pa (k.word pte)) pgsize
              ok ← mappages new i pgsize mem (pte_flags (k.word pte))
              elim ok [
                | true ↦ next
                | false ↦ do free_page mem; uvmunmap new 0 (i / pgsize) true; return false
              ]
          ])
          k
  ]

  unfoldable pub copy_from : ℕ → ℕ → ℕ → ℕ → ℕ → M Bool
  unfolding walk copy_entry
  copy_from zero old new i sz = panic
  copy_from (suc rounds) old new i sz = elim (ltb i sz) [
    | false ↦ return true
    | true ↦ walk old i false >>= copy_entry (copy_from rounds old new (i + pgsize) sz) new i
  ]

  unfoldable pub uvmcopy : ℕ → ℕ → ℕ → M Bool
  unfolding copy_from
  uvmcopy old new sz = copy_from (map_rounds + 1) old new 0 sz
