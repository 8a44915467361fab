-- ===== src/Vm/Process.antt =====
-- The kernel's page table (kvmmake of kernel/vm.c, proc_mapstacks of kernel/proc.c) and those of processes
-- (proc_pagetable and proc_freepagetable of kernel/proc.c). The linker gives the addresses `end` of the
-- kernel, `etext` of its text's end and `trampoline` of that page.
use operating_systems_lab.Prelude.{ℕ, zero, suc, ◌+◌, ◌-◌, ◌*◌, true, false, ◌==◌, if◌then◌else◌}
use operating_systems_lab.Proc.{nproc}
use operating_systems_lab.Prelude.Run.{return, panic, ◌>>=◌, ◌>>◌}
use operating_systems_lab.Kalloc.{pgsize, kernbase, phystop}
use operating_systems_lab.Vm.{M, maxva, clear_page, alloc_page, mappages, kvmmap}
use operating_systems_lab.Vm.Space.{uvmcreate, uvmunmap, uvmfree}

abbrev pub uart0 : ℕ
uart0 = 0x10000000

abbrev pub virtio0 : ℕ
virtio0 = 0x10001000

abbrev pub plic : ℕ
plic = 0x0c000000

abbrev pub trampoline_va : ℕ
trampoline_va = maxva - pgsize

abbrev pub trapframe_va : ℕ
trapframe_va = trampoline_va - pgsize

abbrev pub kstack_va : ℕ → ℕ
kstack_va p = trampoline_va - (p + 1) * 2 * pgsize

-- PTE_R | PTE_W, and PTE_R | PTE_X.
abbrev pub perm_rw : ℕ
perm_rw = 6

abbrev pub perm_rx : ℕ
perm_rx = 10

-- The loop of proc_mapstacks over the last n processes.
unfoldable pub mapstacks_from : ℕ → ℕ → M (Unit {0})
unfolding kvmmap
mapstacks_from zero kpgtbl = return tt
mapstacks_from (suc n) kpgtbl = do
  pa ← alloc_page
  if pa == 0
      then panic
      else (do kvmmap kpgtbl (kstack_va (nproc - suc n)) pa pgsize perm_rw; mapstacks_from n kpgtbl)

unfoldable pub proc_mapstacks : ℕ → M (Unit {0})
unfolding mapstacks_from
proc_mapstacks kpgtbl = mapstacks_from nproc kpgtbl

-- kvmmake, which uses the table's page without a test for 0.
unfoldable pub kvmmake : (etext trampoline : ℕ) → M ℕ
unfolding kvmmap proc_mapstacks
kvmmake etext trampoline = do
  kpgtbl ← alloc_page
  clear_page kpgtbl
  kvmmap kpgtbl uart0 uart0 pgsize perm_rw
  kvmmap kpgtbl virtio0 virtio0 pgsize perm_rw
  kvmmap kpgtbl plic plic 0x400000 perm_rw
  kvmmap kpgtbl kernbase kernbase (etext - kernbase) perm_rx
  kvmmap kpgtbl etext etext (phystop - etext) perm_rw
  kvmmap kpgtbl trampoline_va trampoline pgsize perm_rx
  proc_mapstacks kpgtbl
  return kpgtbl

module _ (end_addr : ℕ) where
  -- `trapframe` is p->trapframe.
  unfoldable pub proc_pagetable : (trampoline trapframe : ℕ) → M ℕ
  unfolding uvmcreate mappages uvmunmap uvmfree
  proc_pagetable trampoline trapframe = do
    pagetable ← uvmcreate
    if pagetable == 0 then return 0 else (do
      entered ← mappages pagetable trampoline_va pgsize trampoline perm_rx
      elim entered [
        | false ↦ do uvmfree end_addr pagetable 0; return 0
        | true ↦ do
          framed ← mappages pagetable trapframe_va pgsize trapframe perm_rw
          elim framed [
            | false ↦ do
              uvmunmap end_addr pagetable trampoline_va 1 false
              uvmfree end_addr pagetable 0
              return 0
            | true ↦ return pagetable
          ]
      ])

  unfoldable pub proc_freepagetable : ℕ → ℕ → M (Unit {0})
  unfolding uvmunmap uvmfree
  proc_freepagetable pagetable sz = do
    uvmunmap end_addr pagetable trampoline_va 1 false
    uvmunmap end_addr pagetable trapframe_va 1 false
    uvmfree end_addr pagetable sz
