-- ===== src/Syscall/Fetch.antt =====
-- fetchaddr of kernel/syscall.c reads inside the process only.
use operating_systems_lab.Prelude.{
  ℕ, ◌+◌, ◌%◌, ◌^◌, ◌≤◌, ◌<◌, ◌≡◌, refl, ◌≢◌, ◌⊎◌, inl, inr, true, false, ◌||◌, some, List, arith,
  ltb, leb, ltb→lt, Bool-cases,
}
use operating_systems_lab.Kalloc.{Kmem, pgsize}
use operating_systems_lab.Proc.{Proc}
use operating_systems_lab.Vm.{maxva}
use operating_systems_lab.Vm.Tables.{Role, other, IsTable}
use operating_systems_lab.Vm.Translate.{user_page}
use operating_systems_lab.Vm.Copy.Pages.{physical, Copying}
use operating_systems_lab.Vm.Copy.In.{copyin_lem}
use operating_systems_lab.Syscall.{fetchaddr}

-- fetchaddr, for a process of at most MAXVA bytes with a proper page table: if not all the 8 bytes lie below the
-- process's size, whatever address it is given, it returns -1 and changes nothing; otherwise it copies the 8
-- user bytes to ip as copyin does. ip must lie outside the tables and apart from the user's bytes.
pub fetchaddr_lem :
    (e addr ip : ℕ) (p : Proc) (k : Kmem) (free : List ℕ) (role : ℕ → Role)
    → p.sz ≤ maxva
    → IsTable e p.pagetable k free role
    → ((a : ℕ) → k.word a < 2 ^ 64)
    → ((b : ℕ) → role b ≢ other → (b + pgsize ≤ ip) ⊎ (ip + 8 ≤ b))
    → ((i j : ℕ)
        → i < 8
        → j < 8
        → user_page k.word p.pagetable (addr + i) ≢ 0
        → physical k.word p.pagetable (addr + i) ≢ ip + j)
    → ((p.sz < addr + 8) × (fetchaddr p addr ip k ≡ some (false, k)))
      ⊎ ((addr + 8 ≤ p.sz) × Copying p.pagetable ip addr 8 k (fetchaddr p addr ip k))
unfolding fetchaddr
fetchaddr_lem e addr ip p k free role small v bounded away apart =
    elim (Bool-cases (ltb p.sz (addr + 8))) [
      | inl beyond ↦
          let over : (leb p.sz addr || ltb p.sz ((addr + 8) % 2 ^ 64)) ≡ true =
            ground (arith, beyond, small) in
          inl (ltb→lt p.sz (addr + 8) beyond, rw over refl)
      | inr within ↦
          let inside : (leb p.sz addr || ltb p.sz ((addr + 8) % 2 ^ 64)) ≡ false =
            ground (arith, within, small) in
          inr (
            ground (arith, within),
            rw inside (copyin_lem e p.pagetable ip addr 8 k free role v bounded away apart),
          )
    ]
