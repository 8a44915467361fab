-- ===== src/Syscall.antt =====
-- kernel/syscall.c: how a system call fetches its arguments, over page tables in physical memory. A process is
-- its entry of the process table; its trapframe is a page of that memory. `none` is a panic.
pub mod Fetch
use operating_systems_lab.Prelude.{
  ℕ, zero, suc, ◌+◌, ◌-◌, ◌*◌, ◌/◌, ◌%◌, ◌^◌, ◌≤◌, ◌<◌, min, ◌≡◌, refl, sym, ap, ap₂, subst, ◌∙◌,
  fun_ext, ◌≢◌, ◌↔◌, ◌⊎◌, inl, inr, Bool, true, false, not, ◌&&◌, ◌||◌, Option, none, some, List,
  [], ◌∷◌, ◌++◌, map, append-nil, append_assoc, arith, ltb, leb, ◌==◌, if◌then◌else◌, ltb→lt,
  lt→ltb, leb→le, ==_iff, tests, Bool-cases, Option-cases, from_next, true_ne_false, length,
  get_elem?, set, length-append, length-set, get_elem?-set_self, get_elem?-set_ne, get_or, take,
  drop, replicate, take-append-drop, length-take, length-drop, length-replicate, length-map, ℤ,
  to_int, minus_one, sub_ℕ, sub_ℕ-eq-zero, sub_ℕ-self, pos, negsuc, update, update_self, update_ne,
  update_same,
}
use operating_systems_lab.Prelude.Run.{return, panic, ◌>>=◌, ◌>>◌}
use operating_systems_lab.Kalloc.{Kmem}
use operating_systems_lab.Proc.{Proc}
use operating_systems_lab.Strings.{strlen}
use operating_systems_lab.Vm.{M, load}
use operating_systems_lab.Vm.Bytes.{byte_at}
use operating_systems_lab.Vm.Copy.{copyin, copyinstr}

-- false is the result -1.
unfoldable pub fetchaddr : Proc → (addr ip : ℕ) → M Bool
fetchaddr p addr ip =
    if leb p.sz addr || ltb p.sz ((addr + 8) % 2 ^ 64)
    then return false
    else copyin p.pagetable ip addr 8

-- strlen(buf), of a string that copyinstr has written in at most max bytes; its rounds are enough then.
abbrev pub string_length : (buf max : ℕ) → M ℤ
string_length buf max k = elim (strlen max buf (byte_at k.word)) [
  | none ↦ none
  | some n ↦ some (pos n, k)
]

unfoldable pub fetchstr : Proc → (addr buf max : ℕ) → M ℤ
fetchstr p addr buf max = do
  copied ← copyinstr p.pagetable buf addr max
  if copied then string_length buf max else return minus_one

-- The registers a0 to a5 lie one behind the other in the trapframe.
unfoldable pub argraw : Proc → ℕ → M ℕ
argraw p n = if ltb n 6 then load (p.trapframe + 112 + 8 * n) else panic

unfoldable pub argint : Proc → ℕ → M ℤ
argint p n = do x ← argraw p n; return (to_int x)

unfoldable pub argaddr : Proc → ℕ → M ℕ
argaddr p n = argraw p n

unfoldable pub argstr : Proc → (n buf max : ℕ) → M ℤ
argstr p n buf max = do addr ← argaddr p n; fetchstr p addr buf max
