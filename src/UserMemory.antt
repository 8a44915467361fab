-- ===== src/UserMemory.antt =====
-- A user address space as the kernel's callers of copyin and copyout see it, one byte at a time:
-- either the address is mapped for the user, or the call returns -1 and changes nothing
-- (kernel/vm.c: copyin and copyout with len 1).
use operating_systems_lab.Prelude.{
  ℕ, ◌+◌, ◌%◌, ◌^◌, Bool, Option, none, some, if◌then◌else◌, update,
}

pub record User : Type 0 where
  pub mapped : ℕ → Bool
  pub byte : ℕ → ℕ

unfoldable pub copyin : User → ℕ → Option ℕ
copyin u a = if u.mapped a then some (u.byte a) else none

unfoldable pub copyout : User → ℕ → ℕ → Option User
copyout u a v = if u.mapped a then some (record u { byte = update u.byte a v }) else none

-- addr + i on a uint64
abbrev pub user_addr : ℕ → ℕ → ℕ
user_addr addr i = (addr + i) % 2 ^ 64
