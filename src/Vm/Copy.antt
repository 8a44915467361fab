-- ===== src/Vm/Copy.antt =====
-- copyout, copyin and copyinstr of kernel/vm.c: copies between the kernel and an address space. A loop runs
-- out of its rounds nowhere: each copies a byte or more. false is the result -1.
pub mod Pages
pub mod In
use operating_systems_lab.Prelude.{
  ℕ, zero, suc, ◌+◌, ◌-◌, ◌*◌, ◌/◌, ◌%◌, ◌^◌, ◌≤◌, ◌<◌, min, ◌≡◌, refl, sym, ap, ap₂, subst, ◌∙◌,
  fun_ext, ◌≢◌, ◌↔◌, ◌⊎◌, inl, inr, Bool, true, false, not, ◌&&◌, ◌||◌, Option, none, some, List,
  [], ◌∷◌, ◌++◌, map, append-nil, append_assoc, arith, ltb, leb, ◌==◌, if◌then◌else◌, ltb→lt,
  lt→ltb, leb→le, ==_iff, tests, Bool-cases, Option-cases, from_next, true_ne_false, length,
  get_elem?, set, length-append, length-set, get_elem?-set_self, get_elem?-set_ne, get_or, take,
  drop, replicate, take-append-drop, length-take, length-drop, length-replicate, length-map, ℤ,
  minus_one, sub_ℕ, sub_ℕ-eq-zero, sub_ℕ-self, pos, negsuc, update, update_self, update_ne,
  update_same,
}
use operating_systems_lab.Prelude.Run.{return, panic, ◌>>=◌, ◌>>◌}
use operating_systems_lab.Kalloc.{Kmem, pgsize}
use operating_systems_lab.Vm.{M, pg_round_down, walkaddr}
use operating_systems_lab.Vm.Bytes.{load_byte, store_byte, move_bytes}

-- The bytes from an address to the end of its page, `len` at most.
unfoldable pub chunk : ℕ → ℕ → ℕ
chunk va len = let n = pgsize - (va - pg_round_down va) in if ltb len n then len else n

-- walkaddr lets only addresses below MAXVA through, so that the next page's address does not wrap.
unfoldable pub copyout_from : ℕ → ℕ → ℕ → ℕ → ℕ → M Bool
unfolding walkaddr chunk
copyout_from zero pagetable dstva src len = panic
copyout_from (suc rounds) pagetable dstva src len = elim (len == 0) [
  | true ↦ return true
  | false ↦ do
    pa0 ← walkaddr pagetable (pg_round_down dstva)
    elim (pa0 == 0) [
      | true ↦ return false
      | false ↦ do
        move_bytes (pa0 + (dstva - pg_round_down dstva)) src (chunk dstva len)
        copyout_from rounds pagetable (pg_round_down dstva + pgsize) (src + chunk dstva len)
            (len - chunk dstva len)
    ]
]

unfoldable pub copyout : ℕ → ℕ → ℕ → ℕ → M Bool
unfolding copyout_from
copyout pagetable dstva src len = copyout_from (len + 1) pagetable dstva src len

-- A round of copyin behind its walkaddr; `next` is the next round.
unfoldable pub copyin_page : M Bool → ℕ → ℕ → ℕ → ℕ → M Bool
unfolding chunk
copyin_page next dst srcva len pa0 k = elim (pa0 == 0) [
  | true ↦ some (false, k)
  | false ↦ (do move_bytes dst (pa0 + (srcva - pg_round_down srcva)) (chunk srcva len); next) k
]

unfoldable pub copyin_from : ℕ → ℕ → ℕ → ℕ → ℕ → M Bool
unfolding walkaddr copyin_page
copyin_from zero pagetable dst srcva len = panic
copyin_from (suc rounds) pagetable dst srcva len = elim (len == 0) [
  | true ↦ return true
  | false ↦
      walkaddr pagetable (pg_round_down srcva)
      >>= copyin_page
          (copyin_from rounds pagetable (dst + chunk srcva len) (pg_round_down srcva + pgsize)
            (len - chunk srcva len))
          dst srcva len
]

unfoldable pub copyin : ℕ → ℕ → ℕ → ℕ → M Bool
unfolding copyin_from
copyin pagetable dst srcva len = copyin_from (len + 1) pagetable dst srcva len

-- The inner loop of copyinstr: whether it came to the end of the string.
unfoldable pub copy_string : ℕ → ℕ → ℕ → M Bool
copy_string zero dst p = return false
copy_string (suc n) dst p = do
  c ← load_byte p
  elim (c == 0) [
    | true ↦ do store_byte dst 0; return true
    | false ↦ do store_byte dst c; copy_string n (dst + 1) (p + 1)
  ]

unfoldable pub copyinstr_from : ℕ → ℕ → ℕ → ℕ → ℕ → M Bool
unfolding walkaddr chunk copy_string
copyinstr_from zero pagetable dst srcva max = panic
copyinstr_from (suc rounds) pagetable dst srcva max = elim (max == 0) [
  | true ↦ return false
  | false ↦ do
    pa0 ← walkaddr pagetable (pg_round_down srcva)
    elim (pa0 == 0) [
      | true ↦ return false
      | false ↦ do
        got_null ← copy_string (chunk srcva max) dst (pa0 + (srcva - pg_round_down srcva))
        elim got_null [
          | true ↦ return true
          | false ↦
              copyinstr_from rounds pagetable (dst + chunk srcva max) (pg_round_down srcva + pgsize)
                (max - chunk srcva max)
        ]
    ]
]

unfoldable pub copyinstr : ℕ → ℕ → ℕ → ℕ → M Bool
unfolding copyinstr_from
copyinstr pagetable dst srcva max = copyinstr_from (max + 1) pagetable dst srcva max
