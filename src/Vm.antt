-- ===== src/Vm.antt =====
-- kernel/vm.c: Sv39 page tables in physical memory. The state is that of the page allocator, whose memory
-- holds the tables as 64-bit words; a pointer to a page-table entry is its address, and `none` the null
-- pointer. `none` as the result of a run is a panic.
pub mod Bytes
pub mod Space
pub mod Process
pub mod Copy
pub mod Unmap
pub mod Translate
pub mod Tables
pub mod Grow
pub mod Walk
pub mod Leaf
pub mod Map
mod Tests
use operating_systems_lab.Prelude.{
  ℕ, zero, suc, ◌+◌, ◌-◌, ◌*◌, ◌/◌, ◌%◌, ◌^◌, ◌≤◌, ◌<◌, ◌≡◌, refl, Bool, true, false, not, ◌&&◌,
  ◌||◌, Option, none, some, ltb, leb, ◌==◌, if◌then◌else◌, update,
}
use operating_systems_lab.Prelude.Bits.{or_bits}
use operating_systems_lab.Prelude.Run.{Run, return, panic, ◌>>=◌, ◌>>◌}
use operating_systems_lab.Kalloc.{Kmem, kalloc, fill_page, pgsize}

abbrev pub maxva : ℕ
maxva = 2 ^ 38

abbrev pub pg_round_down : ℕ → ℕ
pg_round_down a = a / pgsize * pgsize

-- PX(level, va), one of the 9-bit fields of a virtual address.
unfoldable pub px : ℕ → ℕ → ℕ
px level va = va / 2 ^ (12 + 9 * level) % 512

-- PA2PTE and PTE2PA, on a uint64.
unfoldable pub pa2pte : ℕ → ℕ
pa2pte pa = pa / 2 ^ 12 * 2 ^ 10

unfoldable pub pte2pa : ℕ → ℕ
pte2pa pte = pte / 2 ^ 10 * 2 ^ 12 % 2 ^ 64

-- The bits PTE_V and PTE_U, whether any of PTE_R, PTE_W, PTE_X is set, and PTE_FLAGS.
abbrev pub pte_v : ℕ → Bool
pte_v pte = pte % 2 == 1

abbrev pub pte_u : ℕ → Bool
pte_u pte = pte / 16 % 2 == 1

abbrev pub pte_rwx : ℕ → Bool
pte_rwx pte = not (pte / 2 % 8 == 0)

abbrev pub pte_flags : ℕ → ℕ
pte_flags pte = pte % 1024

-- PA2PTE(pa) | perm | PTE_V.
unfoldable pub leaf_pte : ℕ → ℕ → ℕ
unfolding pa2pte or_bits
leaf_pte pa perm = or_bits 64 (or_bits 64 (pa2pte pa) perm) 1

abbrev pub M : Type 0 → Type 0
M A = Run Kmem A

abbrev pub load : ℕ → M ℕ
load a k = some (k.word a, k)

abbrev pub store : ℕ → ℕ → M (Unit {0})
store a v k = some (tt, record k { word = update k.word a v })

-- memset(pa, 0, PGSIZE).
abbrev pub clear_page : ℕ → M (Unit {0})
clear_page pa k = some (tt, record k { word = fill_page k.word pa 0 })

abbrev pub alloc_page : M ℕ
alloc_page k = some (kalloc k)

abbrev pub entry_at : ℕ → ℕ → ℕ → ℕ
entry_at pagetable level va = pagetable + 8 * px level va

-- The branch of walk that makes a table and enters it at `pte`; `none` where there is no page.
unfoldable pub new_table : ℕ → M (Option ℕ)
unfolding pa2pte
new_table pte = do
  page ← alloc_page
  if page == 0
      then return none
      else (do clear_page page; store pte (pa2pte page + 1); return (some page))

-- The loop of walk, from a level on.
unfoldable pub walk_from : ℕ → ℕ → ℕ → Bool → M (Option ℕ)
unfolding new_table px pte2pa
walk_from zero pagetable va alloc k = some (some (entry_at pagetable 0 va), k)
walk_from (suc level) pagetable va alloc k =
    elim (pte_v (k.word (entry_at pagetable (suc level) va))) [
      | true ↦ walk_from level (pte2pa (k.word (entry_at pagetable (suc level) va))) va alloc k
      | false ↦ elim alloc [
        | false ↦ some (none, k)
        | true ↦
            (do
              made ← new_table (entry_at pagetable (suc level) va)
              elim made [ none ↦ return none | some page ↦ walk_from level page va true ])
              k
      ]
    ]

unfoldable pub walk : ℕ → ℕ → Bool → M (Option ℕ)
unfolding walk_from
walk pagetable va alloc = if leb maxva va then panic else walk_from 2 pagetable va alloc

-- walkaddr behind its walk.
unfoldable pub user_entry : Option ℕ → M ℕ
unfolding pte2pa
user_entry none = return 0
user_entry (some a) = do
  pte ← load a
  return (if not (pte_v pte) then 0 else if not (pte_u pte) then 0 else pte2pa pte)

unfoldable pub walkaddr : ℕ → ℕ → M ℕ
walkaddr pagetable va = if leb maxva va then return 0 else walk pagetable va false >>= user_entry

-- A round of mappages behind its walk, for the entry `r`; `next` is the next round.
unfoldable pub map_entry : M Bool → ℕ → ℕ → ℕ → ℕ → Option ℕ → M Bool
unfolding leaf_pte
map_entry next a last pa perm none k = some (false, k)
map_entry next a last pa perm (some pte) k = elim (pte_v (k.word pte)) [
  | true ↦ none
  | false ↦ (do store pte (leaf_pte pa perm); if a == last then return true else next) k
]

-- The loop of mappages; walk panics before the rounds run out. false is the result -1.
unfoldable pub map_from : ℕ → ℕ → ℕ → ℕ → ℕ → ℕ → M Bool
unfolding walk map_entry
map_from zero pagetable a last pa perm = panic
map_from (suc rounds) pagetable a last pa perm =
    walk pagetable a true
    >>= map_entry (map_from rounds pagetable (a + pgsize) last (pa + pgsize) perm) a last pa perm

-- The pages below MAXVA, and one round more. It stays shut, as the loop would unroll.
unfoldable pub map_rounds : ℕ
map_rounds = maxva / pgsize + 1

unfoldable pub mappages : ℕ → ℕ → ℕ → ℕ → ℕ → M Bool
unfolding map_from
mappages pagetable va size pa perm =
    if size == 0
    then panic
    else map_from map_rounds pagetable (pg_round_down va)
        (pg_round_down ((va + size + (2 ^ 64 - 1)) % 2 ^ 64)) pa perm

unfoldable pub kvmmap : ℕ → ℕ → ℕ → ℕ → ℕ → M (Unit {0})
unfolding mappages
kvmmap kpgtbl va pa sz perm = do ok ← mappages kpgtbl va sz pa perm; if ok then return tt else panic
