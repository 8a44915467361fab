-- ===== src/Kalloc.antt =====
-- kernel/kalloc.c: the allocator of physical pages. The free list is threaded through the free pages
-- themselves, so the model keeps physical memory as 64-bit words by address.
pub mod Chain
pub mod Laws
pub mod Init
mod Tests
use operating_systems_lab.Prelude.{
  ℕ, zero, suc, ◌+◌, ◌-◌, ◌*◌, ◌/◌, ◌%◌, Bool, ◌&&◌, ◌||◌, not, true, false, Option, none, some,
  ltb, leb, ◌==◌, if◌then◌else◌, update,
}

abbrev pub pgsize : ℕ
pgsize = 4096

abbrev pub kernbase : ℕ
kernbase = 0x80000000

abbrev pub phystop : ℕ
phystop = kernbase + 128 * 1024 * 1024

-- On an address below 2 ^ 64 - 4096, where the addition of PGROUNDUP does not wrap.
abbrev pub pg_round_up : ℕ → ℕ
pg_round_up sz = (sz + pgsize - 1) / pgsize * pgsize

-- `kmem`, with the physical memory that `struct run` lives in.
pub record Kmem : Type 0 where
  pub freelist : ℕ
  pub word : ℕ → ℕ

-- memset(pa, c, PGSIZE), as it changes the 64-bit words of memory.
abbrev pub fill_page : (ℕ → ℕ) → ℕ → ℕ → ℕ → ℕ
fill_page word pa c a = if leb pa a && ltb a (pa + pgsize) then c * 0x0101010101010101 else word a

-- `end_addr` is the address `end` of kernel.ld.
module _ (end_addr : ℕ) where
  -- The test of kfree that guards its panic.
  abbrev pub bad_page : ℕ → Bool
  bad_page pa = not (pa % pgsize == 0) || ltb pa end_addr || leb phystop pa

  -- `none` is panic("kfree").
  pub kfree : ℕ → Kmem → Option Kmem
  kfree pa k =
      if bad_page pa
      then none
      else some (record { freelist = pa; word = update (fill_page k.word pa 1) pa k.freelist })

  -- The loop of freerange, at most `fuel` rounds; `none` is a panic, or that the rounds ran out.
  pub free_from : ℕ → ℕ → ℕ → Kmem → Option Kmem
  free_from zero p pa_end k = none
  free_from (suc fuel) p pa_end k = elim (leb (p + pgsize) pa_end) [
    | true ↦ elim (kfree p k) [ none ↦ none | some k' ↦ free_from fuel (p + pgsize) pa_end k' ]
    | false ↦ some k
  ]

  pub freerange : ℕ → ℕ → Kmem → Option Kmem
  freerange pa_start pa_end k = free_from (pa_end / pgsize + 1) (pg_round_up pa_start) pa_end k

  -- The boot state: `kmem` is in zeroed memory.
  pub kinit : (ℕ → ℕ) → Option Kmem
  kinit word = freerange end_addr phystop (record { freelist = 0; word = word })

-- The page, or 0 if there is none.
pub kalloc : Kmem → ℕ × Kmem
kalloc k =
    let r = k.freelist in
    if r == 0 then (0, k) else (r, record { freelist = k.word r; word = fill_page k.word r 5 })
