-- ===== src/Kalloc/Tests.antt =====
-- The theorems on the page allocator at concrete inputs, and runs of its code.
use operating_systems_lab.Prelude.{ℕ, ◌-◌, ◌≡◌, refl, some, [], arith}
use operating_systems_lab.Kalloc.{Kmem, kalloc, kinit, phystop}
use operating_systems_lab.Kalloc.Chain.{IsPage, Fresh, FreeList}
use operating_systems_lab.Kalloc.Laws.{kalloc_empty}
use operating_systems_lab.Kalloc.Init.{kinit_frees_all, pages_from}

abbrev empty_kmem : Kmem
empty_kmem = record { freelist = 0; word = λ _. 0 }

empty-FreeList : FreeList 0x80020000 empty_kmem []
empty-FreeList = record { chained = refl; proper = tt }

lone-IsPage : IsPage 0x80020000 0x80021000
lone-IsPage = record { aligned = refl; above = omega arith; below = omega arith }

-- A kernel that ends in the last but one page of memory.
kinit_frees_all_example :
    (k : Kmem) × (kinit (phystop - 5000) (λ _. 7) ≡ some k)
    × FreeList (phystop - 5000) k (pages_from (phystop - 4096) 1 [])
    × ((pa : ℕ) → IsPage (phystop - 5000) pa → ¬ Fresh pa (pages_from (phystop - 4096) 1 []))
kinit_frees_all_example = kinit_frees_all (phystop - 5000) (λ _. 7) (omega arith) (omega arith)

kalloc_empty_example : kalloc empty_kmem ≡ (0, empty_kmem)
kalloc_empty_example = kalloc_empty 0x80020000 empty_kmem empty-FreeList
