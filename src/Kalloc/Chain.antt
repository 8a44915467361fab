-- ===== src/Kalloc/Chain.antt =====
-- The free list of kernel/kalloc.c as a list of page addresses, and the invariant of the allocator.
use operating_systems_lab.Prelude.{
  ℕ, ◌%◌, ◌≤◌, ◌<◌, ◌≡◌, ◌≢◌, subst, sym, List, [], ◌∷◌, arith, update, update_ne,
}
use operating_systems_lab.Kalloc.{Kmem, fill_page, pgsize, phystop}

-- From pointer `p` the `next` fields run through exactly the pages of the list, and end in 0.
abbrev pub Chain : (ℕ → ℕ) → ℕ → List ℕ → Type 0
Chain w p [] = p ≡ 0
Chain w p (x ∷ xs) = (p ≡ x) × Chain w (w x) xs

-- A page that kfree accepts: aligned, between the kernel's end and the end of memory.
pub record IsPage (end_addr pa : ℕ) : Type 0 where
  pub aligned : pa % pgsize ≡ 0
  pub above : end_addr ≤ pa
  pub below : pa < phystop

abbrev pub Fresh : ℕ → List ℕ → Type 0
Fresh pa [] = Unit {0}
Fresh pa (x ∷ xs) = (pa ≢ x) × Fresh pa xs

-- Every page of the list is one of the allocator's, and is in it once.
abbrev pub Pages : ℕ → List ℕ → Type 0
Pages e [] = Unit {0}
Pages e (x ∷ xs) = IsPage e x × Fresh x xs × Pages e xs

-- `pages` are the free pages of `k`, in the order in which they will be handed out.
pub record FreeList (end_addr : ℕ) (k : Kmem) (pages : List ℕ) : Type 0 where
  pub chained : Chain k.word k.freelist pages
  pub proper : Pages end_addr pages

-- Aligned pages that differ do not overlap.
fill_page_ne :
    (w : ℕ → ℕ) (pa c x : ℕ) → pa % pgsize ≡ 0 → x % pgsize ≡ 0 → pa ≢ x → fill_page w pa c x ≡ w x
fill_page_ne w pa c x h k ne = ground arith

pub Chain-update :
    (e : ℕ) (w : ℕ → ℕ) (pa v p : ℕ) (xs : List ℕ)
    → Fresh pa xs
    → Pages e xs
    → Chain w p xs
    → Chain (update w pa v) p xs
Chain-update e w pa v p [] f ok h = h
Chain-update e w pa v p (x ∷ xs) f ok h = (
  h.0,
  subst (λ n. Chain (update w pa v) n xs) (sym (update_ne w pa v x f.0))
      (Chain-update e w pa v (w x) xs f.1 ok.2 h.1),
)

pub Chain-fill_page :
    (e : ℕ) (w : ℕ → ℕ) (pa c p : ℕ) (xs : List ℕ)
    → pa % pgsize ≡ 0
    → Fresh pa xs
    → Pages e xs
    → Chain w p xs
    → Chain (fill_page w pa c) p xs
Chain-fill_page e w pa c p [] a f ok h = h
Chain-fill_page e w pa c p (x ∷ xs) a f ok h = (
  h.0,
  subst (λ n. Chain (fill_page w pa c) n xs) (sym (fill_page_ne w pa c x a ok.0.aligned f.0))
      (Chain-fill_page e w pa c (w x) xs a f.1 ok.2 h.1),
)
