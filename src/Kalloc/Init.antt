-- ===== src/Kalloc/Init.antt =====
-- freerange and kinit of kernel/kalloc.c: which pages they put on the free list.
use operating_systems_lab.Prelude.{
  ℕ, zero, suc, ◌+◌, ◌-◌, ◌*◌, ◌/◌, ◌%◌, ◌≤◌, ◌<◌, ◌≡◌, refl, inl, inr, true, some, List, [], ◌∷◌,
  arith, leb, ◌==◌, Bool-cases,
}
use operating_systems_lab.Kalloc.{Kmem, free_from, freerange, kinit, pgsize, phystop, pg_round_up}
use operating_systems_lab.Kalloc.Chain.{IsPage, Fresh, FreeList}
use operating_systems_lab.Kalloc.Laws.{kfree_pushes}

-- `n` pages from `p` on, the last one first, in front of the pages `acc`.
abbrev pub pages_from : ℕ → ℕ → List ℕ → List ℕ
pages_from p zero acc = acc
pages_from p (suc n) acc = pages_from (p + pgsize) n (p ∷ acc)

-- All pages of the list lie below `p`.
abbrev Under : ℕ → List ℕ → Type 0
Under p [] = Unit {0}
Under p (x ∷ xs) = (x < p) × Under p xs

Under-mono : (p q : ℕ) (xs : List ℕ) → p ≤ q → Under p xs → Under q xs
Under-mono p q [] h u = tt
Under-mono p q (x ∷ xs) h u = (omega arith, Under-mono p q xs h u.1)

Under-Fresh : (p : ℕ) (xs : List ℕ) → Under p xs → Fresh p xs
Under-Fresh p [] u = tt
Under-Fresh p (x ∷ xs) u = (omega arith, Under-Fresh p xs u.1)

free_from_lem :
    (e fuel n p pa_end : ℕ) (k : Kmem) (acc : List ℕ)
    → FreeList e k acc
    → Under p acc
    → p % pgsize ≡ 0
    → e ≤ p
    → pa_end ≤ phystop
    → p + n * pgsize ≤ pa_end
    → pa_end < p + n * pgsize + pgsize
    → n < fuel
    → (k' : Kmem) × (free_from e fuel p pa_end k ≡ some k') × FreeList e k' (pages_from p n acc)
unfolding free_from
free_from_lem e zero n p pa_end k acc h u a lo hi in_end last f = elim f [ ]
free_from_lem e (suc fuel) zero p pa_end k acc h u a lo hi in_end last f = (k, ground arith, h)
free_from_lem e (suc fuel) (suc n) p pa_end k acc h u a lo hi in_end last f =
    let page : IsPage e p = record { aligned = a; above = lo; below = omega arith } in
    let freed = kfree_pushes e p k acc h page (Under-Fresh p acc u) in
    let rest =
      free_from_lem e fuel n (p + pgsize) pa_end freed.0 (p ∷ acc) freed.2
        (omega arith, Under-mono p (p + pgsize) acc (omega arith) u) (omega arith) (omega arith) hi
        (omega arith) (omega arith) (omega arith) in
    let more : leb (p + pgsize) pa_end ≡ true = ground arith in
    (rest.0, rw (more, freed.1, free_from) rest.1, rest.2)

pages_from-acc : (p n pa : ℕ) (acc : List ℕ) → Fresh pa (pages_from p n acc) → Fresh pa acc
pages_from-acc p zero pa acc f = f
pages_from-acc p (suc n) pa acc f = (pages_from-acc (p + pgsize) n pa (p ∷ acc) f).1

-- Each of the `n` aligned addresses from `p` on is in the list.
pages_from-hits :
    (p n pa : ℕ) (acc : List ℕ)
    → p % pgsize ≡ 0
    → pa % pgsize ≡ 0
    → p ≤ pa
    → pa < p + n * pgsize
    → ¬ Fresh pa (pages_from p n acc)
pages_from-hits p zero pa acc a b lo hi f = omega arith
pages_from-hits p (suc n) pa acc a b lo hi f = elim (Bool-cases (pa == p)) [
  | inl same ↦ (pages_from-acc (p + pgsize) n pa (p ∷ acc) f).0 (ground arith)
  | inr other ↦
      pages_from-hits (p + pgsize) n pa (p ∷ acc) (omega arith) b (ground arith) (omega arith) f
]

-- The number of whole pages between the kernel's end and the end of memory.
abbrev pub page_count : ℕ → ℕ
page_count e = (phystop - pg_round_up e) / pgsize

-- From any memory, kinit does not panic; it leaves a free list that satisfies the invariant and holds
-- every page between the kernel's end and the end of memory.
pub kinit_frees_all :
    (e : ℕ) (word : ℕ → ℕ)
    → 0 < e
    → e ≤ phystop
    → (k : Kmem) × (kinit e word ≡ some k)
      × FreeList e k (pages_from (pg_round_up e) (page_count e) [])
      × ((pa : ℕ) → IsPage e pa → ¬ Fresh pa (pages_from (pg_round_up e) (page_count e) []))
unfolding kinit freerange
kinit_frees_all e word ne hi =
    let done =
      free_from_lem e (phystop / pgsize + 1) (page_count e) (pg_round_up e) phystop
        (record { freelist = 0; word = word }) [] (record { chained = refl; proper = tt }) tt
        (omega arith) (omega arith) (omega arith) (omega arith) (omega arith) (omega arith) in
    (
      done.0,
      done.1,
      done.2,
      λ pa page.
          pages_from-hits (pg_round_up e) (page_count e) pa [] (omega arith) page.aligned
            (omega (arith, page.above, page.aligned)) (omega (arith, page.below, page.aligned)),
    )
