-- ===== src/Kalloc/Laws.antt =====
-- What kfree and kalloc of kernel/kalloc.c do to the free list.
use operating_systems_lab.Prelude.{
  ℕ, ◌<◌, ◌==◌, ◌≡◌, refl, List, [], ◌∷◌, none, some, arith, update, update_self, subst, sym, false,
  ◌+◌, ◌&&◌, ltb, leb, inl, inr, Bool-cases,
}
use operating_systems_lab.Kalloc.{Kmem, kfree, kalloc, fill_page, bad_page, pgsize}
use operating_systems_lab.Kalloc.Chain.{
  Chain, IsPage, Fresh, FreeList, Chain-update, Chain-fill_page,
}

pub bad_page-IsPage : (e pa : ℕ) → IsPage e pa → bad_page e pa ≡ false
bad_page-IsPage e pa h = ground arith

-- Freeing a page of the allocator that is not free puts it at the front of the free list, keeps the invariant
-- and does not panic.
pub kfree_pushes :
    (e pa : ℕ) (k : Kmem) (pages : List ℕ)
    → FreeList e k pages
    → IsPage e pa
    → Fresh pa pages
    → (k' : Kmem) × (kfree e pa k ≡ some k') × FreeList e k' (pa ∷ pages)
unfolding kfree
kfree_pushes e pa k pages h p f = (
  record { freelist = pa; word = update (fill_page k.word pa 1) pa k.freelist },
  ground arith,
  record {
    chained = (
      refl,
      subst (λ n. Chain (update (fill_page k.word pa 1) pa k.freelist) n pages)
          (sym (update_self (fill_page k.word pa 1) pa k.freelist))
          (Chain-update e (fill_page k.word pa 1) pa k.freelist k.freelist pages f h.proper
            (Chain-fill_page e k.word pa 1 k.freelist pages p.aligned f h.proper h.chained)),
    );
    proper = (p, f, h.proper);
  },
)

-- kfree panics only on what is not a page of the allocator.
pub kfree_panics : (e pa : ℕ) (k : Kmem) → (kfree e pa k ≡ none) → ¬ IsPage e pa
unfolding kfree
kfree_panics e pa k h p = ground arith

-- With a free page, kalloc hands out the front of the free list, a page of the allocator that is not
-- free any more, and keeps the invariant.
pub kalloc_pops :
    (e x : ℕ) (k : Kmem) (xs : List ℕ)
    → 0 < e
    → FreeList e k (x ∷ xs)
    → ((kalloc k).0 ≡ x) × IsPage e x × Fresh x xs × FreeList e (kalloc k).1 xs
unfolding kalloc
kalloc_pops e x k xs pos h =
    rw (head, nonzero)
      (refl, h.proper.0, h.proper.1, record { chained = chain; proper = h.proper.2 })
  where
    head : k.freelist ≡ x
    head = h.chained.0

    nonzero : (x == 0) ≡ false
    nonzero = let p : IsPage e x = h.proper.0 in ground arith

    chain : Chain (fill_page k.word x 5) (k.word x) xs
    chain =
        Chain-fill_page e k.word x 5 (k.word x) xs h.proper.0.aligned h.proper.1 h.proper.2
          h.chained.1

-- With no free page kalloc returns 0 and changes nothing.
pub kalloc_empty : (e : ℕ) (k : Kmem) → FreeList e k [] → kalloc k ≡ (0, k)
unfolding kalloc
kalloc_empty e k h = let z : k.freelist ≡ 0 = h.chained in ground arith

-- A page that is freed while it is not free comes back from the next kalloc, and the free list is then
-- the one from before.
pub kalloc-kfree :
    (e pa : ℕ) (k : Kmem) (pages : List ℕ)
    → 0 < e
    → FreeList e k pages
    → IsPage e pa
    → Fresh pa pages
    → (k' : Kmem) × (kfree e pa k ≡ some k') × ((kalloc k').0 ≡ pa) × FreeList e (kalloc k').1 pages
kalloc-kfree e pa k pages pos h p f =
    let freed = kfree_pushes e pa k pages h p f in
    let given = kalloc_pops e pa freed.0 pages pos freed.2 in (freed.0, freed.1, given.0, given.3)

-- kalloc writes in the page that it hands out only.
pub kalloc_word :
    (e x y : ℕ) (k : Kmem) (xs : List ℕ)
    → FreeList e k (x ∷ xs)
    → (leb x y && ltb y (x + pgsize)) ≡ false
    → (kalloc k).1.word y ≡ k.word y
unfolding kalloc
kalloc_word e x y k xs h outside =
    let head : k.freelist ≡ x = h.chained.0 in
    elim (Bool-cases (x == 0)) [
      | inl none_left ↦ rw (head, none_left) refl
      | inr some_left ↦ rw (head, some_left, outside) refl
    ]
