-- ===== src/Vm/Unmap.antt =====
-- uvmunmap of kernel/vm.c, where it keeps the pages: it takes a range of pages out, and nothing else.
use operating_systems_lab.Prelude.{
  ℕ, zero, suc, ◌+◌, ◌*◌, ◌/◌, ◌%◌, ◌^◌, ◌≤◌, ◌<◌, ◌≡◌, refl, sym, ap, subst, ◌∙◌, ◌≢◌, inl, inr,
  Bool, true, false, not, ◌&&◌, Option, none, some, List, arith, ltb, leb, ◌==◌, if◌then◌else◌,
  ==_iff, Bool-cases,
}
use operating_systems_lab.Prelude.Run.{bind_some}
use operating_systems_lab.Kalloc.{Kmem, pgsize}
use operating_systems_lab.Vm.{M, maxva, pte_v, pte_flags, walk, map_rounds}
use operating_systems_lab.Vm.Space.{unmap_entry, unmap_from, uvmunmap}
use operating_systems_lab.Vm.Tables.{Role, find, pte_of, pte_of-found, IsTable}
use operating_systems_lab.Vm.Walk.Find.{walk-find}
use operating_systems_lab.Vm.Leaf.{written, written-IsTable, pte_of-written}

-- The entries' values, once n pages from a on are taken out.
abbrev pub without_range : ℕ → ℕ → (ℕ → ℕ) → ℕ → ℕ → ℕ
without_range n a word pagetable va =
    if leb a va && ltb va (a + n * pgsize) then 0 else pte_of word 2 pagetable va

-- An entry that uvmunmap accepts.
abbrev pub is_mapping : ℕ → Bool
is_mapping pte = pte_v pte && not (pte_flags pte == 1)

-- How uvmunmap ends that has n pages left.
pub data Unmapping (e pagetable n a : ℕ) (k : Kmem) (free : List ℕ) (role : ℕ → Role)
    : Option (Unit {0} × Kmem) → Type 0 where
  not_mapped :
      (i : ℕ)
      → i < n
      → is_mapping (pte_of k.word 2 pagetable (a + i * pgsize)) ≡ false
      → Unmapping e pagetable n a k free role none
  unmapped :
      (k' : Kmem)
      → IsTable e pagetable k' free role
      → ((i : ℕ) → i < n → is_mapping (pte_of k.word 2 pagetable (a + i * pgsize)) ≡ true)
      → ((va : ℕ)
          → va < maxva
          → pte_of k'.word 2 pagetable va ≡ without_range n a k.word pagetable va)
      → Unmapping e pagetable n a k free role (some (tt, k'))

module _ (e pagetable : ℕ) (free : List ℕ) (role : ℕ → Role) where
  -- The ranges behind the first page.
  range_next :
      (n a va : ℕ) (word word₁ : ℕ → ℕ)
      → a % pgsize ≡ 0
      → pte_of word₁ 2 pagetable va
        ≡ (if va / pgsize == a / pgsize then 0 else pte_of word 2 pagetable va)
      → without_range n (a + pgsize) word₁ pagetable va ≡ without_range (suc n) a word pagetable va
  range_next n a va word word₁ aligned first = elim (Bool-cases (va / pgsize == a / pgsize)) [
    | inl here ↦
        let page : va / pgsize ≡ a / pgsize = (==_iff (va / pgsize) (a / pgsize)).0 here in
        let value : pte_of word₁ 2 pagetable va ≡ 0 = first ∙ rw here refl in
        let not_later : (leb (a + pgsize) va && ltb va (a + pgsize + n * pgsize)) ≡ false =
          ground (arith, page, aligned) in
        let in_range : (leb a va && ltb va (a + suc n * pgsize)) ≡ true =
          ground (arith, page, aligned) in
        rw (not_later, in_range) value
    | inr elsewhere ↦
        let page : va / pgsize ≢ a / pgsize = λ h. ground (arith, elsewhere, h) in
        let value : pte_of word₁ 2 pagetable va ≡ pte_of word 2 pagetable va =
          first ∙ rw elsewhere refl in
        let same : (leb (a + pgsize) va && ltb va (a + pgsize + n * pgsize))
            ≡ (leb a va && ltb va (a + suc n * pgsize)) =
          ground (arith, page, aligned) in
        rw (same, value) refl
  ]

  beyond :
      (i a : ℕ) (word word₁ : ℕ → ℕ)
      → a % pgsize ≡ 0
      → a + pgsize + i * pgsize < maxva
      → ((va : ℕ)
          → va < maxva
          → pte_of word₁ 2 pagetable va
            ≡ (if va / pgsize == a / pgsize then 0 else pte_of word 2 pagetable va))
      → pte_of word₁ 2 pagetable (a + pgsize + i * pgsize)
        ≡ pte_of word 2 pagetable (a + suc i * pgsize)
  beyond i a word word₁ aligned small first =
      let differs : ((a + pgsize + i * pgsize) / pgsize == a / pgsize) ≡ false =
        ground (arith, aligned) in
      first (a + pgsize + i * pgsize) small
      ∙ rw differs (ap (λ (p : ℕ). pte_of word 2 pagetable p) (omega arith))

  all_mapped :
      (n a : ℕ) (k k₁ : Kmem)
      → a % pgsize ≡ 0
      → a + suc n * pgsize ≤ maxva
      → is_mapping (pte_of k.word 2 pagetable a) ≡ true
      → ((va : ℕ)
          → va < maxva
          → pte_of k₁.word 2 pagetable va
            ≡ (if va / pgsize == a / pgsize then 0 else pte_of k.word 2 pagetable va))
      → ((i : ℕ) → i < n → is_mapping (pte_of k₁.word 2 pagetable (a + pgsize + i * pgsize)) ≡ true)
      → (i : ℕ) → i < suc n
      → is_mapping (pte_of k.word 2 pagetable (a + i * pgsize)) ≡ true
  all_mapped n a k k₁ aligned small here first all zero lt =
      let at : a ≡ a + 0 * pgsize = omega arith in
      ap (λ (q : ℕ). is_mapping (pte_of k.word 2 pagetable q)) (sym at) ∙ here
  all_mapped n a k k₁ aligned small here first all (suc i) lt =
      ap is_mapping (sym (beyond i a k.word k₁.word aligned (omega arith) first))
      ∙ all i (omega arith)

  pte_of-none :
      (k : Kmem) (a : ℕ) → find k.word 2 pagetable a ≡ none → pte_of k.word 2 pagetable a ≡ 0
  unfolding pte_of
  pte_of-none k a h = rw h refl

  Unmapping-next :
      (n a : ℕ) (k k₁ : Kmem) (o : Option (Unit {0} × Kmem))
      → a % pgsize ≡ 0
      → a + suc n * pgsize ≤ maxva
      → is_mapping (pte_of k.word 2 pagetable a) ≡ true
      → ((va : ℕ)
          → va < maxva
          → pte_of k₁.word 2 pagetable va
            ≡ (if va / pgsize == a / pgsize then 0 else pte_of k.word 2 pagetable va))
      → Unmapping e pagetable n (a + pgsize) k₁ free role o
      → Unmapping e pagetable (suc n) a k free role o
  Unmapping-next n a k k₁ o aligned small here first (not_mapped i lt bad) =
      not_mapped (suc i) (omega arith)
        (ap is_mapping (sym (beyond i a k.word k₁.word aligned (omega arith) first)) ∙ bad)
  Unmapping-next n a k k₁ o aligned small here first (unmapped k' v all values) =
      unmapped k' v (all_mapped n a k k₁ aligned small here first all)
        (λ va lt. values va lt ∙ range_next n a va k.word k₁.word aligned (first va lt))

  without_none :
      (a va : ℕ) (word : ℕ → ℕ) → without_range 0 a word pagetable va ≡ pte_of word 2 pagetable va
  without_none a va word =
      let outside : (leb a va && ltb va (a + 0 * pgsize)) ≡ false = ground arith in rw outside refl

  -- A round behind its walk.
  unmap_entry-Unmapping :
      (n a : ℕ) (next : M (Unit {0})) (k : Kmem) (r : Option ℕ)
      → a % pgsize ≡ 0
      → a + suc n * pgsize ≤ maxva
      → IsTable e pagetable k free role
      → find k.word 2 pagetable a ≡ r
      → ((k₁ : Kmem)
          → IsTable e pagetable k₁ free role
          → Unmapping e pagetable n (a + pgsize) k₁ free role (next k₁))
      → Unmapping e pagetable (suc n) a k free role (unmap_entry e next false r k)
  unfolding unmap_entry
  unmap_entry-Unmapping n a next k none aligned small v found rest = not_mapped 0 (omega arith) (
      ap (λ (p : ℕ). is_mapping (pte_of k.word 2 pagetable p)) (omega arith)
      ∙ ap is_mapping (pte_of-none k a found))
  unmap_entry-Unmapping n a next k (some q) aligned small v found rest =
      let value : pte_of k.word 2 pagetable a ≡ k.word q =
        pte_of-found k.word 2 pagetable a q found in
      let start : is_mapping (pte_of k.word 2 pagetable (a + 0 * pgsize)) ≡ is_mapping (k.word q) =
        ap (λ (p : ℕ). is_mapping (pte_of k.word 2 pagetable p)) (omega arith)
        ∙ ap is_mapping value in
      elim (Bool-cases (pte_v (k.word q))) [
        | inr invalid ↦
            rw (invalid, unmap_entry) (not_mapped 0 (omega arith) (start ∙ rw invalid refl))
        | inl valid ↦ elim (Bool-cases (pte_flags (k.word q) == 1)) [
          | inl table ↦
              rw (valid, table, unmap_entry)
                (not_mapped 0 (omega arith) (start ∙ rw (valid, table) refl))
          | inr leaf ↦
              let small_a : a < maxva = omega arith in
              let k₁ = written e pagetable k free role v a q 0 small_a found in
              rw (valid, leaf, unmap_entry)
                (Unmapping-next n a k k₁ _ aligned small
                  (ap is_mapping value ∙ rw (valid, leaf) refl)
                  (pte_of-written e pagetable k free role v a q 0 small_a found)
                  (rest k₁ (written-IsTable e pagetable k free role v a q 0 small_a found)))
        ]
      ]

  unmap_from-Unmapping :
      (rounds n a : ℕ) (k : Kmem)
      → n < rounds
      → a % pgsize ≡ 0
      → a + n * pgsize ≤ maxva
      → IsTable e pagetable k free role
      → Unmapping e pagetable n a k free role
          (unmap_from e rounds pagetable a (a + n * pgsize) false k)
  unfolding unmap_from
  unmap_from-Unmapping zero n a k fuel aligned small v = absurd (omega arith)
  unmap_from-Unmapping (suc rounds) zero a k fuel aligned small v =
      let done : ltb a (a + 0 * pgsize) ≡ false = ground arith in
      rw (done, unmap_from)
        (unmapped k v (λ i lt. absurd (omega arith)) (λ va lt. sym (without_none a va k.word)))
  unmap_from-Unmapping (suc rounds) (suc n) a k fuel aligned small v =
      let more : ltb a (a + suc n * pgsize) ≡ true = ground arith in
      let last : a + suc n * pgsize ≡ a + pgsize + n * pgsize = omega arith in
      let next = unmap_from e rounds pagetable (a + pgsize) (a + suc n * pgsize) false in
      rw (more, unmap_from)
        (subst (λ (o : Option (Unit {0} × Kmem)). Unmapping e pagetable (suc n) a k free role o)
          (sym (
            bind_some (walk pagetable a false) (unmap_entry e next false) k
              (walk-find pagetable a k (omega arith))))
          (unmap_entry-Unmapping n a next k _ aligned small v refl λ k₁ v₁.
            subst
              (λ (l : ℕ).
                Unmapping e pagetable n (a + pgsize) k₁ free role
                  (unmap_from e rounds pagetable (a + pgsize) l false k₁))
              (sym last)
              (unmap_from-Unmapping rounds n (a + pgsize) k₁ (omega arith) (omega arith)
                (omega arith) v₁)))

enough_rounds : (n : ℕ) → n * pgsize ≤ maxva → n < map_rounds + 1
unfolding map_rounds
enough_rounds n h = omega arith

-- uvmunmap, when it is not to free the pages, of n pages from an aligned address on, all below MAXVA, in a
-- proper page table: it panics only if one of them has no leaf entry; where it returns, each of them had
-- one and has the entry 0 now, and every other address the entry that it had. The page table stays proper,
-- with the same tables and the same free pages.
pub uvmunmap_lem :
    (e pagetable va n : ℕ) (k : Kmem) (free : List ℕ) (role : ℕ → Role)
    → va % pgsize ≡ 0
    → va + n * pgsize ≤ maxva
    → IsTable e pagetable k free role
    → Unmapping e pagetable n va k free role (uvmunmap e pagetable va n false k)
unfolding uvmunmap
uvmunmap_lem e pagetable va n k free role aligned small v =
    let no_wrap : (va + n * pgsize) % 2 ^ 64 ≡ va + n * pgsize = omega (arith, small) in
    let at_page : (va % pgsize == 0) ≡ true = ground (arith, aligned) in
    rw (at_page, no_wrap)
      (unmap_from-Unmapping e pagetable free role (map_rounds + 1) n va k
        (enough_rounds n (omega (arith, small))) aligned small v)
