-- ===== src/Vm/Map/Ranges.antt =====
-- The ranges that mappages of kernel/vm.c maps, page by page.
use operating_systems_lab.Prelude.{
  ℕ, zero, suc, ◌+◌, ◌-◌, ◌*◌, ◌/◌, ◌%◌, ◌≤◌, ◌<◌, ◌≡◌, refl, sym, ap, ◌∙◌, ◌≢◌, inl, inr, Bool,
  true, false, Option, none, some, List, [], arith, ltb, leb, ◌==◌, ◌&&◌, ==_iff, if◌then◌else◌,
  Bool-cases,
}
use operating_systems_lab.Kalloc.{Kmem, pgsize}
use operating_systems_lab.Vm.{maxva, pte_v, leaf_pte}
use operating_systems_lab.Vm.Tables.{Role, pte_of, IsTable}

-- The entries' values, once n pages from a on are mapped to those from pa on.
abbrev pub with_range : ℕ → ℕ → ℕ → ℕ → (ℕ → ℕ) → ℕ → ℕ → ℕ
with_range n a pa perm word pagetable va =
    if leb a va && ltb va (a + n * pgsize)
    then leaf_pte (pa + (va - a) / pgsize * pgsize) perm
    else pte_of word 2 pagetable va

-- How mappages ends that has n pages left.
pub data Mapping (e pagetable n a pa perm : ℕ) (k : Kmem) : Option (Bool × Kmem) → Type 0 where
  remap :
      (i : ℕ)
      → i < n
      → pte_v (pte_of k.word 2 pagetable (a + i * pgsize)) ≡ true
      → Mapping e pagetable n a pa perm k none
  mapped :
      (k' : Kmem) (free : List ℕ) (role : ℕ → Role)
      → IsTable e pagetable k' free role
      → ((i : ℕ) → i < n → pte_v (pte_of k.word 2 pagetable (a + i * pgsize)) ≡ false)
      → ((va : ℕ)
          → va < maxva
          → pte_of k'.word 2 pagetable va ≡ with_range n a pa perm k.word pagetable va)
      → Mapping e pagetable n a pa perm k (some (true, k'))
  out_of_memory :
      (i : ℕ) (k' : Kmem) (role : ℕ → Role)
      → i < n
      → IsTable e pagetable k' [] role
      → ((va : ℕ)
          → va < maxva
          → pte_of k'.word 2 pagetable va ≡ with_range i a pa perm k.word pagetable va)
      → Mapping e pagetable n a pa perm k (some (false, k'))

module _ (e pagetable : ℕ) (pos : 0 < e) (perm : ℕ) where
  range_tests :
      (n a va : ℕ)
      → a % pgsize ≡ 0
      → va / pgsize ≢ a / pgsize
      → (leb (a + pgsize) va && ltb va (a + pgsize + n * pgsize))
        ≡ (leb a va && ltb va (a + suc n * pgsize))
  range_tests n a va aligned page = elim (Bool-cases (leb a va)) [
    | inl below ↦
        let later : leb (a + pgsize) va ≡ true = ground (arith, below, aligned, page) in
        let same_end : a + pgsize + n * pgsize ≡ a + suc n * pgsize = omega arith in
        rw (below, later, same_end) refl
    | inr above ↦
        let not_later : leb (a + pgsize) va ≡ false = ground (arith, above) in
        rw (above, not_later) refl
  ]

  -- The first page of a range, and then the rest of it.
  range_next :
      (n a pa va : ℕ) (word word₁ : ℕ → ℕ)
      → a % pgsize ≡ 0
      → pte_of word₁ 2 pagetable va
        ≡ (if va / pgsize == a / pgsize then leaf_pte pa perm else pte_of word 2 pagetable va)
      → with_range n (a + pgsize) (pa + pgsize) perm word₁ pagetable va
        ≡ with_range (suc n) a pa perm word pagetable va
  range_next n a pa va word word₁ aligned first = elim (Bool-cases (va / pgsize == a / pgsize)) [
    | inl here ↦
        let page : va / pgsize ≡ a / pgsize = (==_iff (va / pgsize) (a / pgsize)).0 here in
        let not_later : (leb (a + pgsize) va && ltb va (a + pgsize + n * pgsize)) ≡ false =
          ground (arith, page, aligned) in
        let in_range : (leb a va && ltb va (a + suc n * pgsize)) ≡ true =
          ground (arith, page, aligned) in
        let at : pa ≡ pa + (va - a) / pgsize * pgsize = omega (arith, page, aligned) in
        let value : pte_of word₁ 2 pagetable va ≡ leaf_pte pa perm = first ∙ rw here refl in
        rw (not_later, in_range) (value ∙ ap (λ (q : ℕ). leaf_pte q perm) at)
    | inr elsewhere ↦
        let page : va / pgsize ≢ a / pgsize = λ h. ground (arith, elsewhere, h) in
        let value : pte_of word₁ 2 pagetable va ≡ pte_of word 2 pagetable va =
          first ∙ rw elsewhere refl in
        let same_test : (leb (a + pgsize) va && ltb va (a + pgsize + n * pgsize))
            ≡ (leb a va && ltb va (a + suc n * pgsize)) =
          range_tests n a va aligned page in
        elim (Bool-cases (leb a va && ltb va (a + suc n * pgsize))) [
          | inl inside ↦
              let later : a + pgsize ≤ va = ground (arith, same_test, inside) in
              let at : pa + pgsize + (va - (a + pgsize)) / pgsize * pgsize
                  ≡ pa + (va - a) / pgsize * pgsize =
                omega (arith, later) in
              rw (same_test, inside) (ap (λ (q : ℕ). leaf_pte q perm) at)
          | inr outside ↦ rw (same_test, outside) value
        ]
  ]

  -- A page of the range beyond the first keeps its value.
  beyond :
      (i a pa : ℕ) (word word₁ : ℕ → ℕ)
      → a % pgsize ≡ 0
      → a + pgsize + i * pgsize < maxva
      → ((va : ℕ)
          → va < maxva
          → pte_of word₁ 2 pagetable va
            ≡ (if va / pgsize == a / pgsize then leaf_pte pa perm else pte_of word 2 pagetable va))
      → pte_of word₁ 2 pagetable (a + pgsize + i * pgsize)
        ≡ pte_of word 2 pagetable (a + suc i * pgsize)
  beyond i a pa word word₁ aligned small first =
      let there : a + pgsize + i * pgsize ≡ a + suc i * pgsize = omega arith in
      let other_page : ((a + pgsize + i * pgsize) / pgsize == a / pgsize) ≡ false = ground arith in
      first (a + pgsize + i * pgsize) small
      ∙ rw other_page (ap (λ (q : ℕ). pte_of word 2 pagetable q) there)

  all_fresh :
      (n a pa : ℕ) (k k₁ : Kmem)
      → a % pgsize ≡ 0
      → a + suc n * pgsize ≤ maxva
      → pte_v (pte_of k.word 2 pagetable a) ≡ false
      → ((va : ℕ)
          → va < maxva
          → pte_of k₁.word 2 pagetable va ≡ (
              if va / pgsize == a / pgsize then leaf_pte pa perm else pte_of k.word 2 pagetable va))
      → ((i : ℕ) → i < n → pte_v (pte_of k₁.word 2 pagetable (a + pgsize + i * pgsize)) ≡ false)
      → (i : ℕ) → i < suc n
      → pte_v (pte_of k.word 2 pagetable (a + i * pgsize)) ≡ false
  all_fresh n a pa k k₁ aligned small fresh first new zero lt =
      let at : a ≡ a + 0 * pgsize = omega arith in
      ap (λ (q : ℕ). pte_v (pte_of k.word 2 pagetable q)) (sym at) ∙ fresh
  all_fresh n a pa k k₁ aligned small fresh first new (suc i) lt =
      ap (λ (w : ℕ). pte_v w) (sym (beyond i a pa k.word k₁.word aligned (omega arith) first))
      ∙ new i (omega arith)

  pub Mapping-next :
      (n a pa : ℕ) (k k₁ : Kmem) (o : Option (Bool × Kmem))
      → a % pgsize ≡ 0
      → a + suc n * pgsize ≤ maxva
      → pte_v (pte_of k.word 2 pagetable a) ≡ false
      → ((va : ℕ)
          → va < maxva
          → pte_of k₁.word 2 pagetable va ≡ (
              if va / pgsize == a / pgsize then leaf_pte pa perm else pte_of k.word 2 pagetable va))
      → Mapping e pagetable n (a + pgsize) (pa + pgsize) perm k₁ o
      → Mapping e pagetable (suc n) a pa perm k o
  Mapping-next n a pa k k₁ o aligned small fresh first (remap i lt valid) =
      remap (suc i) (omega arith) (
        ap (λ (w : ℕ). pte_v w) (sym (beyond i a pa k.word k₁.word aligned (omega arith) first))
        ∙ valid)
  Mapping-next n a pa k k₁ o aligned small fresh first (mapped k' free role v new values) =
      mapped k' free role v (all_fresh n a pa k k₁ aligned small fresh first new)
        (λ va lt. values va lt ∙ range_next n a pa va k.word k₁.word aligned (first va lt))
  Mapping-next n a pa k k₁ o aligned small fresh first (out_of_memory i k' role lt v values) =
      out_of_memory (suc i) k' role (omega arith) v
        (λ va va_lt. values va va_lt ∙ range_next i a pa va k.word k₁.word aligned (first va va_lt))

  pub with_range_none :
      (a pa va : ℕ) (word : ℕ → ℕ)
      → with_range 0 a pa perm word pagetable va ≡ pte_of word 2 pagetable va
  with_range_none a pa va word =
      let outside : (leb a va && ltb va (a + 0 * pgsize)) ≡ false = ground arith in rw outside refl
