-- ===== src/Vm/Translate.antt =====
-- walkaddr of kernel/vm.c: the physical page of a user address.
use operating_systems_lab.Prelude.{
  ℕ, suc, ◌+◌, ◌-◌, ◌*◌, ◌/◌, ◌%◌, ◌^◌, ◌≤◌, ◌<◌, ◌≡◌, refl, sym, ap, ◌∙◌, inl, inr, Bool, true,
  false, ◌&&◌, Option, none, some, List, arith, ltb, leb, if◌then◌else◌, ltb→lt, Bool-cases,
}
use operating_systems_lab.Prelude.Run.{bind_some}
use operating_systems_lab.Kalloc.{Kmem, pgsize}
use operating_systems_lab.Prelude.Bits.{or_bits, or_bits_one, or_bits_low}
use operating_systems_lab.Vm.{
  maxva, user_entry, pte_v, pte_u, pte2pa, leaf_pte, pa2pte, walk, walkaddr, pg_round_down,
  mappages,
}
use operating_systems_lab.Vm.Tables.{Role, find, value_at, pte_of, IsTable}
use operating_systems_lab.Vm.Walk.Find.{walk-find}
use operating_systems_lab.Vm.Leaf.{find-page, px_page}
use operating_systems_lab.Vm.Map.{mappages_lem}
use operating_systems_lab.Vm.Map.Ranges.{Mapping, with_range, remap, mapped, out_of_memory}

-- The physical page of an address that the user can access, and 0 for every other address.
unfoldable pub user_page : (ℕ → ℕ) → ℕ → ℕ → ℕ
unfolding pte_of pte2pa
user_page word pagetable va =
    let pte = pte_of word 2 pagetable va in
    if ltb va maxva && pte_v pte && pte_u pte then pte2pa pte else 0

user_entry-value :
    (va : ℕ) (r : Option ℕ) (k : Kmem)
    → ltb va maxva ≡ true
    → user_entry r k
      ≡ some (
        (let pte = value_at k.word r in
            if ltb va maxva && pte_v pte && pte_u pte then pte2pa pte else 0),
        k,
      )
unfolding user_entry
user_entry-value va none k inside = rw inside refl
user_entry-value va (some q) k inside = elim (Bool-cases (pte_v (k.word q))) [
  | inl valid ↦ elim (Bool-cases (pte_u (k.word q))) [
    | inl user ↦ rw (inside, valid, user) refl
    | inr kernel ↦ rw (inside, valid, kernel) refl
  ]
  | inr invalid ↦ rw (inside, invalid) refl
]

-- walkaddr returns the physical page of an address that the user can access and 0 for every other address,
-- those from MAXVA on included, and only reads memory.
pub walkaddr_lem :
    (pagetable va : ℕ) (k : Kmem)
    → walkaddr pagetable va k ≡ some (user_page k.word pagetable va, k)
unfolding walkaddr user_page pte_of
walkaddr_lem pagetable va k = elim (Bool-cases (leb maxva va)) [
  | inl above ↦
      let not_below : ltb va maxva ≡ false = ground (arith, above) in rw (above, not_below) refl
  | inr below ↦
      let inside : ltb va maxva ≡ true = ground (arith, below) in
      rw below (
        bind_some (walk pagetable va false) user_entry k
          (walk-find pagetable va k (ltb→lt va maxva inside))
        ∙ user_entry-value va (find k.word 2 pagetable va) k inside)
]

-- Addresses of one page have one physical page.
pub user_page_same :
    (word : ℕ → ℕ) (pagetable va va' : ℕ)
    → va / pgsize ≡ va' / pgsize
    → user_page word pagetable va ≡ user_page word pagetable va'
unfolding user_page pte_of
user_page_same word pagetable va va' h =
    let bound : ltb va maxva ≡ ltb va' maxva = ground (arith, h) in
    rw (find-page word 2 pagetable va va' (λ m le. px_page va va' m h le), bound) refl

leaf_sum :
    (pa perm : ℕ)
    → perm < 1024
    → pa < 2 ^ 56
    → leaf_pte pa perm ≡ pa / 2 ^ 12 * 2 ^ 10 + perm / 2 * 2 + 1
unfolding leaf_pte pa2pte
leaf_sum pa perm small low =
    let x = pa / 2 ^ 12 * 2 ^ 10 in
    let sum : or_bits 64 x perm ≡ x + perm =
      or_bits_low 10 64 x perm
        ((
          omega arith,
          (
            omega arith,
            (
              omega arith,
              (
                omega arith,
                (
                  omega arith,
                  (omega arith, (omega arith, (omega arith, (omega arith, (omega arith, tt))))),
                ),
              ),
            ),
          ),
        ))
        (omega (arith, low)) small (omega (arith, small)) in
    ap (λ (v : ℕ). or_bits 64 v 1) sum
    ∙ or_bits_one 63 (x + perm) (omega (arith, small, low))
    ∙ omega arith

leaf_user :
    (pa perm : ℕ)
    → perm < 1024
    → perm / 16 % 2 ≡ 1
    → pa % pgsize ≡ 0
    → pa < 2 ^ 56
    → (pte_v (leaf_pte pa perm) ≡ true)
      × (pte_u (leaf_pte pa perm) ≡ true)
      × (pte2pa (leaf_pte pa perm) ≡ pa)
unfolding pte2pa
leaf_user pa perm small user aligned low =
    let value = leaf_sum pa perm small low in
    let odd : (pa / 2 ^ 12 * 2 ^ 10 + perm / 2 * 2 + 1) % 2 ≡ 1 = omega arith in
    let bit : (pa / 2 ^ 12 * 2 ^ 10 + perm / 2 * 2 + 1) / 16 % 2 ≡ 1 = omega (arith, small, user) in
    rw value (ground (arith, odd), ground (arith, bit), omega (arith, small, aligned, low))

same_kmem :
    (k' k'' : Kmem) → ◌≡◌ {A = Option (Bool × Kmem)} (some (true, k'')) (some (true, k')) → k'' ≡ k'
same_kmem k' k'' h = cc

mapped_values :
    (e pagetable n a pa perm : ℕ) (k k' : Kmem) (o : Option (Bool × Kmem))
    → Mapping e pagetable n a pa perm k o
    → o ≡ some (true, k')
    → (va : ℕ) → va < maxva
    → pte_of k'.word 2 pagetable va ≡ with_range n a pa perm k.word pagetable va
mapped_values e pagetable n a pa perm k k' o (remap i lt valid) h va small = absurd cc
mapped_values e pagetable n a pa perm k k' o (out_of_memory i k'' role lt v values) h va small =
    absurd cc
mapped_values e pagetable n a pa perm k k' o (mapped k'' free role v fresh values) h va small =
    ap (λ (s : Kmem). pte_of s.word 2 pagetable va) (sym (same_kmem k' k'' h)) ∙ values va small

-- Once mappages of aligned physical memory, with PTE_U among the permissions, has returned 0 for a range below
-- MAXVA in a proper page table, walkaddr of every address of the range's pages gives its physical page.
pub walkaddr-mappages :
    (e pagetable va size pa perm n a : ℕ) (k k' : Kmem) (free : List ℕ) (role : ℕ → Role)
    → 0 < e
    → 0 < size
    → va + size ≤ maxva
    → pg_round_down (va + size - 1) ≡ pg_round_down va + n * pgsize
    → IsTable e pagetable k free role
    → perm < 1024
    → perm / 16 % 2 ≡ 1
    → pa % pgsize ≡ 0
    → pa + suc n * pgsize ≤ 2 ^ 56
    → mappages pagetable va size pa perm k ≡ some (true, k')
    → pg_round_down va ≤ a
    → a < pg_round_down va + suc n * pgsize
    → walkaddr pagetable a k' ≡ some (pa + (a - pg_round_down va) / pgsize * pgsize, k')
unfolding user_page
walkaddr-mappages e pagetable va size pa perm n a k k' free role above some_bytes small pages v
      perm_lt user aligned low runs from to =
    let below : a < maxva = omega (arith, to, pages, small, some_bytes) in
    let inside : ltb a maxva ≡ true = ground (arith, below) in
    let in_range : (leb (pg_round_down va) a && ltb a (pg_round_down va + suc n * pgsize)) ≡ true =
      ground (arith, from, to) in
    let page = pa + (a - pg_round_down va) / pgsize * pgsize in
    let value : pte_of k'.word 2 pagetable a ≡ leaf_pte page perm =
      mapped_values e pagetable (suc n) (pg_round_down va) pa perm k k' _
        (mappages_lem e pagetable va size pa perm n k free role above some_bytes small pages v) runs
        a below
      ∙ rw in_range refl in
    let (valid, has_user, leads) =
      leaf_user page perm perm_lt user (omega (arith, aligned)) (omega (arith, low, from, to)) in
    walkaddr_lem pagetable a k' ∙ rw (inside, value, valid, has_user, leads) refl
