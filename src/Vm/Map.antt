-- ===== src/Vm/Map.antt =====
-- mappages of kernel/vm.c maps a range of pages, and nothing else.
pub mod Ranges
use operating_systems_lab.Prelude.{
  ℕ, zero, suc, ◌+◌, ◌-◌, ◌*◌, ◌/◌, ◌%◌, ◌^◌, ◌≤◌, ◌<◌, ◌≡◌, refl, sym, ap, subst, ◌∙◌, ◌≢◌, inl,
  inr, Bool, true, false, Option, none, some, List, [], arith, ltb, leb, ◌==◌, ◌&&◌, ==_iff,
  if◌then◌else◌, Bool-cases,
}
use operating_systems_lab.Prelude.Run.{return, bind_some}
use operating_systems_lab.Kalloc.{Kmem, pgsize}
use operating_systems_lab.Vm.{
  M, maxva, pte_v, leaf_pte, walk, map_entry, map_from, map_rounds, mappages, pg_round_down,
}
use operating_systems_lab.Vm.Tables.{Role, root, at_level, find, pte_of, pte_of-found, IsTable}
use operating_systems_lab.Vm.Walk.{Walked, walk_lem}
use operating_systems_lab.Vm.Leaf.{written, written-IsTable, pte_of-written}
use operating_systems_lab.Vm.Map.Ranges.{
  with_range, Mapping, remap, mapped, out_of_memory, Mapping-next, with_range_none,
}

module _ (e pagetable : ℕ) (pos : 0 < e) (perm : ℕ) where
  -- A round behind its walk, where `next` is the rest of the loop.
  map_entry-Mapping :
      (n a pa last : ℕ) (next : M Bool) (k k' : Kmem) (role : ℕ → Role) (r : Option ℕ)
      → a % pgsize ≡ 0
      → a + suc n * pgsize ≤ maxva
      → role pagetable ≡ root
      → r ≡ find k'.word 2 pagetable a
      → Walked e pagetable k role r k'
      → ((k₁ : Kmem) (free : List ℕ) (role₁ : ℕ → Role)
          → IsTable e pagetable k₁ free role₁
          → Mapping e pagetable n
              (a + pgsize)
              (pa + pgsize)
              perm
              k₁
              ((if a == last then return true else next) k₁))
      → Mapping e pagetable (suc n) a pa perm k (map_entry next a last pa perm r k')
  unfolding map_entry
  map_entry-Mapping n a pa last next k k' role none aligned small at_root found w rest =
      out_of_memory 0 k' w.role' (omega arith)
        (subst (λ (xs : List ℕ). IsTable e pagetable k' xs w.role') (w.out_of_memory refl) w.valid)
        (λ va lt.
          w.same pagetable 2 va (rw at_root refl)
          ∙ sym (with_range_none e pagetable pos perm a pa va k.word))
  map_entry-Mapping n a pa last next k k' role (some q) aligned small at_root found w rest =
      let at : at_level (role pagetable) 2 ≡ true = rw at_root refl in
      let old : k'.word q ≡ pte_of k.word 2 pagetable a =
        sym (pte_of-found k'.word 2 pagetable a q (sym found)) ∙ w.same pagetable 2 a at in
      elim (Bool-cases (pte_v (k'.word q))) [
        | inl valid ↦
            rw (valid, map_entry)
              (remap 0 (omega arith) (
                ap (λ (x : ℕ). pte_v x)
                  (sym (old ∙ ap (λ (p : ℕ). pte_of k.word 2 pagetable p) (omega arith)))
                ∙ valid))
        | inr invalid ↦
            let small_a : a < maxva = omega arith in
            let k₁ =
              written e pagetable k' w.free' w.role' w.valid a q (leaf_pte pa perm) small_a
                (sym found) in
            let fresh : pte_v (pte_of k.word 2 pagetable a) ≡ false =
              ap (λ (x : ℕ). pte_v x) (sym old) ∙ invalid in
            rw (invalid, map_entry)
              (Mapping-next e pagetable pos perm n a pa k k₁ _ aligned small fresh
                (λ va lt.
                  pte_of-written e pagetable k' w.free' w.role' w.valid a q (leaf_pte pa perm)
                    small_a (sym found) va lt
                  ∙ ap (λ (x : ℕ). if va / pgsize == a / pgsize then leaf_pte pa perm else x)
                      (w.same pagetable 2 va at))
                (rest k₁ w.free' w.role' (
                  written-IsTable e pagetable k' w.free' w.role' w.valid a q (leaf_pte pa perm)
                    small_a (sym found))))
      ]

  map_from-round :
      (rounds n a pa last : ℕ) (k : Kmem) (free : List ℕ) (role : ℕ → Role)
      → a % pgsize ≡ 0
      → a + suc n * pgsize ≤ maxva
      → IsTable e pagetable k free role
      → ((k₁ : Kmem) (free : List ℕ) (role₁ : ℕ → Role)
          → IsTable e pagetable k₁ free role₁
          → Mapping e pagetable n (a + pgsize) (pa + pgsize) perm k₁ (
              (if a == last
                  then return true
                  else map_from rounds pagetable (a + pgsize) last (pa + pgsize) perm)
                k₁))
      → Mapping e pagetable (suc n) a pa perm k (map_from (suc rounds) pagetable a last pa perm k)
  unfolding map_from
  map_from-round rounds n a pa last k free role aligned small v rest =
      let (r, k', runs, found, w) = walk_lem e pagetable a k free role pos (omega arith) v in
      subst (λ (o : Option (Bool × Kmem)). Mapping e pagetable (suc n) a pa perm k o)
        (sym (
          bind_some (walk pagetable a true)
            (map_entry (map_from rounds pagetable (a + pgsize) last (pa + pgsize) perm) a last pa
              perm)
            k runs))
        (map_entry-Mapping n a pa last
          (map_from rounds pagetable (a + pgsize) last (pa + pgsize) perm) k k' role r aligned small
          v.root_role found w rest)

  map_from-Mapping :
      (rounds n a pa : ℕ) (k : Kmem) (free : List ℕ) (role : ℕ → Role)
      → n < rounds
      → a % pgsize ≡ 0
      → a + suc n * pgsize ≤ maxva
      → IsTable e pagetable k free role
      → Mapping e pagetable
          (suc n)
          a
          pa
          perm
          k
          (map_from rounds pagetable a (a + n * pgsize) pa perm k)
  map_from-Mapping zero n a pa k free role fuel aligned small v = absurd (omega arith)
  map_from-Mapping (suc rounds) zero a pa k free role fuel aligned small v =
      map_from-round rounds 0 a pa (a + 0 * pgsize) k free role aligned small v λ k₁ free₁ role₁ v₁.
        let last : (a == a + 0 * pgsize) ≡ true = ground arith in
        rw last (
          mapped k₁ free₁ role₁ v₁ (λ i lt. absurd (omega arith))
            (λ va lt.
              sym (with_range_none e pagetable pos perm (a + pgsize) (pa + pgsize) va k₁.word)))
  map_from-Mapping (suc rounds) (suc n) a pa k free role fuel aligned small v =
      map_from-round rounds (suc n) a pa (a + suc n * pgsize) k free role aligned small v
        λ k₁ free₁ role₁ v₁.
          let more : (a == a + suc n * pgsize) ≡ false = ground arith in
          let last : a + pgsize + n * pgsize ≡ a + suc n * pgsize = omega arith in
          rw (more, ← last)
            (map_from-Mapping rounds n (a + pgsize) (pa + pgsize) k₁ free₁ role₁ (omega arith)
              (omega arith) (omega arith) v₁)

enough_rounds : (n : ℕ) → n * pgsize < maxva → n < map_rounds
unfolding map_rounds
enough_rounds n h = omega arith

-- mappages of `size` bytes from va on, all below MAXVA, in a proper page table, for the n pages that the
-- range touches: it panics only if one of them is mapped already; where it returns 0, none of them was,
-- each now has the entry of its physical page with the permissions, and every other address the entry
-- that it had; it returns -1 only when no page is free for a table, and then the first pages of the range
-- are mapped. The page table stays proper.
pub mappages_lem :
    (e pagetable va size pa perm n : ℕ) (k : Kmem) (free : List ℕ) (role : ℕ → Role)
    → 0 < e
    → 0 < size
    → va + size ≤ maxva
    → pg_round_down (va + size - 1) ≡ pg_round_down va + n * pgsize
    → IsTable e pagetable k free role
    → Mapping e pagetable
        (suc n)
        (pg_round_down va)
        pa
        perm
        k
        (mappages pagetable va size pa perm k)
unfolding mappages
mappages_lem e pagetable va size pa perm n k free role pos some_bytes small pages v =
    let nonempty : (size == 0) ≡ false = ground (arith, some_bytes) in
    let end_wrap : (va + size + (2 ^ 64 - 1)) % 2 ^ 64 ≡ va + size - 1 =
      omega (arith, some_bytes, small) in
    rw (nonempty, end_wrap, pages)
      (map_from-Mapping e pagetable pos perm map_rounds n (pg_round_down va) pa k free role
        (enough_rounds n (omega (arith, small, some_bytes, pages))) (omega arith)
        (omega (arith, small, some_bytes, pages)) v)
