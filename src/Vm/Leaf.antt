-- ===== src/Vm/Leaf.antt =====
-- A write to an entry of a lowest table of kernel/vm.c changes the page of that entry, and no other.
use operating_systems_lab.Prelude.{
  ℕ, zero, suc, ◌+◌, ◌*◌, ◌/◌, ◌≤◌, ◌<◌, ◌≡◌, refl, sym, ap, subst, ◌∙◌, ◌≢◌, inl, inr, true, some,
  List, arith, ◌==◌, ==_iff, if◌then◌else◌, Bool-cases, Option-cases, update, update_ne,
  update_self,
}
use operating_systems_lab.Kalloc.{Kmem, pgsize}
use operating_systems_lab.Kalloc.Chain.{IsPage, Fresh, FreeList}
use operating_systems_lab.Vm.{maxva, px, pte2pa, pte_v, entry_at}
use operating_systems_lab.Vm.Tables.{
  Role, lowest, child, at_level, find, find-valid, find-invalid, value_at, pte_of, IsTable, px_lt,
  entry_inj, child_level, level_ne_other, level_one, FreeList-store,
}

-- The role of the lowest table for an address, from a role of a level on.
abbrev place : ℕ → Role → ℕ → Role
place zero r va = r
place (suc level) r va = place level (child r (px (suc level) va)) va

some_inj : (a b : ℕ) → some a ≡ some b → a ≡ b
some_inj a b h = cc

find-place :
    (e pagetable : ℕ) (k : Kmem) (free : List ℕ) (role : ℕ → Role)
    → IsTable e pagetable k free role
    → (level table va q : ℕ) → at_level (role table) level ≡ true
    → find k.word level table va ≡ some q
    → (c : ℕ) × (at_level (role c) 0 ≡ true)
      × (q ≡ entry_at c 0 va)
      × (role c ≡ place level (role table) va)
unfolding find
find-place e pagetable k free role v zero table va q at h = (table, at, some_inj q _ (sym h), refl)
find-place e pagetable k free role v (suc level) table va q at h =
    elim (Bool-cases (pte_v (k.word (entry_at table (suc level) va)))) [
      | inl valid ↦
          let down = v.entries table level (px (suc level) va) at (px_lt (suc level) va) valid in
          let below =
            ap (λ (r : Role). at_level r level) down
            ∙ child_level level (role table) (px (suc level) va) at in
          let (c, low, here, by) =
            find-place e pagetable k free role v level _ va q below
              (sym (find-valid k.word level table va valid) ∙ h) in
          (c, low, here, by ∙ ap (λ (r : Role). place level r va) down)
      | inr invalid ↦ absurd (cc (find-invalid k.word level table va invalid))
    ]

-- Addresses of one page have one entry.
pub find-page :
    (word : ℕ → ℕ) (level table va va' : ℕ)
    → ((m : ℕ) → m ≤ level → px m va ≡ px m va')
    → find word level table va ≡ find word level table va'
unfolding find
find-page word zero table va va' same = ap (λ (i : ℕ). some (table + 8 * i)) (same 0 (omega arith))
find-page word (suc level) table va va' same =
    let entry = ap (λ (i : ℕ). word (table + 8 * i)) (same (suc level) (omega arith)) in
    elim (Bool-cases (pte_v (word (entry_at table (suc level) va')))) [
      | inl valid ↦
          find-valid word level table va (ap (λ (w : ℕ). pte_v w) entry ∙ valid)
          ∙ ap (λ (w : ℕ). find word level (pte2pa w) va) entry
          ∙ find-page word level _ va va' (λ m h. same m (omega arith))
          ∙ sym (find-valid word level table va' valid)
      | inr invalid ↦
          find-invalid word level table va (ap (λ (w : ℕ). pte_v w) entry ∙ invalid)
          ∙ sym (find-invalid word level table va' invalid)
    ]

pub px_page : (va va' m : ℕ) → va / pgsize ≡ va' / pgsize → m ≤ 2 → px m va ≡ px m va'
unfolding px
px_page va va' zero h le = omega arith
px_page va va' (suc zero) h le = omega arith
px_page va va' (suc (suc zero)) h le = omega arith
px_page va va' (suc (suc (suc m))) h le = absurd (omega arith)

page_px :
    (va va' : ℕ)
    → va < maxva
    → va' < maxva
    → px 2 va ≡ px 2 va'
    → px 1 va ≡ px 1 va'
    → px 0 va ≡ px 0 va'
    → va / pgsize ≡ va' / pgsize
unfolding px
page_px va va' small small' h2 h1 h0 = omega arith

lowest_inj : (i j i' j' : ℕ) → lowest i j ≡ lowest i' j' → (i ≡ i') × (j ≡ j')
lowest_inj i j i' j' h = (cc, cc)

module _ (e pagetable : ℕ) (k : Kmem) (free : List ℕ) (role : ℕ → Role)
    (v : IsTable e pagetable k free role) (va q x : ℕ) (small : va < maxva)
    (found : find k.word 2 pagetable va ≡ some q) where
  abbrev pub written : Kmem
  written = record k { word = update k.word q x }

  root_level : at_level (role pagetable) 2 ≡ true
  root_level = rw (v.root_role) refl

  table :
      (c : ℕ) × (at_level (role c) 0 ≡ true)
      × (q ≡ entry_at c 0 va)
      × (role c ≡ lowest (px 2 va) (px 1 va))
  table =
      let (c, low, here, by) =
        find-place e pagetable k free role v 2 pagetable va q root_level found in
      (c, low, here, by ∙ ap (λ (r : Role). place 2 r va) v.root_role)

  table_page : IsPage e table.0 × Fresh table.0 free
  table_page = v.pages table.0 (level_ne_other 0 (role table.0) table.1)

  above_same :
      (b level j : ℕ)
      → at_level (role b) (suc level) ≡ true
      → j < 512
      → written.word (b + 8 * j) ≡ k.word (b + 8 * j)
  above_same b level j at lt = update_ne k.word q x (b + 8 * j) λ same.
      let t =
        entry_inj table.0 b (px 0 va) j table_page.0.aligned
          (v.pages b (level_ne_other (suc level) (role b) at)).0.aligned (px_lt 0 va) lt
          (sym table.2 ∙ same) in
      absurd (
        omega (
          arith,
          level_one 0 (suc level) (role b) (ap (λ (c : ℕ). at_level (role c) 0) (sym t.0) ∙ table.1)
              at,
        ))

  pub written-IsTable : IsTable e pagetable written free role
  written-IsTable = record {
    free_list =
        subst (λ (a : ℕ). FreeList e (record k { word = update k.word a x }) free) (sym table.2)
          (FreeList-store e table.0 (px 0 va) x k free table_page.0 table_page.1 (px_lt 0 va)
            v.free_list);
    root_role = v.root_role;
    pages = v.pages;
    entries = λ a level i at lt valid.
        let same = above_same a level i at lt in
        ap (λ (w : ℕ). role (pte2pa w)) same
        ∙ v.entries a level i at lt (ap (λ (w : ℕ). pte_v w) (sym same) ∙ valid);
  }

  -- The tables are found as before.
  find-written :
      (level b va' : ℕ)
      → at_level (role b) level ≡ true
      → find written.word level b va' ≡ find k.word level b va'
  unfolding find
  find-written zero b va' at = refl
  find-written (suc level) b va' at =
      let same = above_same b level (px (suc level) va') at (px_lt (suc level) va') in
      elim (Bool-cases (pte_v (k.word (entry_at b (suc level) va')))) [
        | inl valid ↦
            let down = v.entries b level (px (suc level) va') at (px_lt (suc level) va') valid in
            let below =
              ap (λ (r : Role). at_level r level) down
              ∙ child_level level (role b) (px (suc level) va') at in
            find-valid written.word level b va' (ap (λ (w : ℕ). pte_v w) same ∙ valid)
            ∙ ap (λ (w : ℕ). find written.word level (pte2pa w) va') same
            ∙ find-written level (pte2pa (k.word (entry_at b (suc level) va'))) va' below
            ∙ sym (find-valid k.word level b va' valid)
        | inr invalid ↦
            find-invalid written.word level b va' (ap (λ (w : ℕ). pte_v w) same ∙ invalid)
            ∙ sym (find-invalid k.word level b va' invalid)
      ]

  same_entry : (va' : ℕ) → va' / pgsize ≡ va / pgsize → find k.word 2 pagetable va' ≡ some q
  same_entry va' h = find-page k.word 2 pagetable va' va (λ m le. px_page va' va m h le) ∙ found

  other_entry :
      (va' q' : ℕ)
      → va' < maxva
      → va' / pgsize ≢ va / pgsize
      → find k.word 2 pagetable va' ≡ some q'
      → q ≢ q'
  other_entry va' q' small' ne found' same =
      let (c, low, here, by) =
        find-place e pagetable k free role v 2 pagetable va' q' root_level found' in
      let at : role c ≡ lowest (px 2 va') (px 1 va') =
        by ∙ ap (λ (r : Role). place 2 r va') v.root_role in
      let t =
        entry_inj table.0 c (px 0 va) (px 0 va') table_page.0.aligned
          (v.pages c (level_ne_other 0 (role c) low)).0.aligned (px_lt 0 va) (px_lt 0 va')
          (sym table.2 ∙ same ∙ here) in
      let roles =
        lowest_inj (px 2 va) (px 1 va) (px 2 va') (px 1 va') (sym table.3 ∙ ap role t.0 ∙ at) in
      ne (page_px va' va small' small (sym roles.0) (sym roles.1) (sym t.1))

  -- What the write does to the value of the entry of any address.
  pub pte_of-written :
      (va' : ℕ)
      → va' < maxva
      → pte_of written.word 2 pagetable va'
        ≡ (if va' / pgsize == va / pgsize then x else pte_of k.word 2 pagetable va')
  unfolding pte_of
  pte_of-written va' small' =
      ap (value_at written.word) (find-written 2 pagetable va' root_level)
      ∙ (elim (Bool-cases (va' / pgsize == va / pgsize)) [
        | inl same ↦
            let here = same_entry va' ((==_iff (va' / pgsize) (va / pgsize)).0 same) in
            rw (here, same) (update_self k.word q x)
        | inr differs ↦ elim (Option-cases (find k.word 2 pagetable va')) [
          | inl absent ↦ rw (absent, differs) refl
          | inr (q', found') ↦
              rw (found', differs)
                (update_ne k.word q x q'
                  (other_entry va' q' small' (λ h. ground (arith, differs, h)) found'))
        ]
      ])
