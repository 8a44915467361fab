-- ===== src/Vm/Grow.antt =====
-- walk of kernel/vm.c makes a table: what that leaves as it was.
use operating_systems_lab.Prelude.{
  ℕ, zero, suc, ◌+◌, ◌*◌, ◌<◌, ◌≡◌, refl, sym, ap, subst, ◌∙◌, ◌≢◌, ◌⊎◌, inl, inr, true, false,
  none, some, List, [], ◌∷◌, arith, ltb, leb, ◌==◌, ◌&&◌, ==_iff, Bool-cases, update, update_ne,
  update_self, true_ne_false,
}
use operating_systems_lab.Kalloc.{Kmem, kalloc, fill_page, pgsize}
use operating_systems_lab.Kalloc.Chain.{IsPage, Fresh, FreeList}
use operating_systems_lab.Kalloc.Laws.{kalloc_pops, kalloc_empty, kalloc_word}
use operating_systems_lab.Vm.{px, pa2pte, pte2pa, pte_v, entry_at, new_table}
use operating_systems_lab.Vm.Tables.{
  Role, other, root, middle, lowest, child, at_level, find, pte_of, pte_of-valid, pte_of-invalid,
  IsTable, px_lt, entry_inj, pte2pa-pa2pte, pa2pte-valid, child_level, level_ne_other, level_one,
  FreeList-store, FreeList-clear,
}

-- The memory once a page p is cleared and entered at the entry i of table a.
abbrev pub entered : ℕ → ℕ → ℕ → (ℕ → ℕ) → ℕ → ℕ
entered a i p word = update (fill_page word p 0) (a + 8 * i) (pa2pte p + 1)

role-cases : (r : Role) → (r ≡ other) ⊎ (r ≢ other)
role-cases other = inl refl
role-cases root = inr (λ h. cc)
role-cases (middle i) = inr (λ h. cc)
role-cases (lowest i j) = inr (λ h. cc)

pub new_table-empty : (e pte : ℕ) (k : Kmem) → FreeList e k [] → new_table pte k ≡ some (none, k)
unfolding new_table
new_table-empty e pte k h = rw (kalloc_empty e k h) refl

-- A table a with an entry i that is not valid, and a first free page p.
module _ (e pagetable : ℕ) (pos : 0 < e) (k : Kmem) (p : ℕ) (xs : List ℕ) (role : ℕ → Role)
    (v : IsTable e pagetable k (p ∷ xs) role) (a i level : ℕ)
    (table : at_level (role a) (suc level) ≡ true) (lt : i < 512)
    (empty : pte_v (k.word (a + 8 * i)) ≡ false) where
  abbrev pub grown : Kmem
  grown = record (kalloc k).1 { word = entered a i p (kalloc k).1.word }

  abbrev pub grown_role : ℕ → Role
  grown_role = update role p (child (role a) i)

  given : ((kalloc k).0 ≡ p) × IsPage e p × Fresh p xs × FreeList e (kalloc k).1 xs
  given = kalloc_pops e p k xs pos v.free_list

  pub p-IsPage : IsPage e p
  p-IsPage = given.1

  pub new_table-grown : new_table (a + 8 * i) k ≡ some (some p, grown)
  unfolding new_table
  new_table-grown =
      let nonzero : (p == 0) ≡ false = ground (arith, p-IsPage.above, pos) in
      rw (given.0, nonzero) refl

  tables : (b : ℕ) → role b ≢ other → IsPage e b × (b ≢ p) × Fresh b xs
  tables b ne = let r = v.pages b ne in (r.0, r.1.0, r.1.1)

  a_table : IsPage e a × (a ≢ p) × Fresh a xs
  a_table = tables a (level_ne_other (suc level) (role a) table)

  p_other : role p ≡ other
  p_other = elim (role-cases (role p)) [
    | inl is_other ↦ is_other
    | inr ne ↦ absurd ((tables p ne).1 refl)
  ]

  -- The words of tables: the entry, the new table, and the others.
  pub word_entry : grown.word (a + 8 * i) ≡ pa2pte p + 1
  word_entry = update_self (fill_page (kalloc k).1.word p 0) (a + 8 * i) (pa2pte p + 1)

  pub word_new : (j : ℕ) → j < 512 → grown.word (p + 8 * j) ≡ 0
  word_new j j_lt =
      let apart : a + 8 * i ≢ p + 8 * j =
        λ same. a_table.1 (entry_inj a p i j a_table.0.aligned p-IsPage.aligned lt j_lt same).0 in
      let inside : (leb p (p + 8 * j) && ltb (p + 8 * j) (p + pgsize)) ≡ true = ground arith in
      update_ne (fill_page (kalloc k).1.word p 0) (a + 8 * i) (pa2pte p + 1) (p + 8 * j) apart
      ∙ rw inside refl

  pub word_same :
      (b j : ℕ)
      → role b ≢ other
      → j < 512
      → (a + 8 * i ≢ b + 8 * j)
      → grown.word (b + 8 * j) ≡ k.word (b + 8 * j)
  word_same b j ne j_lt apart =
      let t = tables b ne in
      let outside : (leb p (b + 8 * j) && ltb (b + 8 * j) (p + pgsize)) ≡ false =
        ground (arith, t.0.aligned, p-IsPage.aligned, t.1) in
      update_ne (fill_page (kalloc k).1.word p 0) (a + 8 * i) (pa2pte p + 1) (b + 8 * j) apart
      ∙ (rw outside refl)
      ∙ kalloc_word e p (b + 8 * j) k xs v.free_list outside

  pub grown_role_same : (b : ℕ) → role b ≢ other → grown_role b ≡ role b
  grown_role_same b ne = update_ne role p (child (role a) i) b (λ same. (tables b ne).1 (sym same))

  pub grown_role_new : grown_role p ≡ child (role a) i
  grown_role_new = update_self role p (child (role a) i)

  grown_pages : (b : ℕ) → grown_role b ≢ other → IsPage e b × Fresh b xs
  grown_pages b ne = elim (Bool-cases (p == b)) [
    | inl same ↦
        subst (λ (c : ℕ). IsPage e c × Fresh c xs) ((==_iff p b).0 same) (p-IsPage, given.2)
    | inr differs ↦
        let t = tables b (λ is_other. ne (ground (arith, differs, is_other))) in (t.0, t.2)
  ]

  grown_entries :
      (b l j : ℕ)
      → at_level (grown_role b) (suc l) ≡ true
      → j < 512
      → pte_v (grown.word (b + 8 * j)) ≡ true
      → grown_role (pte2pa (grown.word (b + 8 * j))) ≡ child (grown_role b) j
  grown_entries b l j at j_lt valid = elim (Bool-cases (p == b)) [
    | inl new ↦
        let zero_word : grown.word (b + 8 * j) ≡ 0 =
          subst (λ (c : ℕ). grown.word (c + 8 * j) ≡ 0) ((==_iff p b).0 new) (word_new j j_lt) in
        absurd (true_ne_false (sym valid ∙ ap (λ (w : ℕ). pte_v w) zero_word))
    | inr old ↦
        let same_role : grown_role b ≡ role b = ground (arith, old) in
        let here : at_level (role b) (suc l) ≡ true =
          ap (λ (r : Role). at_level r (suc l)) (sym same_role) ∙ at in
        let ne = level_ne_other (suc l) (role b) here in
        elim (Bool-cases (a + 8 * i == b + 8 * j)) [
          | inl entry ↦
              let at_entry = (==_iff (a + 8 * i) (b + 8 * j)).0 entry in
              let t =
                entry_inj a b i j a_table.0.aligned (tables b ne).0.aligned lt j_lt at_entry in
              rw (← at_entry, word_entry, pte2pa-pa2pte e p p-IsPage, same_role, ← t.0, ← t.1)
                grown_role_new
          | inr apart ↦
              let same = word_same b j ne j_lt (λ h. ground (arith, apart, h)) in
              let down = v.entries b l j here j_lt (ap (λ (w : ℕ). pte_v w) (sym same) ∙ valid) in
              let below : role (pte2pa (k.word (b + 8 * j))) ≢ other =
                level_ne_other l _
                  (ap (λ (r : Role). at_level r l) down ∙ child_level l (role b) j here) in
              rw (same, same_role) (grown_role_same (pte2pa (k.word (b + 8 * j))) below ∙ down)
        ]
  ]

  pub grown-IsTable : IsTable e pagetable grown xs grown_role
  grown-IsTable = record {
    free_list =
        FreeList-store e a i (pa2pte p + 1)
          (record (kalloc k).1 { word = fill_page (kalloc k).1.word p 0 }) xs a_table.0 a_table.2 lt
          (FreeList-clear e p (kalloc k).1 xs p-IsPage given.2 given.3);
    root_role = grown_role_same pagetable (λ h. cc (v.root_role)) ∙ v.root_role;
    pages = grown_pages;
    entries = grown_entries;
  }

  new_pte : (l va : ℕ) → pte_of grown.word l p va ≡ 0
  unfolding pte_of
  new_pte zero va = word_new (px 0 va) (px_lt 0 va)
  new_pte (suc l) va = rw (word_new (px (suc l) va) (px_lt (suc l) va), find) refl

  -- No translation changes.
  pub grown_pte :
      (l b va : ℕ) → at_level (role b) l ≡ true → pte_of grown.word l b va ≡ pte_of k.word l b va
  unfolding pte_of
  grown_pte zero b va at =
      let ne = level_ne_other 0 (role b) at in
      word_same b (px 0 va) ne (px_lt 0 va) (λ same.
        let t =
          entry_inj a b i (px 0 va) a_table.0.aligned (tables b ne).0.aligned lt (px_lt 0 va)
            same in
        absurd (
          omega (
            arith,
            level_one (suc level) 0 (role a) table (ap (λ (c : ℕ). at_level (role c) 0) t.0 ∙ at),
          )))
  grown_pte (suc l) b va at =
      let ne = level_ne_other (suc l) (role b) at in
      elim (Bool-cases (pte_v (k.word (entry_at b (suc l) va)))) [
        | inl valid ↦
            let same =
              word_same b (px (suc l) va) ne (px_lt (suc l) va) (λ h.
                true_ne_false (sym valid ∙ ap (λ (q : ℕ). pte_v (k.word q)) (sym h) ∙ empty)) in
            let down = v.entries b l (px (suc l) va) at (px_lt (suc l) va) valid in
            let below =
              ap (λ (r : Role). at_level r l) down ∙ child_level l (role b) (px (suc l) va) at in
            pte_of-valid grown.word l b va (ap (λ (w : ℕ). pte_v w) same ∙ valid)
            ∙ ap (λ (w : ℕ). pte_of grown.word l (pte2pa w) va) same
            ∙ grown_pte l (pte2pa (k.word (entry_at b (suc l) va))) va below
            ∙ sym (pte_of-valid k.word l b va valid)
        | inr invalid ↦ elim (Bool-cases (a + 8 * i == entry_at b (suc l) va)) [
          | inl entry ↦
              let at_entry = (==_iff (a + 8 * i) (entry_at b (suc l) va)).0 entry in
              let word_here = ap grown.word (sym at_entry) ∙ word_entry in
              pte_of-valid grown.word l b va (ap (λ (w : ℕ). pte_v w) word_here ∙ pa2pte-valid p)
              ∙ ap (λ (w : ℕ). pte_of grown.word l (pte2pa w) va) word_here
              ∙ ap (λ (q : ℕ). pte_of grown.word l q va) (pte2pa-pa2pte e p p-IsPage)
              ∙ new_pte l va
              ∙ sym (pte_of-invalid k.word l b va invalid)
          | inr apart ↦
              let same =
                word_same b (px (suc l) va) ne (px_lt (suc l) va) (λ h. ground (arith, apart, h)) in
              pte_of-invalid grown.word l b va (ap (λ (w : ℕ). pte_v w) same ∙ invalid)
              ∙ sym (pte_of-invalid k.word l b va invalid)
        ]
      ]
