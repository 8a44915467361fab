-- ===== src/Vm/Walk.antt =====
-- walk of kernel/vm.c returns the entry of an address, and makes the tables that it needs.
pub mod Find
use operating_systems_lab.Prelude.{
  ℕ, zero, suc, ◌+◌, ◌*◌, ◌<◌, ◌≡◌, refl, sym, ap, ◌∙◌, ◌≢◌, inl, inr, Bool, true, false, Option,
  none, some, List, [], ◌∷◌, arith, leb, Bool-cases, true_ne_false,
}
use operating_systems_lab.Prelude.Run.{◌>>=◌}
use operating_systems_lab.Kalloc.{Kmem}
use operating_systems_lab.Vm.{
  maxva, px, pa2pte, pte2pa, pte_v, entry_at, new_table, walk_from, walk,
}
use operating_systems_lab.Vm.Tables.{
  Role, other, at_level, find, find-valid, find-invalid, pte_of, IsTable, px_lt, pte2pa-pa2pte,
  pa2pte-valid, child_level, level_ne_other,
}
use operating_systems_lab.Vm.Grow.{
  new_table-empty, grown, grown_role, new_table-grown, p-IsPage, word_entry, word_same,
  grown_role_same, grown_role_new, grown-IsTable, grown_pte,
}
use operating_systems_lab.Vm.Walk.Find.{
  walk_from-valid, walk_from-missing, walk_from-full, walk_from-made, walk_from-find, walk-find,
}

-- What walk with allocation leaves when it returns r.
pub record Walked (e pagetable : ℕ) (k : Kmem) (role : ℕ → Role) (r : Option ℕ) (k' : Kmem)
    : Type 0 where
  pub free' : List ℕ
  pub role' : ℕ → Role
  pub valid : IsTable e pagetable k' free' role'
  pub out_of_memory : r ≡ none → free' ≡ []
  pub same :
      (b l va : ℕ) → at_level (role b) l ≡ true → pte_of k'.word l b va ≡ pte_of k.word l b va
  pub kept :
      (b j : ℕ)
      → role b ≢ other
      → j < 512
      → pte_v (k.word (b + 8 * j)) ≡ true
      → k'.word (b + 8 * j) ≡ k.word (b + 8 * j)
  pub roles : (b : ℕ) → role b ≢ other → role' b ≡ role b

abbrev pub Walks : (e pagetable level table va : ℕ) → Kmem → (ℕ → Role) → Type 0
Walks e pagetable level table va k role =
    (r : Option ℕ) × (k' : Kmem) × (walk_from level table va true k ≡ some (r, k'))
    × (r ≡ find k'.word level table va)
    × Walked e pagetable k role r k'

nothing_changed :
    (e pagetable : ℕ) (k : Kmem) (free : List ℕ) (role : ℕ → Role) (r : Option ℕ)
    → (r ≡ none → free ≡ [])
    → IsTable e pagetable k free role
    → Walked e pagetable k role r k
nothing_changed e pagetable k free role r out v = record {
  free' = free;
  role' = role;
  valid = v;
  out_of_memory = out;
  same = λ b l va h. refl;
  kept = λ b j h g u. refl;
  roles = λ b h. refl;
}

module _ (e pagetable : ℕ) (pos : 0 < e) where
  -- Through an entry that is valid.
  Walks-valid :
      (level table va : ℕ) (k : Kmem) (role : ℕ → Role)
      → role table ≢ other
      → pte_v (k.word (entry_at table (suc level) va)) ≡ true
      → Walks e pagetable level (pte2pa (k.word (entry_at table (suc level) va))) va k role
      → Walks e pagetable (suc level) table va k role
  Walks-valid level table va k role ne valid (r, k', runs, found, w) =
      let still = w.kept table (px (suc level) va) ne (px_lt (suc level) va) valid in
      (
        r,
        k',
        walk_from-valid level table va k true valid ∙ runs,
        found
            ∙ ap (λ (x : ℕ). find k'.word level (pte2pa x) va) (sym still)
            ∙ sym (find-valid k'.word level table va (ap (λ (x : ℕ). pte_v x) still ∙ valid)),
        w,
      )

  -- Where there is no page for a table.
  Walks-empty :
      (level table va : ℕ) (k : Kmem) (role : ℕ → Role)
      → IsTable e pagetable k [] role
      → pte_v (k.word (entry_at table (suc level) va)) ≡ false
      → Walks e pagetable (suc level) table va k role
  Walks-empty level table va k role v invalid = (
    none,
    k,
    walk_from-full level table va k invalid
        (new_table-empty e (entry_at table (suc level) va) k v.free_list),
    sym (find-invalid k.word level table va invalid),
    nothing_changed e pagetable k [] role none (λ h. refl) v,
  )

  -- Through a new table p.
  module _ (level table va : ℕ) (k : Kmem) (p : ℕ) (xs : List ℕ) (role : ℕ → Role)
      (v : IsTable e pagetable k (p ∷ xs) role) (at : at_level (role table) (suc level) ≡ true)
      (invalid : pte_v (k.word (entry_at table (suc level) va)) ≡ false) where
    abbrev k₁ : Kmem
    k₁ =
        grown e pagetable pos k p xs role v table (px (suc level) va) level at
          (px_lt (suc level) va) invalid

    abbrev role₁ : ℕ → Role
    role₁ =
        grown_role e pagetable pos k p xs role v table (px (suc level) va) level at
          (px_lt (suc level) va) invalid

    made : new_table (entry_at table (suc level) va) k ≡ some (some p, k₁)
    made =
        new_table-grown e pagetable pos k p xs role v table (px (suc level) va) level at
          (px_lt (suc level) va) invalid

    entered_word : k₁.word (entry_at table (suc level) va) ≡ pa2pte p + 1
    entered_word =
        word_entry e pagetable pos k p xs role v table (px (suc level) va) level at
          (px_lt (suc level) va) invalid

    role₁_same : (b : ℕ) → role b ≢ other → role₁ b ≡ role b
    role₁_same =
        grown_role_same e pagetable pos k p xs role v table (px (suc level) va) level at
          (px_lt (suc level) va) invalid

    kept₁ :
        (b j : ℕ)
        → role b ≢ other
        → j < 512
        → pte_v (k.word (b + 8 * j)) ≡ true
        → k₁.word (b + 8 * j) ≡ k.word (b + 8 * j)
    kept₁ b j ne j_lt valid =
        word_same e pagetable pos k p xs role v table (px (suc level) va) level at
          (px_lt (suc level) va) invalid b j ne j_lt
          (λ h. true_ne_false (sym valid ∙ ap (λ (q : ℕ). pte_v (k.word q)) (sym h) ∙ invalid))

    leads : pte2pa (pa2pte p + 1) ≡ p
    leads = pte2pa-pa2pte e p (
        p-IsPage e pagetable pos k p xs role v table (px (suc level) va) level at
          (px_lt (suc level) va) invalid)

    Walks-made :
        Walks e pagetable level p va k₁ role₁ → Walks e pagetable (suc level) table va k role
    Walks-made (r, k', runs, found, w) =
        let new_ne : role₁ p ≢ other = level_ne_other level (role₁ p) (
          ap (λ (q : Role). at_level q level)
            (grown_role_new e pagetable pos k p xs role v table (px (suc level) va) level at
              (px_lt (suc level) va) invalid)
          ∙ child_level level (role table) (px (suc level) va) at) in
        let table_ne = level_ne_other (suc level) (role table) at in
        let live₁ = λ (b : ℕ) (ne : role b ≢ other).
          λ (h : role₁ b ≡ other). ne (sym (role₁_same b ne) ∙ h) in
        let still : k'.word (entry_at table (suc level) va) ≡ pa2pte p + 1 =
          w.kept table (px (suc level) va) (live₁ table table_ne) (px_lt (suc level) va)
            (ap (λ (x : ℕ). pte_v x) entered_word ∙ pa2pte-valid p)
          ∙ entered_word in
        (
          r,
          k',
          walk_from-made level table va k p k₁ invalid made ∙ runs,
          found
              ∙ ap (λ (x : ℕ). find k'.word level x va) (sym leads)
              ∙ ap (λ (x : ℕ). find k'.word level (pte2pa x) va) (sym still)
              ∙ sym (
                  find-valid k'.word level table va
                    (ap (λ (x : ℕ). pte_v x) still ∙ pa2pte-valid p)),
          record {
            free' = w.free';
            role' = w.role';
            valid = w.valid;
            out_of_memory = w.out_of_memory;
            same = λ b l va' h.
                w.same b l va'
                  (ap (λ (q : Role). at_level q l) (role₁_same b (level_ne_other l (role b) h)) ∙ h)
                ∙ grown_pte e pagetable pos k p xs role v table (px (suc level) va) level at
                    (px_lt (suc level) va) invalid l b va' h;
            kept = λ b j ne j_lt valid.
                w.kept b j (live₁ b ne) j_lt
                  (ap (λ (x : ℕ). pte_v x) (kept₁ b j ne j_lt valid) ∙ valid)
                ∙ kept₁ b j ne j_lt valid;
            roles = λ b ne. w.roles b (live₁ b ne) ∙ role₁_same b ne;
          },
        )

  Walks-invalid :
      (level table va : ℕ) (k : Kmem) (free : List ℕ) (role : ℕ → Role)
      → IsTable e pagetable k free role
      → at_level (role table) (suc level) ≡ true
      → pte_v (k.word (entry_at table (suc level) va)) ≡ false
      → ((t v' : ℕ) (k' : Kmem) (free' : List ℕ) (role' : ℕ → Role)
          → IsTable e pagetable k' free' role'
          → at_level (role' t) level ≡ true
          → Walks e pagetable level t v' k' role')
      → Walks e pagetable (suc level) table va k role
  Walks-invalid level table va k [] role v at invalid next =
      Walks-empty level table va k role v invalid
  Walks-invalid level table va k (p ∷ xs) role v at invalid next =
      Walks-made level table va k p xs role v at invalid (
        next p va (k₁ level table va k p xs role v at invalid) xs
          (role₁ level table va k p xs role v at invalid)
          (grown-IsTable e pagetable pos k p xs role v table (px (suc level) va) level at
            (px_lt (suc level) va) invalid)
          (ap (λ (q : Role). at_level q level)
              (grown_role_new e pagetable pos k p xs role v table (px (suc level) va) level at
                (px_lt (suc level) va) invalid)
            ∙ child_level level (role table) (px (suc level) va) at))

  walk_from-Walks :
      (level table va : ℕ) (k : Kmem) (free : List ℕ) (role : ℕ → Role)
      → IsTable e pagetable k free role
      → at_level (role table) level ≡ true
      → Walks e pagetable level table va k role
  unfolding walk_from find
  walk_from-Walks zero table va k free role v at = (
    some (entry_at table 0 va),
    k,
    refl,
    refl,
    nothing_changed e pagetable k free role _ (λ h. absurd cc) v,
  )
  walk_from-Walks (suc level) table va k free role v at =
      elim (Bool-cases (pte_v (k.word (entry_at table (suc level) va)))) [
        | inl valid ↦
            let down = v.entries table level (px (suc level) va) at (px_lt (suc level) va) valid in
            let below =
              ap (λ (q : Role). at_level q level) down
              ∙ child_level level (role table) (px (suc level) va) at in
            Walks-valid level table va k role (level_ne_other (suc level) (role table) at) valid (
              walk_from-Walks level (pte2pa (k.word (entry_at table (suc level) va))) va k free role
                v below)
        | inr invalid ↦
            Walks-invalid level table va k free role v at invalid (walk_from-Walks level)
      ]

-- walk with allocation, of an address below MAXVA in a proper page table, does not panic. It returns the
-- entry that the hardware then finds for the address, or a null pointer only if no page is free; the page
-- table stays proper, with its tables where they were, and no address changes its entry's value.
pub walk_lem :
    (e pagetable va : ℕ) (k : Kmem) (free : List ℕ) (role : ℕ → Role)
    → 0 < e
    → va < maxva
    → IsTable e pagetable k free role
    → (r : Option ℕ) × (k' : Kmem) × (walk pagetable va true k ≡ some (r, k'))
      × (r ≡ find k'.word 2 pagetable va)
      × Walked e pagetable k role r k'
unfolding walk
walk_lem e pagetable va k free role pos small v =
    let inside : leb maxva va ≡ false = ground (arith, small) in
    let at : at_level (role pagetable) 2 ≡ true = rw (v.root_role) refl in
    let (r, k', runs, found, w) = walk_from-Walks e pagetable pos 2 pagetable va k free role v at in
    (r, k', rw inside runs, found, w)
