-- ===== src/Vm/Tables.antt =====
-- What a page table of kernel/vm.c looks like in memory: every table page has one place in the tree.
use operating_systems_lab.Prelude.{
  ℕ, zero, suc, ◌+◌, ◌*◌, ◌/◌, ◌%◌, ◌^◌, ◌<◌, ◌≡◌, refl, sym, ap, ◌∙◌, ◌≢◌, Bool, true, false,
  Option, none, some, List, [], ◌∷◌, arith, ◌==◌, update, true_ne_false,
}
use operating_systems_lab.Kalloc.{Kmem, fill_page, pgsize}
use operating_systems_lab.Kalloc.Chain.{
  IsPage, Fresh, Pages, FreeList, Chain-update, Chain-fill_page,
}
use operating_systems_lab.Vm.{px, pa2pte, pte2pa, pte_v, entry_at}

-- The place of a page: no table, the root, or below it by the indices taken.
pub data Role : Type 0 where
  other root : Role
  middle : ℕ → Role
  lowest : ℕ → ℕ → Role

abbrev pub child : Role → ℕ → Role
child other i = other
child root i = middle i
child (middle i) j = lowest i j
child (lowest i j) k = other

-- A table of this level has this role.
abbrev pub at_level : Role → ℕ → Bool
at_level other level = false
at_level root level = level == 2
at_level (middle i) level = level == 1
at_level (lowest i j) level = level == 0

-- The entry of the lowest table for an address, as the hardware finds it, from a table of a level on.
unfoldable pub find : (ℕ → ℕ) → ℕ → ℕ → ℕ → Option ℕ
unfolding px pte2pa
find word zero table va = some (entry_at table 0 va)
find word (suc level) table va = elim (pte_v (word (entry_at table (suc level) va))) [
  | true ↦ find word level (pte2pa (word (entry_at table (suc level) va))) va
  | false ↦ none
]

-- The value of that entry, 0 where there is no table for it.
abbrev pub value_at : (ℕ → ℕ) → Option ℕ → ℕ
value_at word none = 0
value_at word (some a) = word a

unfoldable pub pte_of : (ℕ → ℕ) → ℕ → ℕ → ℕ → ℕ
unfolding find
pte_of word level table va = value_at word (find word level table va)

module _ (word : ℕ → ℕ) (level table va : ℕ) where
  pub find-valid :
      pte_v (word (entry_at table (suc level) va)) ≡ true
      → find word (suc level) table va
        ≡ find word level (pte2pa (word (entry_at table (suc level) va))) va
  unfolding find
  find-valid h = rw (h, find) refl

  pub find-invalid :
      pte_v (word (entry_at table (suc level) va)) ≡ false → find word (suc level) table va ≡ none
  unfolding find
  find-invalid h = rw (h, find) refl

  pub pte_of-valid :
      pte_v (word (entry_at table (suc level) va)) ≡ true
      → pte_of word (suc level) table va
        ≡ pte_of word level (pte2pa (word (entry_at table (suc level) va))) va
  unfolding pte_of
  pte_of-valid h = rw (h, find) refl

  pub pte_of-invalid :
      pte_v (word (entry_at table (suc level) va)) ≡ false → pte_of word (suc level) table va ≡ 0
  unfolding pte_of
  pte_of-invalid h = rw (h, find) refl

pub pte_of-found :
    (word : ℕ → ℕ) (level table va q : ℕ)
    → find word level table va ≡ some q
    → pte_of word level table va ≡ word q
unfolding pte_of
pte_of-found word level table va q h = ap (value_at word) h

-- The tables of a page table with this root: allocated pages, each with one role, to which the valid
-- entries above it lead. `free` is the free list.
pub record IsTable (end_addr pagetable : ℕ) (k : Kmem) (free : List ℕ) (role : ℕ → Role)
    : Type 0 where
  pub free_list : FreeList end_addr k free
  pub root_role : role pagetable ≡ root
  pub pages : (a : ℕ) → role a ≢ other → IsPage end_addr a × Fresh a free
  pub entries :
      (a level i : ℕ)
      → at_level (role a) (suc level) ≡ true
      → i < 512
      → pte_v (k.word (a + 8 * i)) ≡ true
      → role (pte2pa (k.word (a + 8 * i))) ≡ child (role a) i

pub px_lt : (level va : ℕ) → px level va < 512
unfolding px
px_lt level va = omega arith

-- An entry's address tells its table and its index.
pub entry_inj :
    (a b i j : ℕ)
    → a % pgsize ≡ 0
    → b % pgsize ≡ 0
    → i < 512
    → j < 512
    → a + 8 * i ≡ b + 8 * j
    → (a ≡ b) × (i ≡ j)
entry_inj a b i j aa ab hi hj e = omega arith

-- The entry that leads to a page leads back to it.
pub pte2pa-pa2pte : (e pa : ℕ) → IsPage e pa → pte2pa (pa2pte pa + 1) ≡ pa
unfolding pte2pa pa2pte
pte2pa-pa2pte e pa h = omega (arith, h.aligned, h.below)

pub pa2pte-valid : (pa : ℕ) → pte_v (pa2pte pa + 1) ≡ true
unfolding pa2pte
pa2pte-valid pa = let odd : (pa / 2 ^ 12 * 2 ^ 10 + 1) % 2 ≡ 1 = omega arith in ground (arith, odd)

pub child_level :
    (level : ℕ) (r : Role) (i : ℕ)
    → at_level r (suc level) ≡ true
    → at_level (child r i) level ≡ true
child_level level other i h = absurd (true_ne_false (sym h))
child_level level root i h = ground (arith, h)
child_level level (middle j) i h = ground (arith, h)
child_level level (lowest j l) i h = ground (arith, h)

pub level_ne_other : (level : ℕ) (r : Role) → at_level r level ≡ true → r ≢ other
level_ne_other level r h e = true_ne_false (sym h ∙ ap (λ (q : Role). at_level q level) e)

pub level_one : (a b : ℕ) (r : Role) → at_level r a ≡ true → at_level r b ≡ true → a ≡ b
level_one a b other h g = absurd (true_ne_false (sym h))
level_one a b root h g = ground (arith, h, g)
level_one a b (middle i) h g = ground (arith, h, g)
level_one a b (lowest i j) h g = ground (arith, h, g)

-- Words beside the free pages.
Fresh-word :
    (e a i : ℕ) (xs : List ℕ)
    → a % pgsize ≡ 0
    → i < 512
    → Fresh a xs
    → Pages e xs
    → Fresh (a + 8 * i) xs
Fresh-word e a i [] aa lt f p = tt
Fresh-word e a i (x ∷ xs) aa lt f p =
    (λ same. f.0 (omega (arith, p.0.aligned, same, aa)), Fresh-word e a i xs aa lt f.1 p.2)

-- A write to a word of a page that is not free keeps the free list.
pub FreeList-store :
    (e a i v : ℕ) (k : Kmem) (xs : List ℕ)
    → IsPage e a
    → Fresh a xs
    → i < 512
    → FreeList e k xs
    → FreeList e (record k { word = update k.word (a + 8 * i) v }) xs
FreeList-store e a i v k xs p f lt h = record {
  chained =
      Chain-update e k.word (a + 8 * i) v k.freelist xs
        (Fresh-word e a i xs p.aligned lt f h.proper) h.proper h.chained;
  proper = h.proper;
}

-- So does the clearing of such a page.
pub FreeList-clear :
    (e a : ℕ) (k : Kmem) (xs : List ℕ)
    → IsPage e a
    → Fresh a xs
    → FreeList e k xs
    → FreeList e (record k { word = fill_page k.word a 0 }) xs
FreeList-clear e a k xs p f h = record {
  chained = Chain-fill_page e k.word a 0 k.freelist xs p.aligned f h.proper h.chained;
  proper = h.proper;
}
