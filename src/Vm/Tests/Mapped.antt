-- ===== src/Vm/Tests/Mapped.antt =====
-- The theorems on page tables at a table that maps one user page.
use operating_systems_lab.Prelude.{
  none, pos, ℕ, zero, suc, ◌+◌, ◌*◌, ◌^◌, ◌≤◌, ◌<◌, ◌≡◌, refl, sym, ap, subst, ◌∙◌, ◌≢◌, ◌⊎◌, inl,
  inr, true, false, some, [], arith, ◌==◌, if◌then◌else◌, ==_iff, Bool-cases, true_ne_false, update,
}
use operating_systems_lab.Kalloc.{Kmem, pgsize}
use operating_systems_lab.Kalloc.Chain.{IsPage}
use operating_systems_lab.Vm.{
  user_entry, pte2pa, pte_v, leaf_pte, walkaddr, map_rounds, map_from, map_entry, mappages, walk,
}
use operating_systems_lab.Vm.Space.{uvmunmap}
use operating_systems_lab.Vm.Copy.{copyin}
use operating_systems_lab.Vm.Tables.{Role, other, root, middle, lowest, child, at_level, IsTable}
use operating_systems_lab.Vm.Unmap.{Unmapping, uvmunmap_lem}
use operating_systems_lab.Vm.Translate.{user_page, user_page_same, walkaddr-mappages}
use operating_systems_lab.Vm.Copy.Pages.{Copying, physical}
use operating_systems_lab.Proc.{Proc, running, null}
use operating_systems_lab.Syscall.{fetchaddr}
use operating_systems_lab.Syscall.Fetch.{fetchaddr_lem}
use operating_systems_lab.Vm.Copy.In.{copyin_lem}

-- The tables are the pages 0x80022, 0x80023 and 0x80024; the page 1 is at 0x80030, for the user.
abbrev one_page : Kmem
one_page = record {
  freelist = 0;
  word = λ a.
      if a == 0x80022000
      then 0x20008C01
      else if a == 0x80023000
      then 0x20009001
      else if a == 0x80024008
      then 0x2000C01F
      else 0;
}

abbrev places : ℕ → Role
places a =
    if a == 0x80022000
    then root
    else if a == 0x80023000
    then middle 0
    else if a == 0x80024000
    then lowest 0 0
    else other

tables : (a : ℕ) → places a ≢ other → (a ≡ 0x80022000) ⊎ ((a ≡ 0x80023000) ⊎ (a ≡ 0x80024000))
tables a ne = elim (Bool-cases (a == 0x80022000)) [
  | inl h ↦ inl ((==_iff a 0x80022000).0 h)
  | inr h₁ ↦ elim (Bool-cases (a == 0x80023000)) [
    | inl h ↦ inr (inl ((==_iff a 0x80023000).0 h))
    | inr h₂ ↦ elim (Bool-cases (a == 0x80024000)) [
      | inl h ↦ inr (inr ((==_iff a 0x80024000).0 h))
      | inr h₃ ↦ absurd (ne (rw (h₁, h₂, h₃) refl))
    ]
  ]
]

of_tables :
    (P : ℕ → Type 0) → P 0x80022000 → P 0x80023000 → P 0x80024000 → (a : ℕ) → places a ≢ other → P a
of_tables P p₁ p₂ p₃ a ne = elim (tables a ne) [
  | inl h ↦ subst P (sym h) p₁
  | inr (inl h) ↦ subst P (sym h) p₂
  | inr (inr h) ↦ subst P (sym h) p₃
]

level_place : (a level : ℕ) → at_level (places a) level ≡ true → places a ≢ other
level_place a level h e = true_ne_false (sym h ∙ rw e refl)

abbrev Leads : ℕ → Type 0
Leads a =
    (level i : ℕ)
    → at_level (places a) (suc level) ≡ true
    → i < 512
    → pte_v (one_page.word (a + 8 * i)) ≡ true
    → places (pte2pa (one_page.word (a + 8 * i))) ≡ child (places a) i

Leads-root : Leads 0x80022000
unfolding pte2pa
Leads-root level zero at lt valid = refl
Leads-root level (suc i) at lt valid =
    let nothing : one_page.word (0x80022000 + 8 * suc i) ≡ 0 = ground arith in
    absurd (true_ne_false (sym valid ∙ ap (λ (w : ℕ). pte_v w) nothing))

Leads-middle : Leads 0x80023000
unfolding pte2pa
Leads-middle level zero at lt valid = refl
Leads-middle level (suc i) at lt valid =
    let nothing : one_page.word (0x80023000 + 8 * suc i) ≡ 0 = ground arith in
    absurd (true_ne_false (sym valid ∙ ap (λ (w : ℕ). pte_v w) nothing))

Leads-lowest : Leads 0x80024000
Leads-lowest level i at lt valid = absurd (omega (arith, (==_iff (suc level) 0).0 at))

one_page-IsTable : IsTable 0x80020000 0x80022000 one_page [] places
one_page-IsTable = record {
  free_list = record { chained = refl; proper = tt };
  root_role = refl;
  pages =
      of_tables (λ (a : ℕ). IsPage 0x80020000 a × Unit {0})
        (record { aligned = refl; above = omega arith; below = omega arith }, tt)
        (record { aligned = refl; above = omega arith; below = omega arith }, tt)
        (record { aligned = refl; above = omega arith; below = omega arith }, tt);
  entries = λ a level i at.
      of_tables Leads Leads-root Leads-middle Leads-lowest a (level_place a (suc level) at) level i
        at;
}

-- The page 1 is the user's, and the page 2 is not there.
walkaddr_user : walkaddr 0x80022000 0x1004 one_page ≡ some (0x80030000, one_page)
unfolding walkaddr walk user_entry
walkaddr_user = refl

walkaddr_absent : walkaddr 0x80022000 0x2000 one_page ≡ some (0, one_page)
unfolding walkaddr walk user_entry
walkaddr_absent = refl

uvmunmap_lem_example :
    Unmapping 0x80020000 0x80022000 1 0x1000 one_page [] places
      (uvmunmap 0x80020000 0x80022000 0x1000 1 false one_page)
uvmunmap_lem_example =
    uvmunmap_lem 0x80020000 0x80022000 0x1000 1 one_page [] places refl (omega arith)
      one_page-IsTable

-- The page 2 is entered.
abbrev two_pages : Kmem
two_pages = record one_page { word = update one_page.word 0x80024010 (leaf_pte 0x80031000 30) }

first_round :
    (rounds : ℕ)
    → map_from (suc rounds) 0x80022000 0x2000 0x2000 0x80031000 30 one_page ≡ some (true, two_pages)
unfolding map_from walk map_entry
first_round rounds = refl

some_rounds : map_rounds ≡ suc (2 ^ 26)
unfolding map_rounds
some_rounds = refl

page_entered : mappages 0x80022000 0x2000 4096 0x80031000 30 one_page ≡ some (true, two_pages)
unfolding mappages
page_entered =
    subst
      (λ (n : ℕ).
        map_from n 0x80022000 0x2000 0x2000 0x80031000 30 one_page ≡ some (true, two_pages))
      (sym some_rounds) (first_round (2 ^ 26))

walkaddr-mappages_example : walkaddr 0x80022000 0x2123 two_pages ≡ some (0x80031000, two_pages)
walkaddr-mappages_example =
    walkaddr-mappages 0x80020000 0x80022000 0x2000 4096 0x80031000 30 0 0x2123 one_page two_pages []
      places (omega arith) (omega arith) (omega arith) refl one_page-IsTable (omega arith) refl refl
      (omega arith) page_entered (omega arith) (omega arith)

words_bounded : (a : ℕ) → one_page.word a < 2 ^ 64
words_bounded a = ground arith

buffer_away : (b : ℕ) → places b ≢ other → (b + pgsize ≤ 0x80040000) ⊎ (0x80040000 + 8 ≤ b)
buffer_away =
    of_tables (λ (b : ℕ). (b + pgsize ≤ 0x80040000) ⊎ (0x80040000 + 8 ≤ b)) (inl (omega arith))
      (inl (omega arith)) (inl (omega arith))

user_at : (i : ℕ) → i < 8 → user_page one_page.word 0x80022000 (0x1004 + i) ≡ 0x80030000
unfolding user_page
user_at i lt =
    user_page_same one_page.word 0x80022000 (0x1004 + i) 0x1004 (omega (arith, lt)) ∙ refl

bytes_apart :
    (i j : ℕ)
    → i < 8
    → j < 8
    → user_page one_page.word 0x80022000 (0x1004 + i) ≢ 0
    → physical one_page.word 0x80022000 (0x1004 + i) ≢ 0x80040000 + j
bytes_apart i j i_lt j_lt here same = omega (arith, user_at i i_lt, same)

copyin_lem_example :
    Copying 0x80022000 0x80040000 0x1004 8 one_page (copyin 0x80022000 0x80040000 0x1004 8 one_page)
copyin_lem_example =
    copyin_lem 0x80020000 0x80022000 0x80040000 0x1004 8 one_page [] places one_page-IsTable
      words_bounded buffer_away bytes_apart

-- A process of two pages.
abbrev two_page_proc : Proc
two_page_proc = record {
  state = running;
  chan = null;
  killed = false;
  xstate = pos 0;
  pid = 1;
  parent = none;
  kstack = 0;
  sz = 0x2000;
  pagetable = 0x80022000;
  trapframe = 0x80025000;
  context_ra = 0;
  context_sp = 0;
  ofile = [];
  cwd = 0;
  name = [];
}

fetchaddr_lem_example :
    ((0x2000 < 0x1004 + 8)
      × (fetchaddr two_page_proc 0x1004 0x80040000 one_page ≡ some (false, one_page)))
    ⊎ ((0x1004 + 8 ≤ 0x2000)
        × Copying 0x80022000 0x80040000 0x1004 8 one_page
            (fetchaddr two_page_proc 0x1004 0x80040000 one_page))
fetchaddr_lem_example =
    fetchaddr_lem 0x80020000 0x1004 0x80040000 two_page_proc one_page [] places (omega arith)
      one_page-IsTable words_bounded buffer_away bytes_apart
