-- ===== src/Vm/Copy/Pages.antt =====
-- What copyin of kernel/vm.c is to do, and what the rounds of its loop rely on.
use operating_systems_lab.Prelude.{
  ℕ, zero, suc, ◌+◌, ◌-◌, ◌*◌, ◌/◌, ◌%◌, ◌≤◌, ◌<◌, ◌≡◌, refl, sym, ap, ◌∙◌, ◌≢◌, inl, inr, Bool,
  true, false, ◌&&◌, Option, some, List, arith, ltb, leb, if◌then◌else◌, Bool-cases,
}
use operating_systems_lab.Kalloc.{Kmem, pgsize}
use operating_systems_lab.Vm.{px, pte_v, pte2pa, entry_at, pg_round_down}
use operating_systems_lab.Vm.Tables.{
  Role, other, at_level, pte_of, pte_of-valid, pte_of-invalid, IsTable, px_lt, child_level,
  level_ne_other,
}
use operating_systems_lab.Vm.Translate.{user_page}
use operating_systems_lab.Vm.Bytes.{byte_at}
use operating_systems_lab.Vm.Copy.{chunk}

-- The physical address of a user address.
abbrev pub physical : (ℕ → ℕ) → ℕ → ℕ → ℕ
physical word pagetable va = user_page word pagetable va + va % pgsize

-- The bytes of memory, once n user bytes are copied to dst, each from its own physical address.
abbrev pub with_copy : (ℕ → ℕ) → ℕ → ℕ → ℕ → ℕ → ℕ → ℕ
with_copy word pagetable dst srcva n p =
    if leb dst p && ltb p (dst + n)
    then byte_at word (physical word pagetable (srcva + (p - dst)))
    else byte_at word p

-- How copyin of len bytes ends.
pub data Copying (pagetable dst srcva len : ℕ) (k : Kmem) : Option (Bool × Kmem) → Type 0 where
  complete :
      (k' : Kmem)
      → ((i : ℕ) → i < len → user_page k.word pagetable (srcva + i) ≢ 0)
      → ((p : ℕ) → byte_at k'.word p ≡ with_copy k.word pagetable dst srcva len p)
      → Copying pagetable dst srcva len k (some (true, k'))
  stopped :
      (n : ℕ) (k' : Kmem)
      → n < len
      → user_page k.word pagetable (srcva + n) ≡ 0
      → ((i : ℕ) → i < n → user_page k.word pagetable (srcva + i) ≢ 0)
      → ((p : ℕ) → byte_at k'.word p ≡ with_copy k.word pagetable dst srcva n p)
      → Copying pagetable dst srcva len k (some (false, k'))

pub chunk_some : (va len : ℕ) → 0 < len → 0 < chunk va len
unfolding chunk
chunk_some va len h = ground arith

pub chunk_le : (va len : ℕ) → chunk va len ≤ len
unfolding chunk
chunk_le va len = ground arith

pub chunk_page : (va len i : ℕ) → i < chunk va len → (va + i) / pgsize ≡ va / pgsize
unfolding chunk
chunk_page va len i h = ground arith

pub chunk_next : (va len : ℕ) → chunk va len < len → pg_round_down va + pgsize ≡ va + chunk va len
unfolding chunk
chunk_next va len h = ground arith

-- Two memories with the same words in the tables.
abbrev pub Agrees : Kmem → (ℕ → Role) → Kmem → Type 0
Agrees k role c = (b j : ℕ) → role b ≢ other → j < 512 → c.word (b + 8 * j) ≡ k.word (b + 8 * j)

module _ (e pagetable : ℕ) (k : Kmem) (free : List ℕ) (role : ℕ → Role)
    (v : IsTable e pagetable k free role) where
  pte_of-Agrees :
      (c : Kmem)
      → Agrees k role c
      → (level b va : ℕ) → at_level (role b) level ≡ true
      → pte_of c.word level b va ≡ pte_of k.word level b va
  unfolding pte_of
  pte_of-Agrees c same zero b va at = same b (px 0 va) (level_ne_other 0 (role b) at) (px_lt 0 va)
  pte_of-Agrees c same (suc level) b va at =
      let here =
        same b (px (suc level) va) (level_ne_other (suc level) (role b) at)
          (px_lt (suc level) va) in
      elim (Bool-cases (pte_v (k.word (entry_at b (suc level) va)))) [
        | inl valid ↦
            let down = v.entries b level (px (suc level) va) at (px_lt (suc level) va) valid in
            let below =
              ap (λ (r : Role). at_level r level) down
              ∙ child_level level (role b) (px (suc level) va) at in
            pte_of-valid c.word level b va (ap (λ (w : ℕ). pte_v w) here ∙ valid)
            ∙ ap (λ (w : ℕ). pte_of c.word level (pte2pa w) va) here
            ∙ pte_of-Agrees c same level (pte2pa (k.word (entry_at b (suc level) va))) va below
            ∙ sym (pte_of-valid k.word level b va valid)
        | inr invalid ↦
            pte_of-invalid c.word level b va (ap (λ (w : ℕ). pte_v w) here ∙ invalid)
            ∙ sym (pte_of-invalid k.word level b va invalid)
      ]

  pub user_page-Agrees :
      (c : Kmem) (va : ℕ)
      → Agrees k role c
      → user_page c.word pagetable va ≡ user_page k.word pagetable va
  unfolding user_page
  user_page-Agrees c va same =
      let root_level : at_level (role pagetable) 2 ≡ true = rw (v.root_role) refl in
      rw (pte_of-Agrees c same 2 pagetable va root_level) refl
