-- ===== src/Proc/Info.antt =====
-- procinfo of kernel/proc.c, the system call that ps and pstree use.
use operating_systems_lab.Prelude.{
  ℕ, zero, suc, ◌+◌, ◌%◌, ◌^◌, ◌≤◌, ◌≡◌, ap, ◌∙◌, ◌⊎◌, inl, inr, Bool, true, false, Option, none,
  some, List, arith, ltb, ◌==◌, if◌then◌else◌, Bool-cases, ℤ, minus_one, pos,
}
use operating_systems_lab.Proc.{
  Procstate, unused, used, sleeping, runnable, running, zombie, Proc, nproc,
}

-- `states[p->state]` is not null: the table has no name for USED.
unfoldable pub is_named : Procstate → Bool
is_named unused = false
is_named used = false
is_named _ = true

-- The number of an enum procstate.
pub state_code : Procstate → ℕ
state_code unused = 0
state_code used = 1
state_code sleeping = 2
state_code runnable = 3
state_code running = 4
state_code zombie = 5

-- `struct uproc`; a member that the code leaves unset is `none`.
pub record Uproc : Type 0 where
  pub pid : ℕ
  pub state : ℕ
  pub size : ℕ
  pub ppid : Option ℕ
  pub name : Option (List ℕ)

-- The members of tempproc that the code sets, `pid` last.
abbrev pub entry : ℕ → Proc → Uproc
unfolding state_code
entry pid p = record {
  pid = pid;
  state = state_code p.state;
  size = p.sz % 2 ^ 32;
  ppid = none;
  name = none;
}

-- What tempproc holds at the call of copyout; `none` is a null parent whose pid is read.
pub tempproc : ℕ → (ℕ → Proc) → Proc → Option Uproc
tempproc counter t p =
    if counter == 0
    then some (entry p.pid p)
    else elim p.parent [ none ↦ none | some j ↦ some (entry (t j).pid p) ]

abbrev pub sizeof_uproc : ℕ
sizeof_uproc = 32

-- The length argument of the call of copyout: `sizeof(tempproc) < 0`.
abbrev pub copyout_len : ℕ
copyout_len = if ltb sizeof_uproc 0 then 1 else 0

-- How many entries from index i on have a state with a name.
unfoldable pub count_named : ℕ → ℕ → (ℕ → Proc) → ℕ
count_named zero i t = 0
count_named (suc rounds) i t =
    let rest = count_named rounds (i + 1) t in if is_named (t i).state then suc rest else rest

-- `U` is the user's memory; copyout stores `len` bytes of a struct at an address, or fails with none.
module _ {U : Type 0} (copyout : ℕ → Uproc → ℕ → U → Option U) (it_addr : ℕ) where
  -- The loop; `none` is a fault at a null parent, and (none, _) the return of -1.
  pub procinfo_from : ℕ → ℕ → (ℕ → Proc) → ℕ → U → Option (ℤ × U)
  procinfo_from zero i t counter u = some (pos counter, u)
  procinfo_from (suc rounds) i t counter u = elim (is_named (t i).state) [
    | false ↦ procinfo_from rounds (i + 1) t counter u
    | true ↦ elim (tempproc counter t (t i)) [
      | none ↦ none
      | some e ↦ elim (copyout it_addr e copyout_len u) [
        | none ↦ some (minus_one, u)
        | some u' ↦ procinfo_from rounds (i + 1) t (counter + 1) u'
      ]
    ]
  ]

  pub procinfo : (ℕ → Proc) → U → Option (ℤ × U)
  unfolding procinfo_from
  procinfo t u = procinfo_from nproc 0 t 0 u

-- Every process with a named state but that of entry 0 has a parent.
abbrev pub HasParents : (ℕ → Proc) → Type 0
HasParents t = (i : ℕ) → is_named (t i).state ≡ true → (i ≡ 0) ⊎ ((j : ℕ) × ((t i).parent ≡ some j))

tempproc-some :
    (i counter : ℕ) (t : ℕ → Proc)
    → (i ≡ 0) ⊎ ((j : ℕ) × ((t i).parent ≡ some j))
    → counter ≤ i
    → (e : Uproc) × (tempproc counter t (t i) ≡ some e)
unfolding tempproc entry
tempproc-some i counter t (inl first) le =
    let z : (counter == 0) ≡ true = ground arith in (entry (t i).pid (t i), rw z)
tempproc-some i counter t (inr (j, e)) le = elim (Bool-cases (counter == 0)) [
  | inl z ↦ (entry (t i).pid (t i), rw z)
  | inr nz ↦ (entry (t j).pid (t i), rw (nz, e))
]

module _ {U : Type 0} (copyout : ℕ → Uproc → ℕ → U → Option U) (it_addr : ℕ)
    (copyout_nothing : (a : ℕ) (e : Uproc) (u : U) → copyout a e 0 u ≡ some u) where
  procinfo_from_lem :
      (rounds i counter : ℕ) (t : ℕ → Proc) (u : U)
      → HasParents t
      → counter ≤ i
      → procinfo_from copyout it_addr rounds i t counter u
        ≡ some (pos (counter + count_named rounds i t), u)
  unfolding procinfo_from count_named
  procinfo_from_lem zero i counter t u h le = ground arith
  procinfo_from_lem (suc rounds) i counter t u h le = elim (Bool-cases (is_named (t i).state)) [
    | inr no_name ↦
        rw (no_name, procinfo_from) (procinfo_from_lem rounds (i + 1) counter t u h (omega arith))
    | inl named ↦
        let e = tempproc-some i counter t (h i named) le in
        rw (named, e.1, copyout_nothing it_addr e.0 u, procinfo_from)
          (procinfo_from_lem rounds (i + 1) (counter + 1) t u h (omega arith)
            ∙ ap (λ (n : ℕ). some (pos n, u)) (omega arith))
  ]

  -- procinfo returns the number of processes whose state has a name, and leaves the user's memory as it
  -- was: copyout is called with length `sizeof(tempproc) < 0`, which is 0, where it copies nothing.
  -- The processes but entry 0 must have parents, whose pid it reads.
  pub procinfo_writes_nothing :
      (t : ℕ → Proc) (u : U)
      → HasParents t
      → procinfo copyout it_addr t u ≡ some (pos (count_named nproc 0 t), u)
  unfolding procinfo
  procinfo_writes_nothing t u h =
      procinfo_from_lem nproc 0 0 t u h (omega arith)
      ∙ ap (λ (n : ℕ). some (pos n, u)) (omega arith)
