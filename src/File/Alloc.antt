-- ===== src/File/Alloc.antt =====
-- filealloc, filedup and fileclose of kernel/file.c: the reference counts of the file table.
use operating_systems_lab.Prelude.{
  ℕ, zero, suc, ◌+◌, ◌-◌, ◌≤◌, ◌<◌, ◌≡◌, refl, sym, ap, subst, ◌∙◌, fun_ext, inl, inr, true, false,
  Option, none, some, arith, ltb, ◌==◌, ==_iff, Bool-cases, update, update_self,
}
use operating_systems_lab.File.{
  File, Table, put_file, FileCalls, nfile, alloc_from, filealloc, filedup, fileclose,
}

update_back :
    (files : ℕ → File) (f : ℕ) (v u : File) → u ≡ files f → update (update files f v) f u ≡ files
update_back files f v u h = fun_ext λ g. elim (Bool-cases (f == g)) [
  | inl same ↦ rw same (h ∙ ap files ((==_iff f g).0 same))
  | inr differs ↦ rw differs refl
]

module _ (sys : FileCalls) where
  open sys use {World}

  -- How filealloc ends, with the files before `from` seen.
  pub data Allocated (t : Table World) (from : ℕ) : Option (Option ℕ × Table World) → Type 0 where
    first_free :
        (f : ℕ)
        → from ≤ f
        → f < nfile
        → (t.files f).ref ≡ 0
        → ((g : ℕ) → from ≤ g → g < f → 0 < (t.files g).ref)
        → Allocated t from (some (some f, put_file f (record (t.files f) { ref = 1 }) t))
    no_free :
        ((g : ℕ) → from ≤ g → g < nfile → 0 < (t.files g).ref) → Allocated t from (some (none, t))

  Allocated-next :
      (t : Table World) (i : ℕ) (o : Option (Option ℕ × Table World))
      → 0 < (t.files i).ref
      → Allocated t (suc i) o
      → Allocated t i o
  Allocated-next t i o used (first_free f from below free before) =
      first_free f (omega arith) below free λ g i_le lt. elim (Bool-cases (g == i)) [
        | inl here ↦ subst (λ (j : ℕ). 0 < (t.files j).ref) (sym ((==_iff g i).0 here)) used
        | inr elsewhere ↦ before g (ground (arith, elsewhere, i_le)) lt
      ]
  Allocated-next t i o used (no_free before) = no_free λ g i_le lt. elim (Bool-cases (g == i)) [
    | inl here ↦ subst (λ (j : ℕ). 0 < (t.files j).ref) (sym ((==_iff g i).0 here)) used
    | inr elsewhere ↦ before g (ground (arith, elsewhere, i_le)) lt
  ]

  alloc_from-Allocated :
      (n : ℕ) (t : Table World) → n ≤ nfile → Allocated t (nfile - n) (alloc_from sys n t)
  unfolding alloc_from
  alloc_from-Allocated zero t le = no_free λ g from below. absurd (omega arith)
  alloc_from-Allocated (suc n) t le = elim (Bool-cases ((t.files (nfile - suc n)).ref == 0)) [
    | inl free ↦
        rw (free, alloc_from)
          (first_free (nfile - suc n) (omega arith) (omega arith)
            ((==_iff (t.files (nfile - suc n)).ref 0).0 free) (λ g from lt. absurd (omega arith)))
    | inr used ↦
        let next : nfile - n ≡ suc (nfile - suc n) = omega arith in
        rw (used, alloc_from)
          (Allocated-next t (nfile - suc n) _ (ground (arith, used)) (
            subst (λ (i : ℕ). Allocated t i (alloc_from sys n t)) next
              (alloc_from-Allocated n t (omega arith))))
  ]

  -- filealloc always returns: the first file of the table that has no reference, with one reference from then on
  -- and nothing else changed, or a null pointer, with nothing changed, exactly where every file has one.
  pub filealloc_lem : (t : Table World) → Allocated t 0 (filealloc sys t)
  unfolding filealloc
  filealloc_lem t = alloc_from-Allocated nfile t (omega arith)

  -- A reference that filedup adds to a file in use is what fileclose then takes away, without closing the file:
  -- the file table and the rest of the kernel are as before.
  pub fileclose-filedup :
      (f : ℕ) (t : Table World)
      → 0 < (t.files f).ref
      → (t' : Table World) × (filedup sys f t ≡ some (f, t')) × (fileclose sys f t' ≡ some (tt, t))
  unfolding filedup fileclose
  fileclose-filedup f t used =
      let v = record (t.files f) { ref = (t.files f).ref + 1 } in
      let t' = put_file f v t in
      let here : t'.files f ≡ v = update_self t.files f v in
      let in_use : ltb (t.files f).ref 1 ≡ false = ground (arith, used) in
      let count : (t'.files f).ref ≡ (t.files f).ref + 1 = ap (λ (x : File). x.ref) here in
      let still_used : ltb (t'.files f).ref 1 ≡ false = ground (arith, used, count) in
      let not_last : ltb 1 (t'.files f).ref ≡ true = ground (arith, used, count) in
      let back : record (t'.files f) { ref = (t'.files f).ref - 1 } ≡ t.files f =
        ap (λ (x : File). record x { ref = x.ref - 1 }) here
        ∙ ap (λ (n : ℕ). record (t.files f) { ref = n }) (omega arith) in
      (
        t',
        rw (in_use, filedup) refl,
        rw (still_used, not_last, fileclose)
            (ap (λ (files : ℕ → File). some (tt, record t { files = files }))
              (update_back t.files f v _ back)),
      )
