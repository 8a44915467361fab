-- ===== src/Fs/Directory/Lookup.antt =====
-- dirlookup of kernel/fs.c finds the first entry of the name.
use operating_systems_lab.Prelude.{
  ℕ, zero, suc, ◌+◌, ◌-◌, ◌*◌, ◌/◌, ◌%◌, ◌^◌, ◌≤◌, ◌<◌, min, ◌≡◌, refl, sym, ap, subst, ◌∙◌, inl,
  inr, Bool, true, false, Option, none, some, List, arith, ltb, ◌==◌, if◌then◌else◌, ==_iff,
  Bool-cases, drop,
}
use operating_systems_lab.Fs.{Fs, M, return, bind_some, ◌>>=◌}
use operating_systems_lab.Fs.Inodes.{iget}
use operating_systems_lab.Fs.Content.{readi, to_kernel}
use operating_systems_lab.Fs.Content.Blocks.{Mapped, file_bytes}
use operating_systems_lab.Fs.Content.Read.{readi_lem, bytes_at-put_bytes}
use operating_systems_lab.Fs.Directory.{
  t_dir, namecmp, is_zero, de_inum, read_dirent, dirlookup_from, dirlookup,
}

-- A directory whose blocks are all there, with a whole number of entries.
pub record IsDirectory (i : ℕ) (s : Fs) : Type 0 where
  pub mapped : Mapped i s
  pub is_dir : (s.inodes i).type ≡ t_dir
  pub whole : (s.inodes i).size % 16 ≡ 0

-- The entry at an offset, and whether it is one of the name.
abbrev pub dirent_at : Fs → ℕ → ℕ → List ℕ
dirent_at s i off = file_bytes s i 16 off

abbrev pub names : Fs → ℕ → List ℕ → ℕ → Bool
names s i name off =
    if de_inum (dirent_at s i off) == 0
    then false
    else is_zero (namecmp name (drop 2 (dirent_at s i off)))

-- The inode of the entry at an offset.
abbrev pub entry_inode : Fs → ℕ → ℕ → M (Option (ℕ × ℕ))
entry_inode s i off = do
  ip ← iget (s.inodes i).dev (de_inum (dirent_at s i off))
  return (some (ip, off))

-- How dirlookup ends, when it has come to the offset lo.
pub data Lookup (i : ℕ) (name : List ℕ) (s : Fs) (lo : ℕ)
    : Option (Option (ℕ × ℕ) × Fs) → Type 0 where
  missing :
      ((off : ℕ) → lo ≤ off → off < (s.inodes i).size → off % 16 ≡ 0 → names s i name off ≡ false)
      → Lookup i name s lo (some (none, s))
  found :
      (off : ℕ)
      → lo ≤ off
      → off < (s.inodes i).size
      → off % 16 ≡ 0
      → names s i name off ≡ true
      → ((q : ℕ) → lo ≤ q → q < off → q % 16 ≡ 0 → names s i name q ≡ false)
      → Lookup i name s lo (entry_inode s i off s)

module _ (i : ℕ) (name : List ℕ) (s : Fs) (v : IsDirectory i s) where
  size_small : (s.inodes i).size < 2 ^ 20
  size_small = omega (arith, v.mapped.bounded)

  read_dirent_lem :
      (off : ℕ)
      → off % 16 ≡ 0
      → off < (s.inodes i).size
      → read_dirent i off s ≡ some (dirent_at s i off, s)
  unfolding read_dirent
  read_dirent_lem off m lt =
      let room : min 16 ((s.inodes i).size - off) ≡ 16 = omega (arith, v.whole) in
      bind_some (readi to_kernel i 0 off 16 (λ a. 0)) _ s
        (readi_lem i s v.mapped 0 off 16 (λ a. 0) (omega (arith, size_small)))
      ∙ rw room
          (ap (λ (de : List ℕ). some (de, s)) (bytes_at-put_bytes i s v.mapped 16 off 0 (λ a. 0)))

  -- An entry in front of another name.
  Lookup-skip :
      (lo : ℕ) (r : Option (Option (ℕ × ℕ) × Fs))
      → lo % 16 ≡ 0
      → names s i name lo ≡ false
      → Lookup i name s (lo + 16) r
      → Lookup i name s lo r
  Lookup-skip lo r m miss (missing all) = missing (λ off a b c. elim (Bool-cases (off == lo)) [
    | inl e ↦ ap (names s i name) ((==_iff off lo).0 e) ∙ miss
    | inr ne ↦ all off (ground arith) b c
  ])
  Lookup-skip lo r m miss (found off a b c hit first) =
      found off (omega (arith, a)) b c hit (λ q d e f. elim (Bool-cases (q == lo)) [
        | inl h ↦ ap (names s i name) ((==_iff q lo).0 h) ∙ miss
        | inr ne ↦ first q (ground arith) e f
      ])

  names_unused : (off : ℕ) → (de_inum (dirent_at s i off) == 0) ≡ true → names s i name off ≡ false
  names_unused off h = rw h refl

  names_test :
      (off : ℕ) (b : Bool)
      → (de_inum (dirent_at s i off) == 0) ≡ false
      → is_zero (namecmp name (drop 2 (dirent_at s i off))) ≡ b
      → names s i name off ≡ b
  names_test off b h e = rw h e

  dirlookup_from-Lookup :
      (rounds off : ℕ)
      → off % 16 ≡ 0
      → (s.inodes i).size < off + 16 * rounds
      → Lookup i name s off (dirlookup_from rounds i name off s)
  unfolding dirlookup_from
  dirlookup_from-Lookup zero off m fuel = missing (λ q a b c. absurd (omega arith))
  dirlookup_from-Lookup (suc rounds) off m fuel = elim (Bool-cases (ltb off (s.inodes i).size)) [
    | inr past ↦ rw (past, dirlookup_from) (missing (λ q a b c. absurd (ground arith)))
    | inl more ↦
        let lt : off < (s.inodes i).size = ground arith in
        let next = dirlookup_from-Lookup rounds (off + 16) (omega arith) (omega arith) in
        rw (more, dirlookup_from)
          (subst (λ (r : Option (Option (ℕ × ℕ) × Fs)). Lookup i name s off r)
            (sym (bind_some (read_dirent i off) _ s (read_dirent_lem off m lt)))
            (elim (Bool-cases (de_inum (dirent_at s i off) == 0)) [
              | inl unused_entry ↦
                  rw unused_entry (Lookup-skip off _ m (names_unused off unused_entry) next)
              | inr in_use ↦
                  elim (Bool-cases (is_zero (namecmp name (drop 2 (dirent_at s i off))))) [
                    | inl hit ↦
                        rw (in_use, hit)
                          (found off (omega arith) lt m (names_test off true in_use hit)
                            (λ q a b c. absurd (omega arith)))
                    | inr miss ↦
                        rw (in_use, miss)
                          (Lookup-skip off _ m (names_test off false in_use miss) next)
                  ]
            ]))
  ]

  -- dirlookup in a directory whose blocks are all allocated and that has a whole number of entries: where
  -- no entry that is in use has the name by namecmp, it returns 0 and changes nothing; else it returns
  -- what iget returns for the inode of the first such entry, with the entry's offset.
  pub dirlookup_lem : Lookup i name s 0 (dirlookup i name s)
  unfolding dirlookup
  dirlookup_lem =
      let dir : ((s.inodes i).type == t_dir) ≡ true = ground (arith, v.is_dir) in
      rw dir (dirlookup_from-Lookup ((s.inodes i).size / 16 + 1) 0 (omega arith) (omega arith))
