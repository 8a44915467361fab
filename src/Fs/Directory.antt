-- ===== src/Fs/Directory.antt =====
-- Directories: namecmp, dirlookup and dirlink of kernel/fs.c. `struct dirent` is 16 bytes, the inode
-- number in two and 14 for the name; a name is the list of its characters.
pub mod Names
pub mod Lookup
use operating_systems_lab.Prelude.{
  ℕ, zero, suc, ◌+◌, ◌-◌, ◌*◌, ◌/◌, ◌%◌, Bool, true, false, Option, none, some, List, [], ◌∷◌, ◌++◌,
  ltb, ◌==◌, if◌then◌else◌, get_or, take, drop, replicate, ℤ, minus_one, pos, negsuc,
}
use operating_systems_lab.Strings.{Mem, strncmp}
use operating_systems_lab.Fs.{M, return, panic, ◌>>=◌, ◌>>◌, get_inode}
use operating_systems_lab.Fs.Inodes.{iget}
use operating_systems_lab.Fs.Content.{bytes_at, readi, writei, iput, to_kernel, from_kernel}

abbrev pub dirsiz : ℕ
dirsiz = 14

abbrev pub t_dir : ℕ
t_dir = 1

-- Two arrays of DIRSIZ characters side by side.
abbrev pub two_names : List ℕ → List ℕ → Mem
two_names s t a = if ltb a dirsiz then get_or s a 0 else get_or t (a - dirsiz) 0

unfoldable pub namecmp : List ℕ → List ℕ → ℤ
namecmp s t = strncmp 0 dirsiz dirsiz (two_names s t)

abbrev pub de_inum : List ℕ → ℕ
de_inum de = get_or de 0 0 + 256 * get_or de 1 0

abbrev pub is_16 : ℤ → Bool
is_16 (pos n) = n == 16
is_16 (negsuc n) = false

abbrev pub is_zero : ℤ → Bool
is_zero (pos n) = n == 0
is_zero (negsuc n) = false

-- readi of one dirent into de, at address 0; a short read is a panic.
unfoldable pub read_dirent : ℕ → ℕ → M (List ℕ)
unfolding readi bytes_at
read_dirent i off = do
  r ← readi to_kernel i 0 off 16 (λ a. 0)
  if is_16 r.0 then return (bytes_at 16 0 r.1) else panic

-- The loop of dirlookup, `rounds` at least the entries left: the inode and its offset.
unfoldable pub dirlookup_from : ℕ → ℕ → List ℕ → ℕ → M (Option (ℕ × ℕ))
unfolding read_dirent namecmp iget
dirlookup_from zero i name off s = some (none, s)
dirlookup_from (suc rounds) i name off s = elim (ltb off (s.inodes i).size) [
  | false ↦ some (none, s)
  | true ↦
      (do
        de ← read_dirent i off
        if de_inum de == 0
            then dirlookup_from rounds i name (off + 16)
            else if is_zero (namecmp name (drop 2 de))
            then (do dp ← get_inode i; ip ← iget dp.dev (de_inum de); return (some (ip, off)))
            else dirlookup_from rounds i name (off + 16))
        s
]

unfoldable pub dirlookup : ℕ → List ℕ → M (Option (ℕ × ℕ))
unfolding dirlookup_from
dirlookup i name = do
  dp ← get_inode i
  if dp.type == t_dir then dirlookup_from (dp.size / 16 + 1) i name 0 else panic

-- The second loop of dirlink: the offset of the first empty entry, or the end.
unfoldable pub empty_from : ℕ → ℕ → ℕ → M ℕ
unfolding read_dirent
empty_from zero i off s = some (off, s)
empty_from (suc rounds) i off s = elim (ltb off (s.inodes i).size) [
  | false ↦ some (off, s)
  | true ↦
      (do
        de ← read_dirent i off
        if de_inum de == 0 then return off else empty_from rounds i (off + 16))
        s
]

-- The dirent that strncpy and the assignment of inum make.
unfoldable pub dirent : List ℕ → ℕ → List ℕ
dirent name inum = (inum % 256) ∷ (inum / 256 % 256) ∷ take dirsiz (name ++ replicate dirsiz 0)

unfoldable pub dirlink : ℕ → List ℕ → ℕ → M ℤ
unfolding dirlookup iput empty_from dirent writei
dirlink i name inum = do
  found ← dirlookup i name
  elim found [
    | some (ip, off) ↦ do iput ip; return minus_one
    | none ↦ do
      dp ← get_inode i
      off ← empty_from (dp.size / 16 + 1) i 0
      r ← writei (from_kernel (dirent name inum)) i 0 off 16
      if is_16 r then return (pos 0) else panic
  ]
