-- ===== src/Fs/Path.antt =====
-- Paths: skipelem, namex, namei and nameiparent of kernel/fs.c. A path is the list of its characters up
-- to the NUL.
pub mod Elements
use operating_systems_lab.Prelude.{
  ℕ, zero, suc, ◌+◌, Bool, true, false, not, ◌&&◌, Option, none, some, List, [], ◌∷◌, ◌==◌,
  if◌then◌else◌, length, take,
}
use operating_systems_lab.Fs.{M, return, panic, ◌>>=◌, ◌>>◌, get_inode}
use operating_systems_lab.Fs.Inodes.{iget, idup, ilock, iunlock}
use operating_systems_lab.Fs.Content.{iput, iunlockput}
use operating_systems_lab.Fs.Directory.{dirsiz, t_dir, dirlookup}

abbrev pub slash : ℕ
slash = b'/'

-- while(*path == '/') path++;
unfoldable pub skip_slashes : List ℕ → List ℕ
skip_slashes [] = []
skip_slashes (c ∷ cs) = if c == slash then skip_slashes cs else c ∷ cs

-- while(*path != '/' && *path != 0) path++; what the loop passes, and what it stops at.
unfoldable pub span_elem : List ℕ → List ℕ × List ℕ
span_elem [] = ([], [])
span_elem (c ∷ cs) = if c == slash then ([], c ∷ cs) else (c ∷ (span_elem cs).0, (span_elem cs).1)

-- The name and the path behind it. A name of DIRSIZ characters or more is cut, and has no NUL.
unfoldable pub skipelem : List ℕ → Option (List ℕ × List ℕ)
unfolding skip_slashes span_elem
skipelem path = elim (skip_slashes path) [
  | [] ↦ none
  | c ∷ cs ↦ let r = span_elem (c ∷ cs) in some (take dirsiz r.0, skip_slashes r.1)
]

abbrev pub is_empty : List ℕ → Bool
is_empty [] = true
is_empty (c ∷ cs) = false

-- The loop of namex; each round takes characters off the path. The name is the last element copied.
unfoldable pub namex_from : ℕ → List ℕ → Bool → ℕ → List ℕ → M (Option ℕ × List ℕ)
unfolding skipelem iunlockput dirlookup ilock iunlock
namex_from zero path parent ip name = panic
namex_from (suc rounds) path parent ip name = elim (skipelem path) [
  | none ↦ if parent then (do iput ip; return (none, name)) else return (some ip, name)
  | some (elem, rest) ↦ do
    ilock ip
    dp ← get_inode ip
    if not (dp.type == t_dir)
        then (do iunlockput ip; return (none, elem))
        else if parent && is_empty rest
        then (do iunlock ip; return (some ip, elem))
        else (do
          next ← dirlookup ip elem
          iunlockput ip
          elim next [
            | none ↦ return (none, elem)
            | some (child, off) ↦ namex_from rounds rest parent child elem
          ])
]

abbrev pub is_absolute : List ℕ → Bool
is_absolute [] = false
is_absolute (c ∷ cs) = c == slash

-- `cwd` is the inode of the process's current directory; ROOTDEV and ROOTINO are 1.
unfoldable pub namex : ℕ → List ℕ → Bool → List ℕ → M (Option ℕ × List ℕ)
unfolding namex_from
namex cwd path parent name = do
  ip ← (if is_absolute path then iget 1 1 else idup cwd)
  namex_from (length path + 1) path parent ip name

unfoldable pub namei : ℕ → List ℕ → M (Option ℕ × List ℕ)
unfolding namex
namei cwd path = namex cwd path false []

unfoldable pub nameiparent : ℕ → List ℕ → List ℕ → M (Option ℕ × List ℕ)
unfolding namex
nameiparent cwd path name = namex cwd path true name
