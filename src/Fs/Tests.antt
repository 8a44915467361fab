-- ===== src/Fs/Tests.antt =====
-- The theorems on the file system at concrete inputs, and runs of its code.
use operating_systems_lab.Prelude.{
  ℕ, ◌-◌, min, ◌≡◌, refl, sym, subst, true, false, some, [], ◌∷◌, arith, ltb, ◌==◌, if◌then◌else◌,
  get_or, pos,
}
use operating_systems_lab.Fs.{Block, Superblock, Inode, Fs}
use operating_systems_lab.Fs.Bitmap.{balloc, bfree}
use operating_systems_lab.Fs.Bitmap.Map.{map_bit, MapApart}
use operating_systems_lab.Fs.Bitmap.Alloc.{Balloc, balloc_lem}
use operating_systems_lab.Fs.Bitmap.Free.{Bfree, bfree_lem}
use operating_systems_lab.Fs.Inodes.{iget, read_dinode, write_dinode}
use operating_systems_lab.Fs.Inodes.Table.{OneEntry, Iget, iget_lem}
use operating_systems_lab.Fs.Inodes.OnDisk.{Fits, SameOnDisk, read_dinode-write_dinode}
use operating_systems_lab.Fs.Content.{put_bytes, readi, to_kernel}
use operating_systems_lab.Fs.Content.Blocks.{Mapped, file_bytes}
use operating_systems_lab.Fs.Content.Read.{readi_lem}
use operating_systems_lab.Fs.Directory.{dirlookup}
use operating_systems_lab.Fs.Directory.Lookup.{IsDirectory, Lookup, dirlookup_lem}
use operating_systems_lab.Fs.Path.{skipelem}
use operating_systems_lab.Fs.Path.Elements.{Split, skipelem_lem}
use operating_systems_lab.Fs.Bytes.{bit}

abbrev superblock : Superblock
superblock = record { blocks = 1000; ninodes = 200; inodestart = 32; bmapstart = 45 }

-- The free map, with blocks 0 to 55 in use.
abbrev free_map : Block
free_map o = if ltb o 7 then 255 else 0

-- A directory's block with the entries `.` of inode 1 and `a` of inode 2.
abbrev directory_block : Block
directory_block o =
    get_or (1 ∷ 0 ∷ 46 ∷ 0 ∷ 0 ∷ 0 ∷ 0 ∷ 0 ∷ 0 ∷ 0 ∷ 0 ∷ 0 ∷ 0 ∷ 0 ∷ 0 ∷ 0 ∷ 2 ∷ 0 ∷ 97 ∷ []) o 0

abbrev blocks : ℕ → Block
blocks b = if b == 45 then free_map else if b == 50 then directory_block else λ _. 0

abbrev empty_entry : Inode
empty_entry = record {
  dev = 0;
  inum = 0;
  ref = 0;
  valid = false;
  locked = false;
  type = 0;
  major = 0;
  minor = 0;
  nlink = 0;
  size = 0;
  addrs = λ _. 0;
}

-- The directory of inode 1, in block 50.
abbrev root : Inode
root = record empty_entry {
  dev = 1;
  inum = 1;
  ref = 1;
  valid = true;
  type = 1;
  nlink = 1;
  size = 32;
  addrs = λ k. if k == 0 then 50 else 0;
}

abbrev small : Fs
small = record {
  sb = superblock;
  view = blocks;
  logged = [];
  inodes = λ i. if i == 0 then root else empty_entry;
}

block_45_used : map_bit small 45 ≡ 1
unfolding bit
block_45_used = refl

small-MapApart : MapApart small
small-MapApart b c b_lt c_lt clear e =
    let at : 45 ≡ b = omega arith in
    absurd (omega (arith, block_45_used, subst (λ (q : ℕ). map_bit small q ≡ 0) (sym at) clear))

balloc_lem_example : Balloc small (balloc small)
balloc_lem_example = balloc_lem small small-MapApart

bfree_lem_example : Bfree 50 small (bfree 50 small)
bfree_lem_example = bfree_lem 50 small

small-OneEntry : OneEntry small.inodes
small-OneEntry i j i_lt j_lt ri rj d m = ground arith

iget_lem_example : Iget 1 2 small (iget 1 2 small)
iget_lem_example = iget_lem 1 2 small small-OneEntry

root-Fits : Fits root
root-Fits = record {
  type_fits = omega arith;
  major_fits = omega arith;
  minor_fits = omega arith;
  nlink_fits = omega arith;
  size_fits = omega arith;
  addrs_fit = λ k lt. ground arith;
}

read_dinode-write_dinode_example :
    SameOnDisk (read_dinode 64 (write_dinode 64 root (λ _. 9)) empty_entry) root
read_dinode-write_dinode_example = read_dinode-write_dinode 64 root (λ _. 9) root-Fits empty_entry

root-Mapped : Mapped 0 small
root-Mapped = record {
  bounded = omega arith;
  direct = λ bn lt inside. ground arith;
  indirect = λ inside. absurd (omega arith);
  words = λ bn past inside. absurd (omega arith);
}

readi_lem_example :
    readi to_kernel 0 512 16 100 (λ a. 0) small
    ≡ some (
      (
        pos (min 100 ((small.inodes 0).size - 16)),
        put_bytes 512 (file_bytes small 0 (min 100 ((small.inodes 0).size - 16)) 16) (λ a. 0),
      ),
      small,
    )
readi_lem_example = readi_lem 0 small root-Mapped 512 16 100 (λ a. 0) (omega arith)

root-IsDirectory : IsDirectory 0 small
root-IsDirectory = record { mapped = root-Mapped; is_dir = refl; whole = refl }

dirlookup_lem_example : Lookup 0 (97 ∷ []) small 0 (dirlookup 0 (97 ∷ []) small)
dirlookup_lem_example = dirlookup_lem 0 (97 ∷ []) small root-IsDirectory

-- "//ab/c"
skipelem_lem_example :
    Split (47 ∷ 47 ∷ 97 ∷ 98 ∷ 47 ∷ 99 ∷ []) (skipelem (47 ∷ 47 ∷ 97 ∷ 98 ∷ 47 ∷ 99 ∷ []))
skipelem_lem_example = skipelem_lem (47 ∷ 47 ∷ 97 ∷ 98 ∷ 47 ∷ 99 ∷ [])

-- The path's first element and the rest.
skipelem_run : skipelem (47 ∷ 47 ∷ 97 ∷ 98 ∷ 47 ∷ 99 ∷ []) ≡ some (97 ∷ 98 ∷ [], 99 ∷ [])
unfolding skipelem
skipelem_run = refl
