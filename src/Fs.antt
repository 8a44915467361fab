-- ===== src/Fs.antt =====
-- kernel/fs.c: the state of the file system above the log. A run is that of one process: acquiresleep
-- returns when the lock is free, so it only sets the lock. There is one disk, so block numbers need no
-- device. `view b` is the buffer cache's copy of block b, which bread returns, as bytes by offset; log_write
-- notes the block in `logged`, newest first (kernel/log.c says what becomes of it).
pub mod Bytes
pub mod Bitmap
pub mod Inodes
pub mod Content
pub mod Directory
pub mod Path
mod Tests
use operating_systems_lab.Prelude.{
  ℕ, zero, suc, ◌+◌, ◌-◌, ◌*◌, ◌/◌, ◌%◌, ◌^◌, ◌≤◌, ◌<◌, min, ◌≡◌, refl, sym, ap, ap₂, subst, ◌∙◌,
  fun_ext, ◌≢◌, ◌↔◌, ◌⊎◌, inl, inr, Bool, true, false, not, ◌&&◌, ◌||◌, Option, none, some, List,
  [], ◌∷◌, ◌++◌, map, append-nil, append_assoc, arith, ltb, leb, ◌==◌, if◌then◌else◌, ltb→lt,
  lt→ltb, leb→le, ==_iff, tests, Bool-cases, Option-cases, length, get_elem?, set, length-append,
  length-set, get_elem?-set_self, get_elem?-set_ne, get_or, take, drop, replicate, take-append-drop,
  length-take, length-drop, length-replicate, length-map, ℤ, minus_one, sub_ℕ, sub_ℕ-eq-zero,
  sub_ℕ-self, pos, negsuc, update, update_self, update_ne, update_same,
}
pub use operating_systems_lab.Prelude.Run.{Run, return, panic, ◌>>=◌, ◌>>◌, get, bind_some}

abbrev pub bsize : ℕ
bsize = 1024

abbrev pub ndirect : ℕ
ndirect = 12

abbrev pub nindirect : ℕ
nindirect = bsize / 4

abbrev pub maxfile : ℕ
maxfile = ndirect + nindirect

abbrev pub ninode : ℕ
ninode = 50

-- Inodes per block, and bits of the free map per block.
abbrev pub ipb : ℕ
ipb = bsize / 64

abbrev pub bpb : ℕ
bpb = bsize * 8

abbrev pub Block : Type 0
Block = ℕ → ℕ

-- `struct superblock`, what fs.c reads of it.
pub record Superblock : Type 0 where
  pub blocks : ℕ
  pub ninodes : ℕ
  pub inodestart : ℕ
  pub bmapstart : ℕ

-- `struct inode`.
pub record Inode : Type 0 where
  pub dev : ℕ
  pub inum : ℕ
  pub ref : ℕ
  pub valid : Bool
  pub locked : Bool
  pub type : ℕ
  pub major : ℕ
  pub minor : ℕ
  pub nlink : ℕ
  pub size : ℕ
  pub addrs : ℕ → ℕ

pub record Fs : Type 0 where
  pub sb : Superblock
  pub view : ℕ → Block
  pub logged : List ℕ
  pub inodes : ℕ → Inode

-- A run; `none` is a panic.
abbrev pub M : Type 0 → Type 0
M A = Run Fs A

-- The data of the buffer of block b.
abbrev pub bread : ℕ → M Block
bread b s = some (s.view b, s)

-- A change of the data of the buffer of block b.
abbrev pub set_buf : ℕ → Block → M (Unit {0})
set_buf b x s = some (tt, record s { view = update s.view b x })

abbrev pub log_write : ℕ → M (Unit {0})
log_write b s = some (tt, record s { logged = b ∷ s.logged })

abbrev pub get_inode : ℕ → M Inode
get_inode i s = some (s.inodes i, s)

abbrev pub put_inode : ℕ → Inode → M (Unit {0})
put_inode i ip s = some (tt, record s { inodes = update s.inodes i ip })

abbrev pub iblock : ℕ → Superblock → ℕ
iblock i sb = i / ipb + sb.inodestart

abbrev pub bblock : ℕ → Superblock → ℕ
bblock b sb = b / bpb + sb.bmapstart
