-- ===== src/Fs/Inodes.antt =====
-- The inode table of kernel/fs.c: ialloc, iupdate, iget, idup, ilock and iunlock. An inode is its index
-- in the table.
pub mod Table
pub mod OnDisk
use operating_systems_lab.Prelude.{
  ℕ, zero, suc, ◌+◌, ◌*◌, ◌%◌, Bool, true, false, not, ◌&&◌, ◌||◌, Option, none, some, ltb, ◌==◌,
  if◌then◌else◌, update,
}
use operating_systems_lab.Fs.{
  Block, ipb, ninode, ndirect, Inode, M, return, panic, ◌>>=◌, ◌>>◌, get, bread, set_buf, log_write,
  get_inode, put_inode, iblock,
}
use operating_systems_lab.Fs.Bytes.{load16, load32, store16, store32}

-- The offset of `struct dinode` number inum in its block.
abbrev pub dinode_at : ℕ → ℕ
dinode_at inum = inum % ipb * 64

-- `n` words from the array f, to offset o on.
unfoldable pub store_words : ℕ → ℕ → (ℕ → ℕ) → Block → Block
store_words zero o f x = x
store_words (suc n) o f x = store32 (o + 4 * n) (f n) (store_words n o f x)

-- The assignments of iupdate to the dinode at offset o.
unfoldable pub write_dinode : ℕ → Inode → Block → Block
unfolding store_words
write_dinode o ip x = store_words (ndirect + 1) (o + 12) ip.addrs (
    store32 (o + 8) ip.size (
      store16 (o + 6) ip.nlink
        (store16 (o + 4) ip.minor (store16 (o + 2) ip.major (store16 o ip.type x)))))

-- The assignments of ilock from the dinode at offset o.
unfoldable pub read_dinode : ℕ → Block → Inode → Inode
read_dinode o x ip = record ip {
  type = load16 x o;
  major = load16 x (o + 2);
  minor = load16 x (o + 4);
  nlink = load16 x (o + 6);
  size = load32 x (o + 8);
  addrs = λ k. if ltb k (ndirect + 1) then load32 x (o + 12 + 4 * k) else ip.addrs k;
}

unfoldable pub iupdate : ℕ → M (Unit {0})
unfolding write_dinode
iupdate i = do
  s ← get
  ip ← get_inode i
  x ← bread (iblock ip.inum s.sb)
  set_buf (iblock ip.inum s.sb) (write_dinode (dinode_at ip.inum) ip x)
  log_write (iblock ip.inum s.sb)

-- How the loop of iget ends: at an entry for the inode, or with the first empty entry.
pub data Scan : Type 0 where
  present : ℕ → Scan
  absent : Option ℕ → Scan

abbrev pub is_entry : ℕ → ℕ → Inode → Bool
is_entry dev inum ip = ltb 0 ip.ref && ip.dev == dev && ip.inum == inum

abbrev pub note_empty : Option ℕ → ℕ → Inode → Option ℕ
note_empty (some e) i ip = some e
note_empty none i ip = if ip.ref == 0 then some i else none

unfoldable pub scan : ℕ → ℕ → ℕ → ℕ → Option ℕ → (ℕ → Inode) → Scan
scan zero i dev inum empty t = absent empty
scan (suc rounds) i dev inum empty t = elim (is_entry dev inum (t i)) [
  | true ↦ present i
  | false ↦ scan rounds (i + 1) dev inum (note_empty empty i (t i)) t
]

unfoldable pub iget : ℕ → ℕ → M ℕ
unfolding scan
iget dev inum s = elim (scan ninode 0 dev inum none s.inodes) [
  | present i ↦ (do ip ← get_inode i; put_inode i (record ip { ref = ip.ref + 1 }); return i) s
  | absent none ↦ none
  | absent (some e) ↦
      (do
        ip ← get_inode e
        put_inode e (record ip { dev = dev; inum = inum; ref = 1; valid = false })
        return e)
        s
]

unfoldable pub idup : ℕ → M ℕ
idup i = do ip ← get_inode i; put_inode i (record ip { ref = ip.ref + 1 }); return i

-- ilock of an entry of the table.
unfoldable pub ilock : ℕ → M (Unit {0})
unfolding read_dinode
ilock i = do
  s ← get
  ip ← get_inode i
  if ip.ref == 0 then panic else if ip.valid then put_inode i (record ip { locked = true }) else do
    x ← bread (iblock ip.inum s.sb)
    let ip' = record (read_dinode (dinode_at ip.inum) x ip) { locked = true; valid = true }
    put_inode i ip'
    if ip'.type == 0 then panic else return tt

unfoldable pub iunlock : ℕ → M (Unit {0})
iunlock i = do
  ip ← get_inode i
  if not ip.locked || ip.ref == 0 then panic else put_inode i (record ip { locked = false })

-- memset(dip, 0, sizeof(*dip)), with n bytes left.
unfoldable pub clear_bytes : ℕ → ℕ → Block → Block
clear_bytes zero o x = x
clear_bytes (suc n) o x = update (clear_bytes n o x) (o + n) 0

-- The loop of ialloc.
unfoldable pub ialloc_from : ℕ → ℕ → ℕ → ℕ → M ℕ
unfolding iget clear_bytes
ialloc_from zero inum dev type s = none
ialloc_from (suc rounds) inum dev type s = elim (ltb inum s.sb.ninodes) [
  | false ↦ none
  | true ↦ elim (load16 (s.view (iblock inum s.sb)) (dinode_at inum) == 0) [
    | true ↦
        (do
          x ← bread (iblock inum s.sb)
          set_buf (iblock inum s.sb)
              (store16 (dinode_at inum) type (clear_bytes 64 (dinode_at inum) x))
          log_write (iblock inum s.sb)
          iget dev inum)
          s
    | false ↦ ialloc_from rounds (inum + 1) dev type s
  ]
]

unfoldable pub ialloc : ℕ → ℕ → M ℕ
unfolding ialloc_from
ialloc dev type s = ialloc_from s.sb.ninodes 1 dev type s
