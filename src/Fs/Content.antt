-- ===== src/Fs/Content.antt =====
-- The contents of inodes: bmap, itrunc, stati, readi and writei of kernel/fs.c, and iput, which truncates.
pub mod Blocks
pub mod Read
use operating_systems_lab.Prelude.{
  ℕ, zero, suc, ◌+◌, ◌-◌, ◌*◌, ◌/◌, ◌%◌, ◌^◌, ◌≤◌, ◌<◌, min, ◌≡◌, refl, sym, ap, ap₂, subst, ◌∙◌,
  fun_ext, ◌≢◌, ◌↔◌, ◌⊎◌, inl, inr, Bool, true, false, not, ◌&&◌, ◌||◌, Option, none, some, List,
  [], ◌∷◌, ◌++◌, map, append-nil, append_assoc, arith, ltb, leb, ◌==◌, if◌then◌else◌, ltb→lt,
  lt→ltb, leb→le, ==_iff, tests, Bool-cases, Option-cases, from_next, length, get_elem?, set,
  length-append, length-set, get_elem?-set_self, get_elem?-set_ne, get_or, take, drop, replicate,
  take-append-drop, length-take, length-drop, length-replicate, length-map, ℤ, minus_one, sub_ℕ,
  sub_ℕ-eq-zero, sub_ℕ-self, pos, negsuc, update, update_self, update_ne, update_same,
}
use operating_systems_lab.Fs.{
  Block, bsize, ndirect, nindirect, maxfile, Inode, M, return, panic, ◌>>=◌, ◌>>◌, bread, set_buf,
  log_write, get_inode, put_inode,
}
use operating_systems_lab.Fs.Bytes.{load32, store32}
use operating_systems_lab.Fs.Bitmap.{balloc, bfree}
use operating_systems_lab.Fs.Inodes.{iupdate, iunlock}

-- addrs[k], allocated if it is 0.
unfoldable pub slot : ℕ → ℕ → M ℕ
slot i k = do
  ip ← get_inode i
  if ip.addrs k == 0
      then (do
        a ← balloc
        now ← get_inode i
        put_inode i (record now { addrs = update now.addrs k a })
        return a)
      else return (ip.addrs k)

-- Word bn of the indirect block addr, allocated if it is 0.
unfoldable pub indirect_slot : ℕ → ℕ → M ℕ
indirect_slot addr bn = do
  x ← bread addr
  if load32 x (4 * bn) == 0
      then (do
        a ← balloc
        y ← bread addr
        set_buf addr (store32 (4 * bn) a y)
        log_write addr
        return a)
      else return (load32 x (4 * bn))

unfoldable pub bmap : ℕ → ℕ → M ℕ
unfolding slot indirect_slot
bmap i bn =
    if ltb bn ndirect
    then slot i bn
    else if ltb (bn - ndirect) nindirect
    then (do addr ← slot i ndirect; indirect_slot addr (bn - ndirect))
    else panic

-- The loops of itrunc over the direct blocks and over the words of the indirect block.
unfoldable pub free_direct : ℕ → ℕ → ℕ → M (Unit {0})
free_direct zero k i = return tt
free_direct (suc rounds) k i = do
  ip ← get_inode i
  if ip.addrs k == 0
      then return tt
      else (do bfree (ip.addrs k); put_inode i (record ip { addrs = update ip.addrs k 0 }))
  free_direct rounds (k + 1) i

unfoldable pub free_words : ℕ → ℕ → Block → M (Unit {0})
free_words zero j x = return tt
free_words (suc rounds) j x = do
  if load32 x (4 * j) == 0 then return tt else bfree (load32 x (4 * j))
  free_words rounds (j + 1) x

unfoldable pub itrunc : ℕ → M (Unit {0})
unfolding free_direct free_words
itrunc i = do
  free_direct ndirect 0 i
  ip ← get_inode i
  if ip.addrs ndirect == 0 then return tt else (do
    x ← bread (ip.addrs ndirect)
    free_words nindirect 0 x
    bfree (ip.addrs ndirect)
    put_inode i (record ip { addrs = update ip.addrs ndirect 0 }))
  now ← get_inode i
  put_inode i (record now { size = 0 })
  iupdate i

-- A call without a reference, where the int would fall below 0, is outside the model: `none`.
unfoldable pub iput : ℕ → M (Unit {0})
unfolding itrunc
iput i = do
  ip ← get_inode i
  if ip.ref == 1 && ip.valid && ip.nlink == 0
      then (do
        put_inode i (record ip { locked = true })
        itrunc i
        empty ← get_inode i
        put_inode i (record empty { type = 0 })
        iupdate i
        gone ← get_inode i
        put_inode i (record gone { valid = false; locked = false }))
      else return tt
  last ← get_inode i
  if last.ref == 0 then panic else put_inode i (record last { ref = last.ref - 1 })

unfoldable pub iunlockput : ℕ → M (Unit {0})
unfolding iput
iunlockput i = do iunlock i; iput i

-- `struct stat`.
pub record Stat : Type 0 where
  pub st_dev : ℕ
  pub st_ino : ℕ
  pub st_type : ℕ
  pub st_nlink : ℕ
  pub st_size : ℕ

unfoldable pub stati : Inode → Stat
stati ip = record {
  st_dev = ip.dev;
  st_ino = ip.inum;
  st_type = ip.type;
  st_nlink = ip.nlink;
  st_size = ip.size;
}

-- The n bytes of a block from offset o on.
unfoldable pub bytes_at : ℕ → ℕ → Block → List ℕ
bytes_at zero o x = []
bytes_at (suc n) o x = x o ∷ bytes_at n (o + 1) x

unfoldable pub put_bytes : ℕ → List ℕ → Block → Block
put_bytes o [] x = x
put_bytes o (v ∷ vs) x = put_bytes (o + 1) vs (update x o v)

-- either_copyout to a kernel address: memmove to dst.
abbrev pub to_kernel : ℕ → List ℕ → Block → Bool × Block
to_kernel dst bs d = (true, put_bytes dst bs d)

-- either_copyin from a kernel buffer with these bytes, at address 0.
abbrev pub from_kernel : List ℕ → ℕ → ℕ → Bool × List ℕ
from_kernel bs src n = (true, take n (drop src bs))

-- `D` is the memory that readi copies to; `copyout dst bytes d` is either_copyout, which fails with
-- false, perhaps after some bytes.
module _ {D : Type 0} (copyout : ℕ → List ℕ → D → Bool × D) where
  -- The loop; each round copies at least one byte, so `rounds` = n is enough.
  unfoldable pub readi_from : ℕ → ℕ → ℕ → ℕ → ℕ → ℕ → D → M (ℤ × D)
  unfolding bytes_at bmap
  readi_from zero i tot off dst n d s = some ((pos tot, d), s)
  readi_from (suc rounds) i tot off dst n d s = elim (ltb tot n) [
    | false ↦ some ((pos tot, d), s)
    | true ↦
        (do
          b ← bmap i (off / bsize)
          x ← bread b
          let m = min (n - tot) (bsize - off % bsize)
          let r = copyout dst (bytes_at m (off % bsize) x) d
          if r.0
              then readi_from rounds i (tot + m) (off + m) (dst + m) n r.1
              else return (minus_one, r.1))
          s
  ]

  unfoldable pub readi : ℕ → ℕ → ℕ → ℕ → D → M (ℤ × D)
  unfolding readi_from
  readi i dst off n d = do
    ip ← get_inode i
    if ltb ip.size off || ltb ((off + n) % 2 ^ 32) off then return (pos 0, d) else do
      let m = if ltb ip.size ((off + n) % 2 ^ 32) then ip.size - off else n
      readi_from m i 0 off dst m d

-- `copyin src len` is either_copyin: false where it fails, with the bytes that it copied.
module _ (copyin : ℕ → ℕ → Bool × List ℕ) where
  -- The loop: tot and off at its end.
  unfoldable pub writei_from : ℕ → ℕ → ℕ → ℕ → ℕ → ℕ → M (ℕ × ℕ)
  unfolding put_bytes bmap
  writei_from zero i tot off src n s = some ((tot, off), s)
  writei_from (suc rounds) i tot off src n s = elim (ltb tot n) [
    | false ↦ some ((tot, off), s)
    | true ↦
        (do
          b ← bmap i (off / bsize)
          x ← bread b
          let m = min (n - tot) (bsize - off % bsize)
          let r = copyin src m
          set_buf b (put_bytes (off % bsize) r.1 x)
          if r.0
              then (do log_write b; writei_from rounds i (tot + m) (off + m) (src + m) n)
              else return (tot, off))
          s
  ]

  unfoldable pub writei : ℕ → ℕ → ℕ → ℕ → M ℤ
  unfolding writei_from
  writei i src off n = do
    ip ← get_inode i
    if ltb ip.size off || ltb ((off + n) % 2 ^ 32) off || ltb (maxfile * bsize) ((off + n) % 2 ^ 32)
        then return minus_one
        else do
          r ← writei_from n i 0 off src n
          now ← get_inode i
          put_inode i (if ltb now.size r.1 then record now { size = r.1 } else now)
          iupdate i
          return (pos r.0)
