-- ===== src/File.antt =====
-- kernel/file.c: the file table. Each critical section is one transition, and the calls of other parts are a
-- parameter. `none` as the result of a run is a panic.
pub mod Alloc
pub mod Write
mod Tests
use operating_systems_lab.Prelude.{
  ℕ, zero, suc, ◌+◌, ◌-◌, ◌*◌, ◌/◌, ◌%◌, ◌^◌, ◌≤◌, ◌<◌, min, ◌≡◌, refl, sym, ap, ap₂, subst, ◌∙◌,
  fun_ext, ◌≢◌, ◌↔◌, ◌⊎◌, inl, inr, Bool, true, false, not, ◌&&◌, ◌||◌, Option, none, some, List,
  [], ◌∷◌, ◌++◌, map, append-nil, append_assoc, arith, ltb, leb, ◌==◌, if◌then◌else◌, ltb→lt,
  lt→ltb, leb→le, ==_iff, tests, Bool-cases, Option-cases, from_next, true_ne_false, length,
  get_elem?, set, length-append, length-set, get_elem?-set_self, get_elem?-set_ne, get_or, take,
  drop, replicate, take-append-drop, length-take, length-drop, length-replicate, length-map, ℤ,
  minus_one, sub_ℕ, sub_ℕ-eq-zero, sub_ℕ-self, pos, negsuc, update, update_self, update_ne,
  update_same,
}
use operating_systems_lab.Prelude.Run.{Run, return, panic}
use operating_systems_lab.Log.{maxopblocks}
use operating_systems_lab.Fs.{bsize}
use operating_systems_lab.Fs.Content.{Stat}

abbrev pub nfile : ℕ
nfile = 100

abbrev pub ndev : ℕ
ndev = 10

pub data FileType : Type 0 where
  fd_none fd_pipe fd_inode fd_device : FileType

-- struct file. A reference count is no less than 0: filedup and fileclose panic below 1.
pub record File : Type 0 where
  pub type : FileType
  pub ref : ℕ
  pub readable : Bool
  pub writable : Bool
  pub pipe : ℕ
  pub ip : ℕ
  pub off : ℕ
  pub major : ℤ

-- ftable, and the rest of the kernel.
pub record Table (W : Type 0) : Type 0 where
  pub files : ℕ → File
  pub world : W

abbrev pub put_file : {W : Type 0} → ℕ → File → Table W → Table W
put_file f v t = record t { files = update t.files f v }

-- What file.c calls: log.c, fs.c, pipe.c, devsw and copyout. `none` is a panic.
pub record FileCalls : Type 1 where
  pub World : Type 0
  pub begin_op : World → Option World
  pub end_op : World → Option World
  pub iput : ℕ → World → Option World
  pub ilock : ℕ → World → Option World
  pub iunlock : ℕ → World → Option World
  pub stati : ℕ → World → Stat
  pub readi : (ip addr off n : ℕ) → World → Option (ℤ × World)
  pub writei : (ip addr off n : ℕ) → World → Option (ℤ × World)
  pub pipeclose : ℕ → Bool → World → Option World
  pub piperead : ℕ → ℕ → ℤ → World → Option (ℤ × World)
  pub pipewrite : ℕ → ℕ → ℤ → World → Option (ℤ × World)
  pub device_read : ℕ → Option (ℕ → ℤ → World → Option (ℤ × World))
  pub device_write : ℕ → Option (ℕ → ℤ → World → Option (ℤ × World))
  pub copyout_stat : ℕ → Stat → World → Bool × World

-- A call, and what follows it.
infixl 5 ◌then◌
abbrev pub ◌then◌ : {A B : Type 0} → Option A → (A → Option B) → Option B
o then f = elim o [ none ↦ none | some a ↦ f a ]

-- An int that is passed for a uint.
unfoldable pub to_uint : ℤ → ℕ
to_uint (pos n) = n % 2 ^ 32
to_uint (negsuc n) = 2 ^ 32 - 1 - n % 2 ^ 32

-- if(r > 0) f->off += r, on a uint.
unfoldable pub advance : ℕ → ℤ → ℕ
advance off (negsuc n) = off
advance off (pos zero) = off
advance off (pos (suc n)) = (off + suc n) % 2 ^ 32

-- The functions of a device, where the major number has any.
unfoldable pub device : {F : Type 0} → (ℕ → Option F) → ℤ → Option F
device table (negsuc m) = none
device table (pos m) = if ltb m ndev then table m else none

-- r == n
unfoldable pub is_count : ℤ → ℕ → Bool
is_count (pos m) n = m == n
is_count (negsuc m) n = false

-- The most bytes that filewrite writes in one transaction.
abbrev pub max_chunk : ℕ
max_chunk = (maxopblocks - 1 - 1 - 2) / 2 * bsize

-- The size of the next transaction.
unfoldable pub chunk_size : (i n : ℕ) → ℕ
chunk_size i n = if ltb max_chunk (n - i) then max_chunk else n - i

module _ (sys : FileCalls) where
  open sys use {
    World, begin_op, end_op, iput, ilock, iunlock, stati, readi, writei, pipeclose, piperead,
    pipewrite, device_read, device_write, copyout_stat,
  }

  abbrev pub M : Type 0 → Type 0
  M A = Run (Table World) A

  -- The loop of filealloc over the last n files.
  unfoldable pub alloc_from : ℕ → M (Option ℕ)
  alloc_from zero t = some (none, t)
  alloc_from (suc n) t = elim ((t.files (nfile - suc n)).ref == 0) [
    | true ↦ some (
      some (nfile - suc n),
      put_file (nfile - suc n) (record (t.files (nfile - suc n)) { ref = 1 }) t,
    )
    | false ↦ alloc_from n t
  ]

  unfoldable pub filealloc : M (Option ℕ)
  unfolding alloc_from
  filealloc = alloc_from nfile

  unfoldable pub filedup : ℕ → M ℕ
  filedup f t = elim (ltb (t.files f).ref 1) [
    | true ↦ none
    | false ↦ some (f, put_file f (record (t.files f) { ref = (t.files f).ref + 1 }) t)
  ]

  -- The end of fileclose, for the file as it was.
  unfoldable pub close_last : File → World → Option World
  close_last ff w = elim ff.type [
    | fd_none ↦ some w
    | fd_pipe ↦ pipeclose ff.pipe ff.writable w
    | fd_inode ↦ begin_op w then iput ff.ip then end_op
    | fd_device ↦ begin_op w then iput ff.ip then end_op
  ]

  unfoldable pub fileclose : ℕ → M (Unit {0})
  unfolding close_last
  fileclose f t = elim (ltb (t.files f).ref 1) [
    | true ↦ none
    | false ↦ elim (ltb 1 (t.files f).ref) [
      | true ↦ some (tt, put_file f (record (t.files f) { ref = (t.files f).ref - 1 }) t)
      | false ↦ close_last (t.files f) t.world then λ w.
          some (
            tt,
            record (put_file f (record (t.files f) { ref = 0; type = fd_none }) t) { world = w },
          )
    ]
  ]

  unfoldable pub stat_inode : ℕ → ℕ → M ℤ
  stat_inode ip addr t = ilock ip t.world then λ locked. iunlock ip locked then λ unlocked.
      let (copied, w) = copyout_stat addr (stati ip locked) unlocked in
      some ((if copied then pos 0 else minus_one), record t { world = w })

  unfoldable pub filestat : ℕ → ℕ → M ℤ
  unfolding stat_inode
  filestat f addr t = elim (t.files f).type [
    | fd_none ↦ some (minus_one, t)
    | fd_pipe ↦ some (minus_one, t)
    | fd_inode ↦ stat_inode (t.files f).ip addr t
    | fd_device ↦ stat_inode (t.files f).ip addr t
  ]

  -- A call that leaves the file table alone.
  abbrev pub call : (World → Option (ℤ × World)) → M ℤ
  call g t = g t.world then λ (r, w). some (r, record t { world = w })

  abbrev pub call_device : Option (ℕ → ℤ → World → Option (ℤ × World)) → ℕ → ℤ → M ℤ
  call_device none addr n t = some (minus_one, t)
  call_device (some g) addr n t = call (g addr n) t

  unfoldable pub fileread : ℕ → ℕ → ℤ → M ℤ
  unfolding advance to_uint device
  fileread f addr n t =
      if not (t.files f).readable then some (minus_one, t) else elim (t.files f).type [
        | fd_none ↦ none
        | fd_pipe ↦ call (piperead (t.files f).pipe addr n) t
        | fd_device ↦ call_device (device device_read (t.files f).major) addr n t
        | fd_inode ↦
            ilock (t.files f).ip t.world
            then readi (t.files f).ip addr (t.files f).off (to_uint n)
            then λ (r, w). iunlock (t.files f).ip w then λ w'. some (
              r,
              record (put_file f (record (t.files f) { off = advance (t.files f).off r }) t) {
                world = w';
              },
            )
      ]

  -- One transaction of filewrite.
  unfoldable pub write_chunk : (ip addr off n : ℕ) → World → Option (ℤ × World)
  write_chunk ip addr off n w = begin_op w then ilock ip then writei ip addr off n then λ (r, w₁).
      iunlock ip w₁ then end_op then λ w₂. some (r, w₂)

  -- A round of the loop of filewrite, of n1 bytes; `next` is the next round.
  unfoldable pub write_round : M ℕ → (f addr i n1 : ℕ) → M ℕ
  unfolding advance is_count
  write_round next f addr i n1 t =
      write_chunk (t.files f).ip ((addr + i) % 2 ^ 64) (t.files f).off n1 t.world then λ (r, w).
      let t' = record (put_file f (record (t.files f) { off = advance (t.files f).off r }) t) {
        world = w;
      } in
      elim (is_count r n1) [ true ↦ next t' | false ↦ some (i, t') ]

  -- The loop of filewrite, from byte i on: the bytes that were written, in `rounds` rounds at most.
  unfoldable pub write_from : (rounds f addr i n : ℕ) → M ℕ
  unfolding write_round chunk_size
  write_from zero f addr i n t = none
  write_from (suc rounds) f addr i n t = elim (ltb i n) [
    | false ↦ some (i, t)
    | true ↦
        write_round (write_from rounds f addr (i + chunk_size i n) n) f addr i (chunk_size i n) t
  ]

  unfoldable pub write_inode : ℕ → ℕ → ℤ → M ℤ
  unfolding write_from
  write_inode f addr (negsuc n) t = some (minus_one, t)
  write_inode f addr (pos n) t = elim (write_from (n + 1) f addr 0 n t) [
    | none ↦ none
    | some (i, t') ↦ some ((if i == n then pos n else minus_one), t')
  ]

  unfoldable pub filewrite : ℕ → ℕ → ℤ → M ℤ
  unfolding write_inode device
  filewrite f addr n t =
      if not (t.files f).writable then some (minus_one, t) else elim (t.files f).type [
        | fd_none ↦ none
        | fd_pipe ↦ call (pipewrite (t.files f).pipe addr n) t
        | fd_device ↦ call_device (device device_write (t.files f).major) addr n t
        | fd_inode ↦ write_inode f addr n t
      ]
