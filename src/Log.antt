-- ===== src/Log.antt =====
-- kernel/log.c: the redo log of the file system. A block is its 32-bit words by index. `view b` is what
-- bread returns for block b, the buffer cache's copy of it, which differs from the disk's only until
-- bwrite (kernel/bio.c). `crashes` records the disk after each single write, newest first:
-- what a crash could leave.
pub mod Logical
pub mod Install
pub mod Recover
pub mod Commit
pub mod Atomic
pub mod Transactions
mod Tests
use operating_systems_lab.Prelude.{
  ℕ, zero, suc, ◌+◌, ◌-◌, ◌*◌, ◌/◌, ◌%◌, ◌^◌, ◌≤◌, ◌<◌, min, ◌≡◌, refl, sym, ap, ap₂, subst, ◌∙◌,
  fun_ext, ◌≢◌, ◌↔◌, ◌⊎◌, inl, inr, Bool, true, false, not, ◌&&◌, ◌||◌, Option, none, some, List,
  [], ◌∷◌, ◌++◌, map, append-nil, append_assoc, arith, ltb, leb, ◌==◌, if◌then◌else◌, ltb→lt,
  lt→ltb, leb→le, ==_iff, tests, Bool-cases, Option-cases, length, get_elem?, set, length-append,
  length-set, get_elem?-set_self, get_elem?-set_ne, get_or, take, drop, replicate, take-append-drop,
  length-take, length-drop, length-replicate, length-map, ℤ, minus_one, sub_ℕ, sub_ℕ-eq-zero,
  sub_ℕ-self, pos, negsuc, update, update_self, update_ne, update_same,
}

abbrev pub Block : Type 0
Block = ℕ → ℕ

abbrev pub Disk : Type 0
Disk = ℕ → Block

abbrev pub maxopblocks : ℕ
maxopblocks = 10

abbrev pub logsize : ℕ
logsize = maxopblocks * 3

-- `struct log`, with the disk, the cached blocks and the counts of bpin; `wakeups` counts the calls
-- wakeup(&log).
pub record Log : Type 0 where
  pub start : ℕ
  pub size : ℕ
  pub outstanding : ℕ
  pub committing : Bool
  pub lh_n : ℕ
  pub lh_block : ℕ → ℕ
  pub disk : Disk
  pub view : Disk
  pub pins : ℕ → ℕ
  pub crashes : List Disk
  pub wakeups : ℕ

abbrev pub bwrite : ℕ → Log → Log
bwrite b s = let d = update s.disk b (s.view b) in record s { disk = d; crashes = d ∷ s.crashes }

-- A change of the data of the buffer of block b.
abbrev pub set_buf : ℕ → Block → Log → Log
set_buf b x s = record s { view = update s.view b x }

abbrev pub bpin : ℕ → Log → Log
bpin b s = record s { pins = update s.pins b (s.pins b + 1) }

abbrev pub bunpin : ℕ → Log → Log
bunpin b s = record s { pins = update s.pins b (s.pins b - 1) }

-- One round of install_trans.
pub install_one : Bool → ℕ → Log → Log
install_one recovering tail s =
    let dst = s.lh_block tail in
    let s' = bwrite dst (set_buf dst (s.view (s.start + tail + 1)) s) in
    if recovering then s' else bunpin dst s'

-- The loop of install_trans, with `rounds` = log.lh.n - tail rounds left.
pub install_from : Bool → ℕ → ℕ → Log → Log
install_from recovering zero tail s = s
install_from recovering (suc rounds) tail s =
    install_from recovering rounds (tail + 1) (install_one recovering tail s)

pub install_trans : Bool → Log → Log
unfolding install_from
install_trans recovering s = install_from recovering s.lh_n 0 s

-- log.lh.block after the first `i` rounds of the loop of read_head.
pub get_blocks : ℕ → Block → (ℕ → ℕ) → ℕ → ℕ
get_blocks zero head blocks = blocks
get_blocks (suc i) head blocks = update (get_blocks i head blocks) i (head (i + 1))

-- The header block holds lh.n in its first word and lh.block behind it. For more than LOGSIZE blocks the
-- loop writes past lh.block, and then the states are not the code's.
pub read_head : Log → Log
unfolding get_blocks
read_head s =
    let head = s.view s.start in
    record s { lh_n = head 0; lh_block = get_blocks (head 0) head s.lh_block }

-- The header buffer after the first `i` rounds of the loop of write_head.
pub put_blocks : ℕ → (ℕ → ℕ) → Block → Block
put_blocks zero blocks head = head
put_blocks (suc i) blocks head = update (put_blocks i blocks head) (i + 1) (blocks i)

pub write_head : Log → Log
unfolding put_blocks
write_head s =
    bwrite s.start
      (set_buf s.start (put_blocks s.lh_n s.lh_block (update (s.view s.start) 0 s.lh_n)) s)

pub recover_from_log : Log → Log
unfolding read_head install_trans write_head
recover_from_log s = write_head (record (install_trans true (read_head s)) { lh_n = 0 })

-- The state in which initlog runs after a boot on disk `d`: nothing is cached, `log` is zeroed.
abbrev pub boot : ℕ → ℕ → Disk → Log
boot start size d = record {
  start = start;
  size = size;
  outstanding = 0;
  committing = false;
  lh_n = 0;
  lh_block = λ _. 0;
  disk = d;
  view = d;
  pins = λ _. 0;
  crashes = [];
  wakeups = 0;
}

-- `start` and `size` are the superblock's logstart and nlog.
pub initlog : ℕ → ℕ → Disk → Log
unfolding recover_from_log
initlog start size d = recover_from_log (boot start size d)

-- One round of write_log: copy the cached block into its log block, and write that.
pub write_log_one : ℕ → Log → Log
write_log_one tail s =
    bwrite (s.start + tail + 1) (set_buf (s.start + tail + 1) (s.view (s.lh_block tail)) s)

pub write_log_from : ℕ → ℕ → Log → Log
unfolding write_log_one
write_log_from zero tail s = s
write_log_from (suc rounds) tail s = write_log_from rounds (tail + 1) (write_log_one tail s)

pub write_log : Log → Log
unfolding write_log_from
write_log s = write_log_from s.lh_n 0 s

pub commit : Log → Log
unfolding write_log write_head install_trans
commit s =
    if s.lh_n == 0
    then s
    else write_head (record (install_trans false (write_head (write_log s))) { lh_n = 0 })

-- What one pass of the loop of begin_op does: enter, or sleep on &log.
pub data Entry : Type 0 where
  entered : Log → Entry
  sleeping : Entry

pub begin_op : Log → Entry
begin_op s =
    if s.committing
    then sleeping
    else if ltb logsize (s.lh_n + (s.outstanding + 1) * maxopblocks)
    then sleeping
    else entered (record s { outstanding = s.outstanding + 1 })

-- The critical section of end_op: the Boolean is do_commit. `none` is panic("log.committing"), or a
-- call outside any operation, which the counter of the model cannot follow below 0.
pub leave_op : Log → Option (Log × Bool)
leave_op s =
    if s.outstanding == 0 || s.committing
    then none
    else if s.outstanding == 1
    then some (record s { outstanding = 0; committing = true }, true)
    else some (record s { outstanding = s.outstanding - 1; wakeups = s.wakeups + 1 }, false)

-- The rest of end_op.
pub finish_commit : Log → Log
unfolding commit
finish_commit s = let s' = commit s in record s' { committing = false; wakeups = s'.wakeups + 1 }

pub end_op : Log → Option Log
unfolding leave_op finish_commit
end_op s = elim (leave_op s) [
  | none ↦ none
  | some (s', do_commit) ↦ some (if do_commit then finish_commit s' else s')
]

-- The first i < n with lh.block[i] = b, or n; `rounds` = n - i.
pub find_slot : ℕ → ℕ → ℕ → (ℕ → ℕ) → ℕ
find_slot zero i b blocks = i
find_slot (suc rounds) i b blocks = elim (blocks i == b) [
  | true ↦ i
  | false ↦ find_slot rounds (i + 1) b blocks
]

-- `none` is one of the two panics.
pub log_write : ℕ → Log → Option Log
unfolding find_slot
log_write b s =
    if leb logsize s.lh_n || leb (s.size - 1) s.lh_n
    then none
    else if s.outstanding == 0
    then none
    else let i = find_slot s.lh_n 0 b s.lh_block in
      let s' = record s { lh_block = update s.lh_block i b } in
      some (if i == s.lh_n then record (bpin b s') { lh_n = s.lh_n + 1 } else s')
