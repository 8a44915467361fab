-- ===== src/Bio.antt =====
-- kernel/bio.c: the buffer cache. The buffers are the indices below NBUF, and NBUF is the list's head;
-- `next` and `prev` are the pointers of the doubly-linked list. The buffer's sleep lock is the pid of the
-- process that holds it, if one does; `pid` is that of the process that calls.
pub mod Ring
pub mod Start
pub mod Order
pub mod Search
pub mod Lru
pub mod Fill
mod Tests
use operating_systems_lab.Prelude.{
  ℕ, zero, suc, ◌+◌, ◌-◌, ◌*◌, ◌/◌, ◌%◌, ◌^◌, ◌≤◌, ◌<◌, min, ◌≡◌, refl, sym, ap, ap₂, subst, ◌∙◌,
  fun_ext, ◌≢◌, ◌↔◌, ◌⊎◌, inl, inr, Bool, true, false, not, ◌&&◌, ◌||◌, Option, none, some, List,
  [], ◌∷◌, ◌++◌, map, append-nil, append_assoc, arith, ltb, leb, ◌==◌, if◌then◌else◌, ltb→lt,
  lt→ltb, leb→le, ==_iff, tests, Bool-cases, Option-cases, from_next, length, get_elem?, set,
  length-append, length-set, get_elem?-set_self, get_elem?-set_ne, get_or, take, drop, replicate,
  take-append-drop, length-take, length-drop, length-replicate, length-map, ℤ, minus_one, sub_ℕ,
  sub_ℕ-eq-zero, sub_ℕ-self, pos, negsuc, update, update_self, update_ne, update_same,
}
use operating_systems_lab.Log.{maxopblocks}

abbrev pub nbuf : ℕ
nbuf = maxopblocks * 3

abbrev pub head : ℕ
head = nbuf

-- A block's bytes.
abbrev pub Block : Type 0
Block = ℕ → ℕ

-- refcnt++ and refcnt-- on a uint.
abbrev pub inc32 : ℕ → ℕ
inc32 n = (n + 1) % 2 ^ 32

abbrev pub dec32 : ℕ → ℕ
dec32 n = (n + (2 ^ 32 - 1)) % 2 ^ 32

-- `bcache`, and the disk.
pub record Bcache : Type 0 where
  pub next : ℕ → ℕ
  pub prev : ℕ → ℕ
  pub dev : ℕ → ℕ
  pub blockno : ℕ → ℕ
  pub refcnt : ℕ → ℕ
  pub valid : ℕ → Bool
  pub locked : ℕ → Option ℕ
  pub bytes : ℕ → Block
  pub disk : ℕ → Block

-- The four assignments that put b behind the head.
unfoldable pub insert_front : ℕ → Bcache → Bcache
insert_front b c =
    let c₁ = record c { next = update c.next b (c.next head) } in
    let c₂ = record c₁ { prev = update c₁.prev b head } in
    let c₃ = record c₂ { prev = update c₂.prev (c₂.next head) b } in
    record c₃ { next = update c₃.next head b }

-- b->next->prev = b->prev; b->prev->next = b->next;
unfoldable pub unlink : ℕ → Bcache → Bcache
unlink b c =
    let c₁ = record c { prev = update c.prev (c.next b) (c.prev b) } in
    record c₁ { next = update c₁.next (c₁.prev b) (c₁.next b) }

-- The loop of binit, with the buffers from b on left.
unfoldable pub binit_from : ℕ → ℕ → Bcache → Bcache
unfolding insert_front
binit_from zero b c = c
binit_from (suc rounds) b c = binit_from rounds (b + 1) (insert_front b c)

unfoldable pub binit : Bcache → Bcache
unfolding binit_from
binit c =
    binit_from nbuf 0 (record c { prev = update c.prev head head; next = update c.next head head })

abbrev pub is_cached : ℕ → ℕ → Bcache → ℕ → Bool
is_cached dev blockno c b = c.dev b == dev && c.blockno b == blockno

-- The first loop of bget, from b on; `rounds` buffers and the head are left.
unfoldable pub find_cached : ℕ → ℕ → ℕ → Bcache → ℕ → Option ℕ
find_cached zero dev blockno c b = none
find_cached (suc rounds) dev blockno c b = elim (b == head) [
  | true ↦ none
  | false ↦ elim (is_cached dev blockno c b) [
    | true ↦ some b
    | false ↦ find_cached rounds dev blockno c (c.next b)
  ]
]

-- The second loop of bget.
unfoldable pub find_unused : ℕ → Bcache → ℕ → Option ℕ
find_unused zero c b = none
find_unused (suc rounds) c b = elim (b == head) [
  | true ↦ none
  | false ↦ elim (c.refcnt b == 0) [ true ↦ some b | false ↦ find_unused rounds c (c.prev b) ]
]

-- How bget ends: with a panic, with the buffer locked, or asleep in acquiresleep, with its reference taken.
pub data Got : Type 0 where
  panicked : Got
  locked_buf : ℕ → Bcache → Got
  waiting : ℕ → Bcache → Got

-- holdingsleep, of the process `pid`.
abbrev pub held_by : ℕ → Option ℕ → Bool
held_by pid none = false
held_by pid (some q) = q == pid

-- acquiresleep(&b->lock), where it returns at once or sleeps.
abbrev pub acquire_buf : ℕ → ℕ → Bcache → Got
acquire_buf pid b c = elim (c.locked b) [
  | none ↦ locked_buf b (record c { locked = update c.locked b (some pid) })
  | some q ↦ waiting b c
]

unfoldable pub bget : (pid dev blockno : ℕ) → Bcache → Got
bget pid dev blockno c = elim (find_cached (nbuf + 1) dev blockno c (c.next head)) [
  | some b ↦ acquire_buf pid b (record c { refcnt = update c.refcnt b (inc32 (c.refcnt b)) })
  | none ↦ elim (find_unused (nbuf + 1) c (c.prev head)) [
    | none ↦ panicked
    | some b ↦ acquire_buf pid b (record c {
      dev = update c.dev b dev;
      blockno = update c.blockno b blockno;
      valid = update c.valid b false;
      refcnt = update c.refcnt b 1;
    })
  ]
]

-- bread, when bget has returned b.
unfoldable pub fill : ℕ → Bcache → Bcache
fill b c =
    if c.valid b
    then c
    else record c { bytes = update c.bytes b (c.disk (c.blockno b)); valid = update c.valid b true }

-- A call that sleeps goes on with `fill` when it is woken and has the lock.
unfoldable pub bread : (pid dev blockno : ℕ) → Bcache → Got
unfolding bget fill
bread pid dev blockno c = elim (bget pid dev blockno c) [
  | panicked ↦ panicked
  | waiting b c' ↦ waiting b c'
  | locked_buf b c' ↦ locked_buf b (fill b c')
]

unfoldable pub bwrite : (pid b : ℕ) → Bcache → Option Bcache
bwrite pid b c =
    if not (held_by pid (c.locked b))
    then none
    else some (record c { disk = update c.disk (c.blockno b) (c.bytes b) })

unfoldable pub brelse : (pid b : ℕ) → Bcache → Option Bcache
unfolding unlink insert_front
brelse pid b c =
    if not (held_by pid (c.locked b))
    then none
    else let c' = record c {
      locked = update c.locked b none;
      refcnt = update c.refcnt b (dec32 (c.refcnt b));
    } in
      some (if c'.refcnt b == 0 then insert_front b (unlink b c') else c')

unfoldable pub bpin : ℕ → Bcache → Bcache
bpin b c = record c { refcnt = update c.refcnt b (inc32 (c.refcnt b)) }

unfoldable pub bunpin : ℕ → Bcache → Bcache
bunpin b c = record c { refcnt = update c.refcnt b (dec32 (c.refcnt b)) }
