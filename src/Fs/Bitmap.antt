-- ===== src/Fs/Bitmap.antt =====
-- bzero, balloc and bfree of kernel/fs.c.
pub mod Map
pub mod Alloc
pub mod Free
use operating_systems_lab.Prelude.{
  ℕ, zero, suc, ◌+◌, ◌-◌, ◌*◌, ◌/◌, ◌%◌, ◌^◌, ◌≤◌, ◌<◌, min, ◌≡◌, refl, sym, ap, ap₂, subst, ◌∙◌,
  fun_ext, ◌≢◌, ◌↔◌, ◌⊎◌, inl, inr, Bool, true, false, not, ◌&&◌, ◌||◌, Option, none, some, List,
  [], ◌∷◌, ◌++◌, map, append-nil, append_assoc, arith, ltb, leb, ◌==◌, if◌then◌else◌, ltb→lt,
  lt→ltb, leb→le, ==_iff, tests, Bool-cases, Option-cases, length, get_elem?, set, length-append,
  length-set, get_elem?-set_self, get_elem?-set_ne, get_or, take, drop, replicate, take-append-drop,
  length-take, length-drop, length-replicate, length-map, ℤ, minus_one, sub_ℕ, sub_ℕ-eq-zero,
  sub_ℕ-self, pos, negsuc, update, update_self, update_ne, update_same,
}
use operating_systems_lab.Fs.{
  Block, bsize, bpb, Fs, Superblock, M, return, panic, ◌>>=◌, ◌>>◌, get, bread, set_buf, log_write,
  bblock,
}
use operating_systems_lab.Fs.Bytes.{bit, one_shl}

-- memset of a whole buffer to 0; `n` bytes are left.
unfoldable pub zeroed : ℕ → Block → Block
zeroed zero x = x
zeroed (suc n) x = update (zeroed n x) n 0

unfoldable pub bzero : ℕ → M (Unit {0})
unfolding zeroed
bzero bno = do x ← bread bno; set_buf bno (zeroed bsize x); log_write bno

-- The inner loop of balloc: the first bi from here on whose bit is clear, while b + bi < limit.
unfoldable pub free_bit : ℕ → ℕ → ℕ → ℕ → Block → Option ℕ
free_bit zero bi b limit x = none
free_bit (suc rounds) bi b limit x = elim (ltb (b + bi) limit) [
  | false ↦ none
  | true ↦ elim (bit (x (bi / 8)) (bi % 8) == 0) [
    | true ↦ some bi
    | false ↦ free_bit rounds (bi + 1) b limit x
  ]
]

-- data[bi/8] |= 1 << (bi % 8), where that bit is clear.
unfoldable pub mark_used : ℕ → Block → Block
mark_used bi x = update x (bi / 8) (x (bi / 8) + one_shl (bi % 8))

-- data[bi/8] &= ~(1 << (bi % 8)), where that bit is set.
unfoldable pub mark_free : ℕ → Block → Block
mark_free bi x = update x (bi / 8) (x (bi / 8) - one_shl (bi % 8))

-- balloc, once it has found bit bi of the map block for b.
unfoldable pub take_block : ℕ → ℕ → M ℕ
unfolding mark_used bzero
take_block b bi = do
  s ← get
  x ← bread (bblock b s.sb)
  set_buf (bblock b s.sb) (mark_used bi x)
  log_write (bblock b s.sb)
  bzero (b + bi)
  return (b + bi)

-- The outer loop of balloc.
unfoldable pub balloc_from : ℕ → ℕ → M ℕ
unfolding free_bit take_block
balloc_from zero b s = none
balloc_from (suc rounds) b s = elim (ltb b s.sb.blocks) [
  | false ↦ none
  | true ↦ elim (free_bit bpb 0 b s.sb.blocks (s.view (bblock b s.sb))) [
    | some bi ↦ take_block b bi s
    | none ↦ balloc_from rounds (b + bpb) s
  ]
]

unfoldable pub balloc : M ℕ
unfolding balloc_from
balloc s = balloc_from (s.sb.blocks / bpb + 1) 0 s

unfoldable pub bfree : ℕ → M (Unit {0})
unfolding mark_free
bfree b = do
  s ← get
  x ← bread (bblock b s.sb)
  let bi = b % bpb
  if bit (x (bi / 8)) (bi % 8) == 0
      then panic
      else (set_buf (bblock b s.sb) (mark_free bi x) >> log_write (bblock b s.sb))
