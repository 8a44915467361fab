-- ===== src/Fs/Content/Blocks.antt =====
-- The blocks of a file on disk, and bmap of kernel/fs.c on blocks that are there.
use operating_systems_lab.Prelude.{
  ℕ, zero, suc, ◌+◌, ◌-◌, ◌*◌, ◌/◌, ◌%◌, ◌≤◌, ◌<◌, ◌≡◌, refl, sym, ap, ap₂, ◌∙◌, ◌≢◌, inl, inr,
  true, false, some, List, [], ◌∷◌, arith, ltb, ◌==◌, if◌then◌else◌, Bool-cases,
}
use operating_systems_lab.Fs.{bsize, ndirect, nindirect, maxfile, Fs, bind_some}
use operating_systems_lab.Fs.Bytes.{load32}
use operating_systems_lab.Fs.Content.{slot, indirect_slot, bmap, bytes_at}

-- The block that holds block bn of the inode's contents.
abbrev pub addr_of : Fs → ℕ → ℕ → ℕ
addr_of s i bn =
    if ltb bn ndirect
    then (s.inodes i).addrs bn
    else load32 (s.view ((s.inodes i).addrs ndirect)) (4 * (bn - ndirect))

-- All blocks below the size are allocated.
pub record Mapped (i : ℕ) (s : Fs) : Type 0 where
  pub bounded : (s.inodes i).size ≤ maxfile * bsize
  pub direct : (bn : ℕ) → bn < ndirect → bn * bsize < (s.inodes i).size → (s.inodes i).addrs bn ≢ 0
  pub indirect : ndirect * bsize < (s.inodes i).size → (s.inodes i).addrs ndirect ≢ 0
  pub words :
      (bn : ℕ)
      → ndirect ≤ bn
      → bn * bsize < (s.inodes i).size
      → load32 (s.view ((s.inodes i).addrs ndirect)) (4 * (bn - ndirect)) ≢ 0

is_zero_ne : (n : ℕ) → n ≢ 0 → (n == 0) ≡ false
is_zero_ne n h = ground arith

slot_full :
    (i k : ℕ) (s : Fs) → (s.inodes i).addrs k ≢ 0 → slot i k s ≡ some ((s.inodes i).addrs k, s)
unfolding slot
slot_full i k s h = rw (is_zero_ne _ h) refl

indirect_slot_full :
    (addr bn : ℕ) (s : Fs)
    → load32 (s.view addr) (4 * bn) ≢ 0
    → indirect_slot addr bn s ≡ some (load32 (s.view addr) (4 * bn), s)
unfolding indirect_slot
indirect_slot_full addr bn s h = rw (is_zero_ne _ h) refl

-- bmap of a block that is allocated returns it and changes nothing.
pub bmap-Mapped :
    (i bn : ℕ) (s : Fs)
    → Mapped i s
    → bn * bsize < (s.inodes i).size
    → bmap i bn s ≡ some (addr_of s i bn, s)
unfolding bmap
bmap-Mapped i bn s v lt = elim (Bool-cases (ltb bn ndirect)) [
  | inl near ↦ rw near (slot_full i bn s (v.direct bn (ground arith) lt))
  | inr far ↦
      let past : ndirect ≤ bn = ground arith in
      let inside : ltb (bn - ndirect) nindirect ≡ true = ground (arith, v.bounded) in
      let first = slot_full i ndirect s (v.indirect (omega (arith, past))) in
      let second =
        indirect_slot_full ((s.inodes i).addrs ndirect) (bn - ndirect) s (v.words bn past lt) in
      rw (far, inside)
        (bind_some (slot i ndirect) (λ addr. indirect_slot addr (bn - ndirect)) s first ∙ second)
]

-- The byte at offset o of the contents, and n bytes from there on.
abbrev pub content : Fs → ℕ → ℕ → ℕ
content s i o = s.view (addr_of s i (o / bsize)) (o % bsize)

unfoldable pub file_bytes : Fs → ℕ → ℕ → ℕ → List ℕ
file_bytes s i zero o = []
file_bytes s i (suc n) o = content s i o ∷ file_bytes s i n (o + 1)

-- Within one block the contents are the bytes of the block.
pub bytes_at-content :
    (s : Fs) (i n o : ℕ)
    → o % bsize + n ≤ bsize
    → bytes_at n (o % bsize) (s.view (addr_of s i (o / bsize))) ≡ file_bytes s i n o
unfolding bytes_at file_bytes
bytes_at-content s i zero o h = refl
bytes_at-content s i (suc zero) o h = refl
bytes_at-content s i (suc (suc n)) o h =
    let same_block : (o + 1) / bsize ≡ o / bsize = omega arith in
    let next : (o + 1) % bsize ≡ o % bsize + 1 = omega arith in
    ap (λ (t : List ℕ). content s i o ∷ t)
      (ap₂ (λ (p q : ℕ). bytes_at (suc n) p (s.view (addr_of s i q))) (sym next) (sym same_block)
        ∙ bytes_at-content s i (suc n) (o + 1) (omega arith))
