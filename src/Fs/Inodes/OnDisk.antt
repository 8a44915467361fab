-- ===== src/Fs/Inodes/OnDisk.antt =====
-- An inode that iupdate has written is the one that ilock reads.
use operating_systems_lab.Prelude.{
  ℕ, zero, suc, ◌+◌, ◌*◌, ◌^◌, ◌≤◌, ◌<◌, ◌≡◌, refl, sym, ap, ap₂, ◌∙◌, ◌⊎◌, inl, inr, true, arith,
  ltb, ◌==◌, Bool-cases,
}
use operating_systems_lab.Fs.{Block, ndirect, Inode}
use operating_systems_lab.Fs.Bytes.{load16, load32, store16, store32}
use operating_systems_lab.Fs.Inodes.{store_words, write_dinode, read_dinode}

load16-store16_self : (o v : ℕ) (x : Block) → v < 2 ^ 16 → load16 (store16 o v x) o ≡ v
unfolding load16 store16
load16-store16_self o v x h = ground arith

load32-store32_self : (o v : ℕ) (x : Block) → v < 2 ^ 32 → load32 (store32 o v x) o ≡ v
unfolding load32 store32
load32-store32_self o v x h = ground arith

-- A store leaves bytes outside it.
store32-other : (o v : ℕ) (x : Block) (q : ℕ) → (q < o) ⊎ (o + 4 ≤ q) → store32 o v x q ≡ x q
unfolding store32
store32-other o v x q h = ground arith

store16-other : (o v : ℕ) (x : Block) (q : ℕ) → (q < o) ⊎ (o + 2 ≤ q) → store16 o v x q ≡ x q
unfolding store16
store16-other o v x q h = ground arith

store_words-other :
    (n o : ℕ) (f : ℕ → ℕ) (x : Block) (q : ℕ)
    → (q < o) ⊎ (o + 4 * n ≤ q)
    → store_words n o f x q ≡ x q
unfolding store_words
store_words-other zero o f x q h = refl
store_words-other (suc n) o f x q h =
    store32-other (o + 4 * n) (f n) (store_words n o f x) q (omega (arith, h))
    ∙ store_words-other n o f x q (omega (arith, h))

-- Loads look at their bytes only.
load16-same : (o : ℕ) (x y : Block) → x o ≡ y o → x (o + 1) ≡ y (o + 1) → load16 x o ≡ load16 y o
unfolding load16
load16-same o x y a b = ap₂ (λ (u v : ℕ). u + 256 * v) a b

load32-same :
    (o : ℕ) (x y : Block) → ((q : ℕ) → o ≤ q → q < o + 4 → x q ≡ y q) → load32 x o ≡ load32 y o
unfolding load32
load32-same o x y h = omega (
  arith,
  h o (omega arith) (omega arith),
  h (o + 1) (omega arith) (omega arith),
  h (o + 2) (omega arith) (omega arith),
  h (o + 3) (omega arith) (omega arith),
)

load32-store_words :
    (n o : ℕ) (f : ℕ → ℕ) (x : Block) (k : ℕ)
    → k < n
    → ((j : ℕ) → j < n → f j < 2 ^ 32)
    → load32 (store_words n o f x) (o + 4 * k) ≡ f k
unfolding store_words
load32-store_words zero o f x k lt b = absurd (omega arith)
load32-store_words (suc n) o f x k lt b = elim (Bool-cases (k == n)) [
  | inl hit ↦
      let e : k ≡ n = ground arith in
      ap (λ (j : ℕ). load32 (store32 (o + 4 * n) (f n) (store_words n o f x)) (o + 4 * j)) e
      ∙ load32-store32_self (o + 4 * n) (f n) (store_words n o f x) (b n (omega arith))
      ∙ ap f (sym e)
  | inr miss ↦
      let small : k < n = ground arith in
      load32-same (o + 4 * k) _ (store_words n o f x) (λ q a c.
        store32-other (o + 4 * n) (f n) (store_words n o f x) q (omega (arith, small, a, c)))
      ∙ load32-store_words n o f x k small (λ j h. b j (omega (arith, h)))
]

-- The members of an inode fit their C types.
pub record Fits (ip : Inode) : Type 0 where
  pub type_fits : ip.type < 2 ^ 16
  pub major_fits : ip.major < 2 ^ 16
  pub minor_fits : ip.minor < 2 ^ 16
  pub nlink_fits : ip.nlink < 2 ^ 16
  pub size_fits : ip.size < 2 ^ 32
  pub addrs_fit : (k : ℕ) → k < ndirect + 1 → ip.addrs k < 2 ^ 32

-- The two inodes agree in all that is kept on disk.
pub record SameOnDisk (a b : Inode) : Type 0 where
  pub same_type : a.type ≡ b.type
  pub same_major : a.major ≡ b.major
  pub same_minor : a.minor ≡ b.minor
  pub same_nlink : a.nlink ≡ b.nlink
  pub same_size : a.size ≡ b.size
  pub same_addrs : (k : ℕ) → k < ndirect + 1 → a.addrs k ≡ b.addrs k

module _ (o : ℕ) (ip : Inode) (x : Block) where
  s0 : Block
  s0 = store16 o ip.type x

  s2 : Block
  s2 = store16 (o + 2) ip.major s0

  s4 : Block
  s4 = store16 (o + 4) ip.minor s2

  s6 : Block
  s6 = store16 (o + 6) ip.nlink s4

  s8 : Block
  s8 = store32 (o + 8) ip.size s6

  -- A byte below offset 12 is not changed by the later stores.
  below_12 : (q : ℕ) → q < o + 12 → write_dinode o ip x q ≡ s8 q
  unfolding write_dinode s8 s6 s4 s2 s0
  below_12 q h = store_words-other 13 (o + 12) ip.addrs s8 q (inl h)

  below_8 : (q : ℕ) → q < o + 8 → write_dinode o ip x q ≡ s6 q
  unfolding s8
  below_8 q h = below_12 q (omega (arith, h)) ∙ store32-other (o + 8) ip.size s6 q (inl h)

  below_6 : (q : ℕ) → q < o + 6 → write_dinode o ip x q ≡ s4 q
  unfolding s6
  below_6 q h = below_8 q (omega (arith, h)) ∙ store16-other (o + 6) ip.nlink s4 q (inl h)

  below_4 : (q : ℕ) → q < o + 4 → write_dinode o ip x q ≡ s2 q
  unfolding s4
  below_4 q h = below_6 q (omega (arith, h)) ∙ store16-other (o + 4) ip.minor s2 q (inl h)

  below_2 : (q : ℕ) → q < o + 2 → write_dinode o ip x q ≡ s0 q
  unfolding s2
  below_2 q h = below_4 q (omega (arith, h)) ∙ store16-other (o + 2) ip.major s0 q (inl h)

  module _ (fits : Fits ip) where
    type_written : load16 (write_dinode o ip x) o ≡ ip.type
    unfolding s0
    type_written =
        load16-same o _ s0 (below_2 o (omega arith)) (below_2 (o + 1) (omega arith))
        ∙ load16-store16_self o ip.type x fits.type_fits

    major_written : load16 (write_dinode o ip x) (o + 2) ≡ ip.major
    unfolding s2
    major_written =
        load16-same (o + 2) _ s2 (below_4 (o + 2) (omega arith)) (below_4 (o + 2 + 1) (omega arith))
        ∙ load16-store16_self (o + 2) ip.major s0 fits.major_fits

    minor_written : load16 (write_dinode o ip x) (o + 4) ≡ ip.minor
    unfolding s4
    minor_written =
        load16-same (o + 4) _ s4 (below_6 (o + 4) (omega arith)) (below_6 (o + 4 + 1) (omega arith))
        ∙ load16-store16_self (o + 4) ip.minor s2 fits.minor_fits

    nlink_written : load16 (write_dinode o ip x) (o + 6) ≡ ip.nlink
    unfolding s6
    nlink_written =
        load16-same (o + 6) _ s6 (below_8 (o + 6) (omega arith)) (below_8 (o + 6 + 1) (omega arith))
        ∙ load16-store16_self (o + 6) ip.nlink s4 fits.nlink_fits

    size_written : load32 (write_dinode o ip x) (o + 8) ≡ ip.size
    unfolding s8
    size_written =
        load32-same (o + 8) _ s8 (λ q a b. below_12 q (omega (arith, b)))
        ∙ load32-store32_self (o + 8) ip.size s6 fits.size_fits

    addr_written :
        (k : ℕ) → k < ndirect + 1 → load32 (write_dinode o ip x) (o + 12 + 4 * k) ≡ ip.addrs k
    unfolding write_dinode
    addr_written k h = load32-store_words 13 (o + 12) ip.addrs _ k h fits.addrs_fit

    -- The dinode that iupdate writes for an inode whose members fit their types reads back, into any
    -- entry of the table, as that inode.
    pub read_dinode-write_dinode :
        (old : Inode) → SameOnDisk (read_dinode o (write_dinode o ip x) old) ip
    unfolding read_dinode
    read_dinode-write_dinode old = record {
      same_type = type_written;
      same_major = major_written;
      same_minor = minor_written;
      same_nlink = nlink_written;
      same_size = size_written;
      same_addrs = λ k h.
          let in_range : ltb k (ndirect + 1) ≡ true = ground arith in
          rw in_range (addr_written k h);
    }
