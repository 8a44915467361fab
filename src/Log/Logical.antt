-- ===== src/Log/Logical.antt =====
-- The contents that a disk with a log stands for: kernel/log.c's header block says which blocks are to
-- be read from the log instead of from their home.
use operating_systems_lab.Prelude.{
  ℕ, zero, suc, ◌+◌, ◌≤◌, ◌<◌, ◌≡◌, refl, ap, subst, ◌∙◌, ◌≢◌, ◌⊎◌, inl, inr, false, arith, leb,
  ◌==◌, if◌then◌else◌, leb→le, ==_iff, Bool-cases,
}
use operating_systems_lab.Log.{Block, Disk, logsize, get_blocks, put_blocks}

-- Block `a` after the first `n` entries of the log were copied home, the later over the earlier.
abbrev pub replayed : ℕ → (ℕ → ℕ) → Disk → ℕ → ℕ → Block
replayed start blocks d zero a = d a
replayed start blocks d (suc i) a =
    if blocks i == a then d (start + i + 1) else replayed start blocks d i a

-- What recovery makes of block `a` of the disk.
abbrev pub logical : ℕ → Disk → ℕ → Block
logical start d a = replayed start (λ i. d start (i + 1)) d (d start 0) a

-- Outside the header and the blocks of the log.
abbrev pub IsHome : ℕ → ℕ → ℕ → Type 0
IsHome start size a = (a < start) ⊎ (start + size ≤ a)

-- The first `n` entries name blocks outside the log.
abbrev pub Homes : ℕ → ℕ → (ℕ → ℕ) → ℕ → Type 0
Homes start size blocks zero = Unit {0}
Homes start size blocks (suc i) = IsHome start size (blocks i) × Homes start size blocks i

-- The header block on disk fits the log and the array log.lh.block, of LOGSIZE entries.
pub record HeaderOk (start size : ℕ) (d : Disk) : Type 0 where
  pub fits : d start 0 < size
  pub in_array : d start 0 ≤ logsize
  pub homes : Homes start size (λ i. d start (i + 1)) (d start 0)

pub Homes-at :
    (start size : ℕ) (blocks : ℕ → ℕ) (n i : ℕ)
    → Homes start size blocks n
    → i < n
    → IsHome start size (blocks i)
Homes-at start size blocks zero i h lt = elim lt [ ]
Homes-at start size blocks (suc n) i h lt = elim (Bool-cases (i == n)) [
  | inl e ↦ let same : i ≡ n = ground arith in rw same h.0
  | inr ne ↦ Homes-at start size blocks n i h.1 (ground arith)
]

abbrev pub AgreeBelow : ℕ → (ℕ → ℕ) → (ℕ → ℕ) → Type 0
AgreeBelow n f g = (i : ℕ) → i < n → f i ≡ g i

pub Homes-agree :
    (start size : ℕ) (f g : ℕ → ℕ) (n : ℕ)
    → AgreeBelow n f g
    → Homes start size f n
    → Homes start size g n
Homes-agree start size f g zero e h = tt
Homes-agree start size f g (suc n) e h = (
  subst (λ b. IsHome start size b) (e n (omega arith)) h.0,
  Homes-agree start size f g n (λ i lt. e i (omega arith)) h.1,
)

pub replayed-agree :
    (start : ℕ) (f g : ℕ → ℕ) (d : Disk) (n a : ℕ)
    → AgreeBelow n f g
    → replayed start f d n a ≡ replayed start g d n a
replayed-agree start f g d zero a e = refl
replayed-agree start f g d (suc n) a e =
    rw (e n (omega arith), replayed-agree start f g d n a (λ i lt. e i (omega arith)))

pub logical_of :
    (start n : ℕ) (blocks : ℕ → ℕ) (d : Disk) (a : ℕ)
    → d start 0 ≡ n
    → AgreeBelow n (λ i. d start (i + 1)) blocks
    → logical start d a ≡ replayed start blocks d n a
logical_of start n blocks d a e agree =
    rw e (replayed-agree start (λ i. d start (i + 1)) blocks d n a agree)

-- A disk on which the first `t` entries of the log have been copied home stands for the same block.
pub replayed-between :
    (start : ℕ) (blocks : ℕ → ℕ) (d d₀ : Disk) (k t a : ℕ)
    → t ≤ k
    → ((i : ℕ) → i < k → d (start + i + 1) ≡ d₀ (start + i + 1))
    → d a ≡ replayed start blocks d₀ t a
    → replayed start blocks d k a ≡ replayed start blocks d₀ k a
replayed-between start blocks d d₀ zero zero a le same e = e
replayed-between start blocks d d₀ zero (suc t) a le same e = absurd (omega arith)
replayed-between start blocks d d₀ (suc k) t a le same e = elim (Bool-cases (blocks k == a)) [
  | inl hit ↦ rw hit (same k (omega arith))
  | inr miss ↦ rw miss (elim (Bool-cases (leb t k)) [
    | inl low ↦
        replayed-between start blocks d d₀ k t a (leb→le t k low) (λ i lt. same i (omega arith)) e
    | inr high ↦
        let top : t ≡ suc k = ground arith in
        replayed-between start blocks d d₀ k k a (omega arith) (λ i lt. same i (omega arith))
          (rw (top, miss) at e)
  ])
]

-- A home block that no entry names is read from its home.
pub replayed-other :
    (start : ℕ) (blocks : ℕ → ℕ) (d : Disk) (n a : ℕ)
    → ((i : ℕ) → i < n → blocks i ≢ a)
    → replayed start blocks d n a ≡ d a
replayed-other start blocks d zero a ne = refl
replayed-other start blocks d (suc n) a ne =
    ground (arith, ne n, replayed-other start blocks d n a (λ i lt. ne i (omega arith)))

-- Where every log block holds what `v` has at the block's home, that is what an entry stands for.
pub replayed-copies :
    (start : ℕ) (blocks : ℕ → ℕ) (d v : Disk) (n a : ℕ)
    → ((i : ℕ) → i < n → d (start + i + 1) ≡ v (blocks i))
    → (replayed start blocks d n a ≡ v a)
      ⊎ (((i : ℕ) → i < n → blocks i ≢ a) × (replayed start blocks d n a ≡ d a))
replayed-copies start blocks d v zero a same = inr (λ i lt. elim lt [ ], refl)
replayed-copies start blocks d v (suc n) a same = elim (Bool-cases (blocks n == a)) [
  | inl hit ↦ inl (rw hit (same n (omega arith) ∙ ap v ((==_iff _ _).0 hit)))
  | inr miss ↦ rw miss (elim (replayed-copies start blocks d v n a (λ i lt. same i (omega arith))) [
    | inl e ↦ inl e
    | inr (ne, e) ↦ inr (below_suc n ne miss, e)
  ])
]
  where
    below_suc :
        (n : ℕ)
        → ((i : ℕ) → i < n → blocks i ≢ a)
        → (blocks n == a) ≡ false
        → (i : ℕ) → i < suc n
        → blocks i ≢ a
    below_suc n ne miss i lt e = elim (Bool-cases (i == n)) [
      | inl same ↦ ground (arith, ap blocks ((==_iff i n).0 same))
      | inr other ↦ ne i (ground arith) e
    ]

pub get_blocks-at :
    (n : ℕ) (head : Block) (blocks : ℕ → ℕ) (i : ℕ)
    → i < n
    → get_blocks n head blocks i ≡ head (i + 1)
unfolding get_blocks
get_blocks-at zero head blocks i lt = elim lt [ ]
get_blocks-at (suc n) head blocks i lt = ground (arith, get_blocks-at n head blocks i)

pub put_blocks-at :
    (n : ℕ) (blocks : ℕ → ℕ) (head : Block) (i : ℕ)
    → i < n
    → put_blocks n blocks head (i + 1) ≡ blocks i
unfolding put_blocks
put_blocks-at zero blocks head i lt = elim lt [ ]
put_blocks-at (suc n) blocks head i lt = ground (arith, put_blocks-at n blocks head i)

pub put_blocks-zero : (n : ℕ) (blocks : ℕ → ℕ) (head : Block) → put_blocks n blocks head 0 ≡ head 0
unfolding put_blocks
put_blocks-zero zero blocks head = refl
put_blocks-zero (suc n) blocks head = ground (arith, put_blocks-zero n blocks head)
