-- ===== src/Fs/Bitmap/Alloc.antt =====
-- balloc of kernel/fs.c: which block it gives, and what it changes.
use operating_systems_lab.Prelude.{
  ℕ, zero, suc, ◌+◌, ◌-◌, ◌*◌, ◌/◌, ◌%◌, ◌≤◌, ◌<◌, ◌≡◌, refl, sym, ap, subst, ◌∙◌, ◌≢◌, inl, inr,
  Option, none, some, ◌∷◌, arith, ltb, ◌==◌, ==_iff, Bool-cases, update, update_self, update_ne,
}
use operating_systems_lab.Fs.{Block, bsize, bpb, Fs, bblock}
use operating_systems_lab.Fs.Bytes.{bit, bit_cases}
use operating_systems_lab.Fs.Bitmap.{zeroed, free_bit, mark_used, take_block, balloc_from, balloc}
use operating_systems_lab.Fs.Bitmap.Map.{
  map_bit, MapApart, zeroed_lem, mark_used_self, mark_used-ne,
}

-- What the search of one map block finds.
data Found (b limit hi : ℕ) (x : Block) (lo : ℕ) : Option ℕ → Type 0 where
  free_at :
      (i : ℕ)
      → lo ≤ i
      → i < hi
      → b + i < limit
      → bit (x (i / 8)) (i % 8) ≡ 0
      → ((j : ℕ) → lo ≤ j → j < i → bit (x (j / 8)) (j % 8) ≡ 1)
      → Found b limit hi x lo (some i)
  all_used :
      ((j : ℕ) → lo ≤ j → j < hi → b + j < limit → bit (x (j / 8)) (j % 8) ≡ 1)
      → Found b limit hi x lo none

Found-skip :
    (b limit hi lo : ℕ) (x : Block) (r : Option ℕ)
    → bit (x (lo / 8)) (lo % 8) ≡ 1
    → Found b limit hi x (lo + 1) r
    → Found b limit hi x lo r
Found-skip b limit hi lo x r here (free_at i l h lt e before) =
    free_at i (omega (arith, l)) h lt e (λ j a c. elim (Bool-cases (lo == j)) [
      | inl q ↦ ap (λ (m : ℕ). bit (x (m / 8)) (m % 8)) (sym ((==_iff lo j).0 q)) ∙ here
      | inr q ↦ before j (ground arith) c
    ])
Found-skip b limit hi lo x r here (all_used all) = all_used (λ j a c d.
    elim (Bool-cases (lo == j)) [
      | inl q ↦ ap (λ (m : ℕ). bit (x (m / 8)) (m % 8)) (sym ((==_iff lo j).0 q)) ∙ here
      | inr q ↦ all j (ground arith) c d
    ])

free_bit-Found :
    (rounds lo b limit hi : ℕ) (x : Block)
    → hi ≡ lo + rounds
    → Found b limit hi x lo (free_bit rounds lo b limit x)
unfolding free_bit
free_bit-Found zero lo b limit hi x e = all_used (λ j a c d. absurd (omega arith))
free_bit-Found (suc rounds) lo b limit hi x e = elim (Bool-cases (ltb (b + lo) limit)) [
  | inr past ↦ rw (past, free_bit) (all_used (λ j a c d. absurd (ground arith)))
  | inl within ↦ elim (Bool-cases (bit (x (lo / 8)) (lo % 8) == 0)) [
    | inl clear ↦
        rw (within, clear, free_bit)
          (free_at lo (omega arith) (omega arith) (ground arith) (ground arith)
            (λ j a c. absurd (omega arith)))
    | inr busy ↦
        let one : bit (x (lo / 8)) (lo % 8) ≡ 1 = elim (bit_cases (x (lo / 8)) (lo % 8)) [
          | inl z ↦ ground arith
          | inr o ↦ o
        ] in
        rw (within, busy, free_bit)
          (Found-skip b limit hi lo x _ one
            (free_bit-Found rounds (lo + 1) b limit hi x (omega arith)))
  ]
]

-- What balloc does when it returns b.
pub record Allocated (b : ℕ) (s s' : Fs) : Type 0 where
  pub on_disk : b < s.sb.blocks
  pub was_free : map_bit s b ≡ 0
  pub first : (c : ℕ) → c < b → map_bit s c ≡ 1
  pub now_used : map_bit s' b ≡ 1
  pub rest_kept : (c : ℕ) → c < s.sb.blocks → c ≢ b → map_bit s' c ≡ map_bit s c
  pub cleared : (o : ℕ) → o < bsize → s'.view b o ≡ 0
  pub others : (c : ℕ) → c ≢ b → c ≢ bblock b s.sb → s'.view c ≡ s.view c
  pub noted : s'.logged ≡ b ∷ bblock b s.sb ∷ s.logged
  pub sb_kept : s'.sb ≡ s.sb
  pub inodes_kept : s'.inodes ≡ s.inodes

module _ (s : Fs) where
  -- The blocks after marking b, and the state after taking it.
  abbrev marked : ℕ → ℕ → Block
  marked b = update s.view (bblock b s.sb) (mark_used (b % bpb) (s.view (bblock b s.sb)))

  abbrev taken : ℕ → Fs
  taken b = record s {
    view = update (marked b) b (zeroed bsize (marked b b));
    logged = b ∷ bblock b s.sb ∷ s.logged;
  }

  take_block-taken :
      (q i : ℕ) → i < bpb → q % bpb ≡ 0 → take_block q i s ≡ some (q + i, taken (q + i))
  unfolding take_block
  take_block-taken q i lt m =
      let same_block : (q + i) / bpb ≡ q / bpb = omega arith in
      let same_bit : (q + i) % bpb ≡ i = omega arith in rw (same_block, same_bit) refl

  -- The block of the map for c, after that for b was marked.
  module _ (b : ℕ) (lt : b < s.sb.blocks) (free : map_bit s b ≡ 0) (v : MapApart s) where
    taken-map :
        (c : ℕ)
        → c < s.sb.blocks
        → (taken b).view (bblock c s.sb)
          ≡ update s.view
              (bblock b s.sb)
              (mark_used (b % bpb) (s.view (bblock b s.sb)))
              (bblock c s.sb)
    taken-map c c_lt =
        update_ne (marked b) b (zeroed bsize (marked b b)) (bblock c s.sb)
          (λ e. v b c lt c_lt free (sym e))

    taken_self : map_bit (taken b) b ≡ 1
    taken_self =
        ap (λ (x : Block). bit (x (b % bpb / 8)) (b % bpb % 8))
          (taken-map b lt
            ∙ update_self s.view (bblock b s.sb) (mark_used (b % bpb) (s.view (bblock b s.sb))))
        ∙ mark_used_self (b % bpb) (s.view (bblock b s.sb)) free

    taken-rest : (c : ℕ) → c < s.sb.blocks → c ≢ b → map_bit (taken b) c ≡ map_bit s c
    taken-rest c c_lt ne = elim (Bool-cases (b / bpb == c / bpb)) [
      | inr apart ↦
          ap (λ (x : Block). bit (x (c % bpb / 8)) (c % bpb % 8))
            (taken-map c c_lt ∙ update_ne s.view (bblock b s.sb) _ (bblock c s.sb) (ground arith))
      | inl together ↦
          let e : bblock b s.sb ≡ bblock c s.sb = ground arith in
          ap (λ (x : Block). bit (x (c % bpb / 8)) (c % bpb % 8))
            (taken-map c c_lt ∙ ap (marked b) (sym e) ∙ update_self s.view (bblock b s.sb) _)
          ∙ mark_used-ne (b % bpb) (c % bpb) (s.view (bblock b s.sb)) free
              (λ q. ne (ground (arith, together)))
          ∙ ap (λ (m : ℕ). bit (s.view m (c % bpb / 8)) (c % bpb % 8)) e
    ]

    taken-Allocated : ((c : ℕ) → c < b → map_bit s c ≡ 1) → Allocated b s (taken b)
    taken-Allocated before = record {
      on_disk = lt;
      was_free = free;
      first = before;
      now_used = taken_self;
      rest_kept = taken-rest;
      cleared = λ o h.
          ap (λ (x : Block). x o) (update_self (marked b) b _)
          ∙ zeroed_lem bsize _ o
          ∙ ground arith;
      others = λ c nb nm.
          update_ne (marked b) b _ c (λ e. nb (sym e)) ∙ update_ne s.view _ _ c (λ e. nm (sym e));
      noted = refl;
      sb_kept = refl;
      inodes_kept = refl;
    }

-- How balloc ends.
pub data Balloc (s : Fs) : Option (ℕ × Fs) → Type 0 where
  full : ((c : ℕ) → c < s.sb.blocks → map_bit s c ≡ 1) → Balloc s none
  gave : (b : ℕ) (s' : Fs) → Allocated b s s' → Balloc s (some (b, s'))

-- The bits of one map block are those of the blocks q to q + bpb.
used_below :
    (s : Fs) (q n : ℕ)
    → q % bpb ≡ 0
    → n ≤ bpb
    → ((c : ℕ) → c < q → c < s.sb.blocks → map_bit s c ≡ 1)
    → ((j : ℕ)
        → 0 ≤ j
        → j < n
        → q + j < s.sb.blocks
        → bit (s.view (bblock q s.sb) (j / 8)) (j % 8) ≡ 1)
    → (c : ℕ) → c < q + n
    → c < s.sb.blocks
    → map_bit s c ≡ 1
used_below s q n m le below here c lt c_lt = elim (Bool-cases (ltb c q)) [
  | inl early ↦ below c (ground arith) c_lt
  | inr late ↦
      let q_le : q ≤ c = ground arith in
      let block : c / bpb ≡ q / bpb = omega (arith, q_le) in
      let place : c % bpb ≡ c - q = omega (arith, q_le) in
      rw (block, place) (here (c - q) (omega arith) (omega (arith, q_le)) (omega (arith, q_le)))
]

module _ (s : Fs) (v : MapApart s) where
  -- The rest of the outer loop, after the search of one map block.
  after_search :
      (rounds q : ℕ) (r : Option ℕ)
      → q % bpb ≡ 0
      → s.sb.blocks < q + bpb * suc rounds
      → ((c : ℕ) → c < q → c < s.sb.blocks → map_bit s c ≡ 1)
      → (((c : ℕ) → c < q + bpb → c < s.sb.blocks → map_bit s c ≡ 1)
          → Balloc s (balloc_from rounds (q + bpb) s))
      → Found q s.sb.blocks bpb (s.view (bblock q s.sb)) 0 r
      → Balloc s (elim r [ some bi ↦ take_block q bi s | none ↦ balloc_from rounds (q + bpb) s ])
  after_search rounds q r m fuel below next (all_used all) =
      next (used_below s q bpb m (omega arith) below all)
  after_search rounds q r m fuel below next (free_at i lo hi lt free first) =
      let block : (q + i) / bpb ≡ q / bpb = omega arith in
      let place : (q + i) % bpb ≡ i = omega arith in
      subst (λ (o : Option (ℕ × Fs)). Balloc s o) (sym (take_block-taken s q i hi m))
        (gave (q + i) (taken s (q + i)) (
          taken-Allocated s (q + i) lt (rw (block, place) free) v (λ c c_lt.
            used_below s q i m (omega arith) below (λ j a d e. first j a d) c c_lt (omega arith))))

  balloc_from-Balloc :
      (rounds q : ℕ)
      → q % bpb ≡ 0
      → s.sb.blocks < q + bpb * rounds
      → ((c : ℕ) → c < q → c < s.sb.blocks → map_bit s c ≡ 1)
      → Balloc s (balloc_from rounds q s)
  unfolding balloc_from
  balloc_from-Balloc zero q m fuel below = full (λ c lt. below c (omega arith) lt)
  balloc_from-Balloc (suc rounds) q m fuel below = elim (Bool-cases (ltb q s.sb.blocks)) [
    | inr past ↦ rw (past, balloc_from) (full (λ c lt. below c (ground arith) lt))
    | inl within ↦
        rw (within, balloc_from)
          (after_search rounds q _ m fuel below
            (λ more. balloc_from-Balloc rounds (q + bpb) (omega arith) (omega arith) more)
            (free_bit-Found bpb 0 q s.sb.blocks bpb (s.view (bblock q s.sb)) (omega arith)))
  ]

  -- Where no free block is a block of the free map, balloc panics only if every block of the disk is
  -- used; else it returns the first free block, which then is used and all zero, leaves the bits of all
  -- other blocks and the contents of all blocks but it and its map block, and logs those two.
  pub balloc_lem : Balloc s (balloc s)
  unfolding balloc
  balloc_lem =
      balloc_from-Balloc (s.sb.blocks / bpb + 1) 0 (omega arith) (omega arith)
        (λ c lt. absurd (omega arith))
