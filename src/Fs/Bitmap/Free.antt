-- ===== src/Fs/Bitmap/Free.antt =====
-- bfree of kernel/fs.c: it frees the block, or panics.
use operating_systems_lab.Prelude.{
  ℕ, ◌/◌, ◌%◌, ◌≡◌, refl, sym, ap, ◌∙◌, ◌≢◌, inl, inr, Option, none, some, ◌∷◌, arith, ◌==◌,
  Bool-cases, update, update_self, update_ne,
}
use operating_systems_lab.Fs.{Block, bpb, Fs, bblock}
use operating_systems_lab.Fs.Bytes.{bit, bit_cases}
use operating_systems_lab.Fs.Bitmap.{mark_free, bfree}
use operating_systems_lab.Fs.Bitmap.Map.{map_bit, mark_free_self, mark_free-ne}

-- How bfree ends.
pub data Bfree (b : ℕ) (s : Fs) : Option (Unit {0} × Fs) → Type 0 where
  was_free : map_bit s b ≡ 0 → Bfree b s none
  freed :
      (s' : Fs)
      → map_bit s b ≡ 1
      → map_bit s' b ≡ 0
      → ((c : ℕ) → c ≢ b → map_bit s' c ≡ map_bit s c)
      → ((c : ℕ) → c ≢ bblock b s.sb → s'.view c ≡ s.view c)
      → s'.logged ≡ bblock b s.sb ∷ s.logged
      → Bfree b s (some (tt, s'))

-- bfree panics exactly on a block that is free already; else it makes that block free and no other, and
-- changes no other block than the one of the map.
pub bfree_lem : (b : ℕ) (s : Fs) → Bfree b s (bfree b s)
unfolding bfree mark_free
bfree_lem b s = elim (bit_cases (s.view (bblock b s.sb) (b % bpb / 8)) (b % bpb % 8)) [
  | inl clear ↦ rw clear (was_free clear)
  | inr busy ↦ rw busy (
      freed _ busy (cleared_self busy) (cleared_rest busy)
        (λ c ne. update_ne s.view (bblock b s.sb) _ c (λ e. ne (sym e))) refl)
]
  where
    after : ℕ → Block
    after = update s.view (bblock b s.sb) (mark_free (b % bpb) (s.view (bblock b s.sb)))

    cleared_self :
        bit (s.view (bblock b s.sb) (b % bpb / 8)) (b % bpb % 8) ≡ 1
        → bit (after (bblock b s.sb) (b % bpb / 8)) (b % bpb % 8) ≡ 0
    cleared_self busy =
        ap (λ (x : Block). bit (x (b % bpb / 8)) (b % bpb % 8))
          (update_self s.view (bblock b s.sb) _)
        ∙ mark_free_self (b % bpb) (s.view (bblock b s.sb)) busy

    cleared_rest :
        bit (s.view (bblock b s.sb) (b % bpb / 8)) (b % bpb % 8) ≡ 1
        → (c : ℕ) → c ≢ b
        → bit (after (bblock c s.sb) (c % bpb / 8)) (c % bpb % 8) ≡ map_bit s c
    cleared_rest busy c ne = elim (Bool-cases (b / bpb == c / bpb)) [
      | inr apart ↦
          ap (λ (x : Block). bit (x (c % bpb / 8)) (c % bpb % 8))
            (update_ne s.view (bblock b s.sb) _ (bblock c s.sb) (ground arith))
      | inl together ↦
          let e : bblock b s.sb ≡ bblock c s.sb = ground arith in
          ap (λ (x : Block). bit (x (c % bpb / 8)) (c % bpb % 8))
            (ap after (sym e) ∙ update_self s.view (bblock b s.sb) _)
          ∙ mark_free-ne (b % bpb) (c % bpb) (s.view (bblock b s.sb)) busy
              (λ q. ne (ground (arith, together)))
          ∙ ap (λ (m : ℕ). bit (s.view m (c % bpb / 8)) (c % bpb % 8)) e
    ]
