-- ===== src/Fs/Bitmap/Map.antt =====
-- The free map of kernel/fs.c: the bit that stands for each block, and what marking it changes.
use operating_systems_lab.Prelude.{
  ℕ, zero, suc, ◌+◌, ◌-◌, ◌/◌, ◌%◌, ◌<◌, ◌≡◌, refl, sym, ap, ◌∙◌, ◌≢◌, inl, inr, arith, ltb, ◌==◌,
  if◌then◌else◌, Bool-cases, update, update_self, update_ne,
}
use operating_systems_lab.Fs.{Block, bpb, Fs, bblock}
use operating_systems_lab.Fs.Bytes.{
  bit, one_shl, bit-add_self, bit-add_ne, bit-sub_self, bit-sub_ne,
}
use operating_systems_lab.Fs.Bitmap.{zeroed, mark_used, mark_free}

-- The bit of the free map for block b.
abbrev pub map_bit : Fs → ℕ → ℕ
map_bit s b = bit (s.view (bblock b s.sb) (b % bpb / 8)) (b % bpb % 8)

pub zeroed_lem : (n : ℕ) (x : Block) (o : ℕ) → zeroed n x o ≡ (if ltb o n then 0 else x o)
unfolding zeroed
zeroed_lem zero x o = ground arith
zeroed_lem (suc n) x o = ground (arith, zeroed_lem n x o)

-- Bit positions in a map block, as byte and bit.
pub mark_used_self :
    (i : ℕ) (x : Block) → bit (x (i / 8)) (i % 8) ≡ 0 → bit (mark_used i x (i / 8)) (i % 8) ≡ 1
unfolding mark_used
mark_used_self i x h =
    rw (update_self x (i / 8) (x (i / 8) + one_shl (i % 8))) (bit-add_self (x (i / 8)) (i % 8) h)

pub mark_used-ne :
    (i j : ℕ) (x : Block)
    → bit (x (i / 8)) (i % 8) ≡ 0
    → i ≢ j
    → bit (mark_used i x (j / 8)) (j % 8) ≡ bit (x (j / 8)) (j % 8)
unfolding mark_used
mark_used-ne i j x h ne = elim (Bool-cases (i / 8 == j / 8)) [
  | inr apart ↦ rw (update_ne x (i / 8) (x (i / 8) + one_shl (i % 8)) (j / 8) (ground arith)) refl
  | inl together ↦
      let e : i / 8 ≡ j / 8 = ground arith in
      let here : update x (i / 8) (x (i / 8) + one_shl (i % 8)) (j / 8)
          ≡ x (j / 8) + one_shl (i % 8) =
        ap (update x (i / 8) (x (i / 8) + one_shl (i % 8))) (sym e)
        ∙ update_self x (i / 8) (x (i / 8) + one_shl (i % 8))
        ∙ ap (λ (q : ℕ). x q + one_shl (i % 8)) e in
      rw here (
        bit-add_ne (x (j / 8)) (i % 8) (j % 8) (ap (λ (q : ℕ). bit (x q) (i % 8)) (sym e) ∙ h)
          (λ (k : j % 8 ≡ i % 8). ne (omega arith)))
]

pub mark_free_self :
    (i : ℕ) (x : Block) → bit (x (i / 8)) (i % 8) ≡ 1 → bit (mark_free i x (i / 8)) (i % 8) ≡ 0
unfolding mark_free
mark_free_self i x h =
    rw (update_self x (i / 8) (x (i / 8) - one_shl (i % 8))) (bit-sub_self (x (i / 8)) (i % 8) h)

pub mark_free-ne :
    (i j : ℕ) (x : Block)
    → bit (x (i / 8)) (i % 8) ≡ 1
    → i ≢ j
    → bit (mark_free i x (j / 8)) (j % 8) ≡ bit (x (j / 8)) (j % 8)
unfolding mark_free
mark_free-ne i j x h ne = elim (Bool-cases (i / 8 == j / 8)) [
  | inr apart ↦ rw (update_ne x (i / 8) (x (i / 8) - one_shl (i % 8)) (j / 8) (ground arith)) refl
  | inl together ↦
      let e : i / 8 ≡ j / 8 = ground arith in
      let here : update x (i / 8) (x (i / 8) - one_shl (i % 8)) (j / 8)
          ≡ x (j / 8) - one_shl (i % 8) =
        ap (update x (i / 8) (x (i / 8) - one_shl (i % 8))) (sym e)
        ∙ update_self x (i / 8) (x (i / 8) - one_shl (i % 8))
        ∙ ap (λ (q : ℕ). x q - one_shl (i % 8)) e in
      rw here (
        bit-sub_ne (x (j / 8)) (i % 8) (j % 8) (ap (λ (q : ℕ). bit (x q) (i % 8)) (sym e) ∙ h)
          (λ (k : j % 8 ≡ i % 8). ne (omega arith)))
]

-- The free map: a block of the disk that is free is no block of the map.
abbrev pub MapApart : Fs → Type 0
MapApart s = (b c : ℕ) → b < s.sb.blocks → c < s.sb.blocks → map_bit s b ≡ 0 → bblock c s.sb ≢ b
