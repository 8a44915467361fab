-- ===== src/Fs/Bytes.antt =====
-- Numbers in the bytes of a block, little-endian, and the bits of a byte.
use operating_systems_lab.Prelude.{
  ℕ, zero, suc, ◌+◌, ◌-◌, ◌*◌, ◌/◌, ◌%◌, ◌≤◌, ◌≡◌, refl, ap, ◌≢◌, ◌⊎◌, arith, update,
}
use operating_systems_lab.Fs.{Block}

unfoldable pub load16 : Block → ℕ → ℕ
load16 b o = b o + 256 * b (o + 1)

unfoldable pub load32 : Block → ℕ → ℕ
load32 b o = b o + 256 * b (o + 1) + 65536 * b (o + 2) + 16777216 * b (o + 3)

unfoldable pub store16 : ℕ → ℕ → Block → Block
store16 o v b = update (update b o (v % 256)) (o + 1) (v / 256 % 256)

unfoldable pub store32 : ℕ → ℕ → Block → Block
store32 o v b =
    update
      (update (update (update b o (v % 256)) (o + 1) (v / 256 % 256)) (o + 2) (v / 65536 % 256))
      (o + 3) (v / 16777216 % 256)

-- 1 << k, and bit k of a number.
unfoldable pub one_shl : ℕ → ℕ
one_shl zero = 1
one_shl (suc k) = 2 * one_shl k

unfoldable pub bit : ℕ → ℕ → ℕ
bit x zero = x % 2
bit x (suc k) = bit (x / 2) k

pub bit-add_self : (x k : ℕ) → bit x k ≡ 0 → bit (x + one_shl k) k ≡ 1
unfolding bit one_shl
bit-add_self x zero h = omega arith
bit-add_self x (suc k) h =
    let half : (x + 2 * one_shl k) / 2 ≡ x / 2 + one_shl k = omega arith in
    rw half (bit-add_self (x / 2) k h)

pub bit-add_ne : (x k j : ℕ) → bit x k ≡ 0 → j ≢ k → bit (x + one_shl k) j ≡ bit x j
unfolding bit one_shl
bit-add_ne x zero zero h ne = absurd (ne refl)
bit-add_ne x zero (suc j) h ne =
    let half : (x + 1) / 2 ≡ x / 2 = omega (arith, h) in ap (λ (y : ℕ). bit y j) half
bit-add_ne x (suc k) zero h ne = omega arith
bit-add_ne x (suc k) (suc j) h ne =
    let half : (x + 2 * one_shl k) / 2 ≡ x / 2 + one_shl k = omega arith in
    rw half (bit-add_ne (x / 2) k j h (λ e. ne (ap suc e)))

pub bit_le : (x k : ℕ) → bit x k ≡ 1 → one_shl k ≤ x
unfolding bit one_shl
bit_le x zero h = omega arith
bit_le x (suc k) h = omega (arith, bit_le (x / 2) k h)

pub bit-sub_self : (x k : ℕ) → bit x k ≡ 1 → bit (x - one_shl k) k ≡ 0
unfolding bit one_shl
bit-sub_self x zero h = omega arith
bit-sub_self x (suc k) h =
    let half : (x - 2 * one_shl k) / 2 ≡ x / 2 - one_shl k = omega arith in
    rw half (bit-sub_self (x / 2) k h)

pub bit-sub_ne : (x k j : ℕ) → bit x k ≡ 1 → j ≢ k → bit (x - one_shl k) j ≡ bit x j
unfolding bit one_shl
bit-sub_ne x zero zero h ne = absurd (ne refl)
bit-sub_ne x zero (suc j) h ne =
    let half : (x - 1) / 2 ≡ x / 2 = omega (arith, h) in ap (λ (y : ℕ). bit y j) half
bit-sub_ne x (suc k) zero h ne = omega (arith, bit_le (x / 2) k h)
bit-sub_ne x (suc k) (suc j) h ne =
    let half : (x - 2 * one_shl k) / 2 ≡ x / 2 - one_shl k = omega arith in
    rw half (bit-sub_ne (x / 2) k j h (λ e. ne (ap suc e)))

pub bit_cases : (x k : ℕ) → (bit x k ≡ 0) ⊎ (bit x k ≡ 1)
unfolding bit
bit_cases x zero = omega arith
bit_cases x (suc k) = bit_cases (x / 2) k
