-- ===== src/Prelude/Bits.antt =====
-- The operator | of C on unsigned words, bit by bit.
use operating_systems_lab.Prelude.{ℕ, zero, suc, ◌+◌, ◌*◌, ◌/◌, ◌%◌, ◌^◌, ◌<◌, ◌≡◌, arith, min}

-- a | b on words of this many bits.
unfoldable pub or_bits : (bits a b : ℕ) → ℕ
or_bits zero a b = 0
or_bits (suc n) a b = min 1 (a % 2 + b % 2) + 2 * or_bits n (a / 2) (b / 2)

or_bits_zero : (n a : ℕ) → a < 2 ^ n → or_bits n a 0 ≡ a
unfolding or_bits
or_bits_zero zero a lt = omega (arith, lt)
or_bits_zero (suc n) a lt =
    let rest : or_bits n (a / 2) 0 ≡ a / 2 = or_bits_zero n (a / 2) (omega (arith, lt)) in
    omega (arith, rest)

-- Setting the lowest bit.
pub or_bits_one : (n a : ℕ) → a < 2 ^ suc n → or_bits (suc n) a 1 ≡ a / 2 * 2 + 1
unfolding or_bits
or_bits_one n a lt =
    let rest : or_bits n (a / 2) 0 ≡ a / 2 = or_bits_zero n (a / 2) (omega (arith, lt)) in
    omega (arith, rest)

-- The k lowest bits of a word are clear.
abbrev pub Clear : ℕ → ℕ → Type 0
Clear zero x = Unit
Clear (suc k) x = (x % 2 ≡ 0) × Clear k (x / 2)

-- Then an | with a word of k bits adds it.
pub or_bits_low :
    (k n x y : ℕ) → Clear k x → x < 2 ^ n → y < 2 ^ k → y < 2 ^ n → or_bits n x y ≡ x + y
unfolding or_bits
or_bits_low k zero x y clear fits small y_fits = omega (arith, fits, y_fits)
or_bits_low zero (suc n) x y clear fits small y_fits =
    let none_set : y ≡ 0 = omega (arith, small) in
    let same : or_bits (suc n) x 0 ≡ x = or_bits_zero (suc n) x fits in
    rw none_set (omega (arith, same))
or_bits_low (suc k) (suc n) x y clear fits small y_fits =
    let even : x % 2 ≡ 0 = clear.0 in
    let rest : or_bits n (x / 2) (y / 2) ≡ x / 2 + y / 2 =
      or_bits_low k n (x / 2) (y / 2) clear.1 (omega (arith, fits)) (omega (arith, small))
        (omega (arith, y_fits)) in
    omega (arith, even, rest)
