-- ===== src/Vm/Bytes/Views.antt =====
-- Physical memory as words and as bytes, and what memmove of kernel/string.c does to either.
use operating_systems_lab.Prelude.{
  ℕ, zero, suc, ◌+◌, ◌-◌, ◌*◌, ◌/◌, ◌%◌, ◌^◌, ◌≤◌, ◌<◌, ◌≡◌, refl, sym, ap, subst, ◌∙◌, ◌⊎◌, inl,
  inr, ◌&&◌, arith, ltb, leb, Bool-cases,
}
use operating_systems_lab.Strings.{memmove}
use operating_systems_lab.Strings.Move.{copied, memmove_lem}
use operating_systems_lab.Vm.Bytes.{nth_byte, byte_at, number_of, words_of}

nth_byte_small : (i w : ℕ) → nth_byte i w < 256
unfolding nth_byte
nth_byte_small zero w = omega arith
nth_byte_small (suc i) w = nth_byte_small i (w / 256)

pub byte_small : (word : ℕ → ℕ) (a : ℕ) → byte_at word a < 256
unfolding byte_at
byte_small word a = nth_byte_small (a % 8) (word (a / 8 * 8))

nth_byte-number_of :
    (n i : ℕ) (byte : ℕ → ℕ) (a : ℕ)
    → i < n
    → ((p : ℕ) → byte p < 256)
    → nth_byte i (number_of n byte a) ≡ byte (a + i)
unfolding nth_byte number_of
nth_byte-number_of zero i byte a lt small = absurd (omega arith)
nth_byte-number_of (suc n) zero byte a lt small =
    let first : (byte a + 256 * number_of n byte (a + 1)) % 256 ≡ byte a = omega (arith, small a) in
    first ∙ ap byte (omega arith)
nth_byte-number_of (suc n) (suc i) byte a lt small =
    let rest : (byte a + 256 * number_of n byte (a + 1)) / 256 ≡ number_of n byte (a + 1) =
      omega (arith, small a) in
    ap (nth_byte i) rest
    ∙ nth_byte-number_of n i byte (a + 1) (omega arith) small
    ∙ ap byte (omega arith)

-- The bytes of the words are the bytes.
pub byte_at-words_of :
    (byte : ℕ → ℕ) (a : ℕ) → ((p : ℕ) → byte p < 256) → byte_at (words_of byte) a ≡ byte a
unfolding byte_at words_of
byte_at-words_of byte a small =
    nth_byte-number_of 8 (a % 8) byte (a / 8 * 8) (omega arith) small ∙ ap byte (omega arith)

number_of-nth_byte :
    (n : ℕ) (byte : ℕ → ℕ) (a w : ℕ)
    → w < 256 ^ n
    → ((i : ℕ) → i < n → byte (a + i) ≡ nth_byte i w)
    → number_of n byte a ≡ w
unfolding nth_byte number_of
number_of-nth_byte zero byte a w lt same = omega arith
number_of-nth_byte (suc n) byte a w lt same =
    let first : byte a ≡ w % 256 = ap byte (omega arith) ∙ same 0 (omega arith) in
    let rest : number_of n byte (a + 1) ≡ w / 256 =
      number_of-nth_byte n byte (a + 1) (w / 256) (omega arith)
        λ i i_lt. ap byte (omega arith) ∙ same (suc i) (omega arith) in
    omega (arith, first, rest)

-- A word with the bytes of a 64-bit word is that word.
pub words_of-same :
    (byte : ℕ → ℕ) (word : ℕ → ℕ) (a : ℕ)
    → a % 8 ≡ 0
    → word a < 2 ^ 64
    → ((i : ℕ) → i < 8 → byte (a + i) ≡ byte_at word (a + i))
    → words_of byte a ≡ word a
unfolding words_of byte_at
words_of-same byte word a aligned small same = number_of-nth_byte 8 byte a (word a) small λ i lt.
    let at : (a + i) / 8 * 8 ≡ a = omega arith in
    let index : (a + i) % 8 ≡ i = omega arith in same i lt ∙ rw (at, index) refl

-- The words after memmove.
abbrev pub moved : ℕ → ℕ → ℕ → (ℕ → ℕ) → ℕ → ℕ
moved dst src n word = words_of (memmove dst src n (byte_at word))

pub byte_at-moved :
    (dst src n : ℕ) (word : ℕ → ℕ) (p : ℕ)
    → byte_at (moved dst src n word) p ≡ copied dst src n (byte_at word) p
byte_at-moved dst src n word p =
    byte_at-words_of (memmove dst src n (byte_at word)) p
      (λ q. subst (λ (b : ℕ). b < 256) (sym (memmove_lem dst src n (byte_at word) q)) (small q))
    ∙ memmove_lem dst src n (byte_at word) p
  where
    small : (q : ℕ) → copied dst src n (byte_at word) q < 256
    small q = elim (Bool-cases (leb dst q && ltb q (dst + n))) [
      | inl inside ↦ rw inside (byte_small word (src + (q - dst)))
      | inr outside ↦ rw outside (byte_small word q)
    ]

-- A word that the copy does not reach.
pub moved_same :
    (dst src n : ℕ) (word : ℕ → ℕ) (a : ℕ)
    → a % 8 ≡ 0
    → word a < 2 ^ 64
    → (a + 8 ≤ dst) ⊎ (dst + n ≤ a)
    → moved dst src n word a ≡ word a
moved_same dst src n word a aligned small away =
    words_of-same (memmove dst src n (byte_at word)) word a aligned small
      λ i lt. memmove_lem dst src n (byte_at word) (a + i) ∙ outside i lt
  where
    outside : (i : ℕ) → i < 8 → copied dst src n (byte_at word) (a + i) ≡ byte_at word (a + i)
    outside i lt = ground (arith, away)
