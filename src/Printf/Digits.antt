-- ===== src/Printf/Digits.antt =====
-- printint of kernel/printf.c writes numbers that can be read back, and its buffer is large enough.
use operating_systems_lab.Prelude.{
  ℕ, zero, suc, ◌+◌, ◌-◌, ◌*◌, ◌/◌, ◌%◌, ◌^◌, ◌≤◌, ◌<◌, ◌≡◌, refl, sym, ap, subst, ◌∙◌, ◌⊎◌, inl,
  inr, Bool, true, false, ◌&&◌, List, [], ◌∷◌, ◌++◌, append-nil, arith, ltb, ◌==◌, if◌then◌else◌,
  ltb→lt, lt→ltb, leb, some, ==_iff, Bool-cases, length, length-append, ℤ, pos, negsuc,
}
use native.Mathlib.Numerals.{unary_clauses}
use native.Mathlib.Nat.{div-add-mod', le_refl, mul-le-mul, zero-div, pow-zero, div-lt_iff_lt-mul}
use operating_systems_lab.Printf.{
  digit, digit_rounds, digits_from, in_digits, is_negative, magnitude, put_back, buffer, printint,
}

-- The number that a digit stands for, and the one that digits stand for, behind those with value acc.
abbrev pub digit_value : ℕ → ℕ
digit_value c = if ltb c 58 then c - 48 else c - 87

unfoldable pub read_digits : (base acc : ℕ) → List ℕ → ℕ
read_digits base acc [] = acc
read_digits base acc (c ∷ cs) = read_digits base (acc * base + digit_value c) cs

-- A number with its sign.
unfoldable pub read_int : ℕ → List ℕ → ℤ
unfolding read_digits
read_int base [] = pos 0
read_int base (c ∷ cs) = elim (c == 45) [
  | true ↦ negsuc (read_digits base 0 cs - 1)
  | false ↦ pos (read_digits base 0 (c ∷ cs))
]

digit_value-digit : (d : ℕ) → digit_value (digit d) ≡ d
digit_value-digit d = ground arith

read_digits-append :
    (base acc : ℕ) (cs : List ℕ) (c : ℕ)
    → read_digits base acc (cs ++ (c ∷ [])) ≡ read_digits base acc cs * base + digit_value c
unfolding read_digits
read_digits-append base acc [] c = refl
read_digits-append base acc (d ∷ cs) c = read_digits-append base (acc * base + digit_value d) cs c

read_digits-last :
    (base x y : ℕ) (cs : List ℕ)
    → read_digits base 0 cs ≡ y
    → y ≡ x / base
    → read_digits base 0 (cs ++ (digit (x % base) ∷ [])) ≡ x
read_digits-last base x y cs h hy =
    read_digits-append base 0 cs (digit (x % base))
    ∙ ap (λ (n : ℕ). n * base + digit_value (digit (x % base))) (h ∙ hy)
    ∙ ap (λ (n : ℕ). x / base * base + n) (digit_value-digit (x % base))
    ∙ div-add-mod' x base

zero_quotient : (base : ℕ) → (0 / base == 0) ≡ true
zero_quotient base = ap (λ (n : ℕ). n == 0) (zero-div base)

quotient_small : (base x bound : ℕ) → 2 ≤ base → x < 2 * bound → x / base < bound
quotient_small base x bound two small =
    let twice : x / base * 2 ≤ x / base * base = mul-le-mul (le_refl (x / base)) two in
    let whole : x / base * base + x % base ≡ x = div-add-mod' x base in
    omega (arith, twice, whole, small)

read-last_digit :
    (base rounds x : ℕ)
    → (x / base == 0) ≡ true
    → read_digits base 0 (put_back (digits_from (suc rounds) x base)) ≡ x
unfolding digits_from put_back read_digits
read-last_digit base rounds x last =
    let quotient : x / base ≡ 0 = (==_iff (x / base) 0).0 last in
    rw (last, digits_from) (read_digits-last base x 0 [] refl (sym quotient))

-- A number below 2 ^ rounds has no more digits than that and one more, and they stand for it.
read-digits_from :
    (base rounds x : ℕ)
    → 2 ≤ base
    → x < 2 ^ rounds
    → read_digits base 0 (put_back (digits_from (suc rounds) x base)) ≡ x
unfolding digits_from put_back
read-digits_from base zero x two small =
    let none_left : x ≡ 0 = omega (arith, small) in
    read-last_digit base 0 x (ap (λ (n : ℕ). n / base == 0) none_left ∙ zero_quotient base)
read-digits_from base (suc rounds) x two small = elim (Bool-cases (x / base == 0)) [
  | inl last ↦ read-last_digit base (suc rounds) x last
  | inr more ↦
      rw (more, digits_from)
        (read_digits-last base x (x / base) (put_back (digits_from (suc rounds) (x / base) base))
          (read-digits_from base rounds (x / base) two
            (quotient_small base x (2 ^ rounds) two (omega (arith, small))))
          refl)
]

quotient_power : (base n x : ℕ) → 0 < base → x < base ^ suc n → x / base < base ^ n
quotient_power base n x some_base small =
    (div-lt_iff_lt-mul {k = base} {x = x} {y = base ^ n} some_base).1 (simp unary_clauses at small)

-- A number below a power of the base has at most so many digits.
length-digits_from :
    (rounds n x base : ℕ) → 0 < base → x < base ^ suc n → length (digits_from rounds x base) ≤ suc n
unfolding digits_from
length-digits_from zero n x base some_base small = omega arith
length-digits_from (suc rounds) zero x base some_base small =
    let quotient : x / base < base ^ 0 = quotient_power base 0 x some_base small in
    let unit : base ^ 0 ≡ 1 = pow-zero base in
    let last : (x / base == 0) ≡ true = ground (arith, quotient, unit) in
    rw (last, digits_from) (omega arith)
length-digits_from (suc rounds) (suc n) x base some_base small = elim (Bool-cases (x / base == 0)) [
  | inl last ↦ rw (last, digits_from) (omega arith)
  | inr more ↦
      let quotient : x / base < base ^ suc n = quotient_power base (suc n) x some_base small in
      let rest = length-digits_from rounds n (x / base) base some_base quotient in
      rw (more, digits_from) (omega (arith, rest))
]

-- Characters from '0' on, of which '-' is none.
abbrev NoSign : List ℕ → Type 0
NoSign [] = Unit {0}
NoSign (c ∷ cs) = (48 ≤ c) × NoSign cs

append-NoSign : (cs : List ℕ) (c : ℕ) → NoSign cs → 48 ≤ c → NoSign (cs ++ (c ∷ []))
append-NoSign [] c h le = (le, tt)
append-NoSign (d ∷ cs) c h le = (h.0, append-NoSign cs c h.1 le)

put_back-NoSign : (cs : List ℕ) → NoSign cs → NoSign (put_back cs)
unfolding put_back
put_back-NoSign [] h = tt
put_back-NoSign (c ∷ cs) h = append-NoSign (put_back cs) c (put_back-NoSign cs h.1) h.0

digit_from_zero : (d : ℕ) → 48 ≤ digit d
digit_from_zero d = ground arith

digits_from-NoSign : (rounds x base : ℕ) → NoSign (digits_from rounds x base)
unfolding digits_from
digits_from-NoSign zero x base = tt
digits_from-NoSign (suc rounds) x base = elim (Bool-cases (x / base == 0)) [
  | inl last ↦ rw (last, digits_from) (digit_from_zero (x % base), tt)
  | inr more ↦
      rw (more, digits_from) (digit_from_zero (x % base), digits_from-NoSign rounds (x / base) base)
]

read_int-NoSign :
    (base : ℕ) (cs : List ℕ) → NoSign cs → read_int base cs ≡ pos (read_digits base 0 cs)
unfolding read_int read_digits
read_int-NoSign base [] h = refl
read_int-NoSign base (c ∷ cs) h =
    let no_sign : (c == 45) ≡ false = ground (arith, h.0) in rw (no_sign, read_int) refl

put_back-append : (cs : List ℕ) (c : ℕ) → put_back (cs ++ (c ∷ [])) ≡ c ∷ put_back cs
unfolding put_back
put_back-append [] c = refl
put_back-append (d ∷ cs) c = ap (λ (ds : List ℕ). ds ++ (d ∷ [])) (put_back-append cs c)

-- The values of an int.
abbrev pub is_int : ℤ → Bool
is_int (pos n) = ltb n (2 ^ 31)
is_int (negsuc n) = ltb n (2 ^ 31)

read_int-minus :
    (base : ℕ) (cs : List ℕ)
    → read_int base (put_back (cs ++ (45 ∷ []))) ≡ negsuc (read_digits base 0 (put_back cs) - 1)
unfolding read_int
read_int-minus base cs = rw (put_back-append cs 45) refl

read_int-buffer :
    (base : ℕ) (xx : ℤ)
    → 2 ≤ base
    → is_int xx ≡ true
    → read_int base (put_back (buffer xx base true)) ≡ xx
unfolding buffer
read_int-buffer base (pos n) two int =
    let small : n < 2 ^ 31 = ltb→lt n (2 ^ 31) int in
    let same : n % 2 ^ 32 ≡ n = omega (arith, small) in
    let digits = digits_from digit_rounds n base in
    rw (same, append-nil)
      (read_int-NoSign base (put_back digits)
          (put_back-NoSign digits (digits_from-NoSign digit_rounds n base))
        ∙ ap pos (read-digits_from base 32 n two (omega (arith, small))))
read_int-buffer base (negsuc n) two int =
    let small : n < 2 ^ 31 = ltb→lt n (2 ^ 31) int in
    let same : (n + 1) % 2 ^ 32 ≡ n + 1 = omega (arith, small) in
    let value : read_digits base 0 (put_back (digits_from digit_rounds (n + 1) base)) ≡ n + 1 =
      read-digits_from base 32 (n + 1) two (omega (arith, small)) in
    read_int-minus base (digits_from digit_rounds ((n + 1) % 2 ^ 32) base)
    ∙ ap (λ (m : ℕ). negsuc (read_digits base 0 (put_back (digits_from digit_rounds m base)) - 1))
        same
    ∙ ap (λ (m : ℕ). negsuc (m - 1)) value
    ∙ ap negsuc (omega arith)

magnitude_small : (sign : Bool) (xx : ℤ) → magnitude sign xx < 2 ^ 32
magnitude_small sign (pos n) = omega arith
magnitude_small true (negsuc n) = omega arith
magnitude_small false (negsuc n) = omega arith

digits_fit :
    (base x : ℕ)
    → (base ≡ 10) ⊎ (base ≡ 16)
    → x < 2 ^ 32
    → length (digits_from digit_rounds x base) ≤ 10
digits_fit base x (inl ten) small =
    length-digits_from digit_rounds 9 x base (omega arith)
      (subst (λ (b : ℕ). x < b ^ 10) (sym ten) (omega (arith, small)))
digits_fit base x (inr sixteen) small =
    length-digits_from digit_rounds 9 x base (omega arith)
      (subst (λ (b : ℕ). x < b ^ 10) (sym sixteen) (omega (arith, small)))

sign_fits : (test : Bool) → length {A = ℕ} (if test then 45 ∷ [] else []) ≤ 1
sign_fits true = omega arith
sign_fits false = omega arith

-- buf has room for every int in the bases 10 and 16.
buffer_fits :
    (base : ℕ) (xx : ℤ) (sign : Bool)
    → (base ≡ 10) ⊎ (base ≡ 16)
    → length (buffer xx base sign) ≤ 16
unfolding buffer
buffer_fits base xx sign bases =
    let digits = digits_fit base (magnitude sign xx) bases (magnitude_small sign xx) in
    let last = sign_fits (sign && is_negative xx) in
    let total =
      length-append (digits_from digit_rounds (magnitude sign xx) base)
        (if sign && is_negative xx then 45 ∷ [] else []) in
    omega (arith, digits, last, total)

in_digits-true :
    (base rounds x : ℕ)
    → 2 ≤ base
    → ((y : ℕ) → y % base < 16)
    → x < 2 ^ rounds
    → in_digits (suc rounds) x base ≡ true
unfolding in_digits
in_digits-true base zero x two index small =
    let none_left : x ≡ 0 = omega (arith, small) in
    let last : (x / base == 0) ≡ true =
      ap (λ (n : ℕ). n / base == 0) none_left ∙ zero_quotient base in
    let inside : ltb (x % base) 16 ≡ true = lt→ltb _ _ (index x) in
    rw (last, in_digits, inside) refl
in_digits-true base (suc rounds) x two index small =
    let inside : ltb (x % base) 16 ≡ true = lt→ltb _ _ (index x) in
    elim (Bool-cases (x / base == 0)) [
      | inl last ↦ rw (last, in_digits, inside) refl
      | inr more ↦
          rw (more, in_digits, inside)
            (in_digits-true base rounds (x / base) two index
              (quotient_small base x (2 ^ rounds) two (omega (arith, small))))
    ]

index_inside : (base : ℕ) → (base ≡ 10) ⊎ (base ≡ 16) → (y : ℕ) → y % base < 16
index_inside base (inl ten) y = subst (λ (b : ℕ). y % b < 16) (sym ten) (omega arith)
index_inside base (inr sixteen) y = subst (λ (b : ℕ). y % b < 16) (sym sixteen) (omega arith)

from_two : (base : ℕ) → (base ≡ 10) ⊎ (base ≡ 16) → 2 ≤ base
from_two base (inl ten) = omega arith
from_two base (inr sixteen) = omega arith

-- In the bases 10 and 16, the ones that printf uses, printint of an int with its sign stays inside its buffer
-- and the table of digits, and what it writes reads back as that int.
pub read-printint :
    (base : ℕ) (xx : ℤ)
    → (base ≡ 10) ⊎ (base ≡ 16)
    → is_int xx ≡ true
    → (cs : List ℕ) × (printint xx base true ≡ some cs) × (read_int base cs ≡ xx)
unfolding printint
read-printint base xx bases int =
    let two = from_two base bases in
    let some_base : ltb 0 base ≡ true = ground (arith, two) in
    let inside : in_digits digit_rounds (magnitude true xx) base ≡ true =
      in_digits-true base 32 (magnitude true xx) two (index_inside base bases)
        (magnitude_small true xx) in
    let room = buffer_fits base xx true bases in
    let fits : leb (length (buffer xx base true)) 16 ≡ true = ground (arith, room) in
    (
      put_back (buffer xx base true),
      rw (some_base, inside, fits) refl,
      read_int-buffer base xx two int,
    )
