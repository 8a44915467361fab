-- ===== src/Printf.antt =====
-- kernel/printf.c: the characters that printf passes to consputc, in order.
pub mod Digits
mod Tests
use operating_systems_lab.Prelude.{
  ℕ, zero, suc, ◌+◌, ◌-◌, ◌*◌, ◌/◌, ◌%◌, ◌^◌, ◌≤◌, ◌<◌, min, ◌≡◌, refl, sym, ap, ap₂, subst, ◌∙◌,
  fun_ext, ◌≢◌, ◌↔◌, ◌⊎◌, inl, inr, Bool, true, false, not, ◌&&◌, ◌||◌, Option, none, some, List,
  [], ◌∷◌, ◌++◌, map, append-nil, append_assoc, arith, ltb, leb, ◌==◌, if◌then◌else◌, ltb→lt,
  lt→ltb, leb→le, ==_iff, tests, Bool-cases, Option-cases, from_next, true_ne_false, length,
  get_elem?, set, length-append, length-set, get_elem?-set_self, get_elem?-set_ne, get_or, take,
  drop, replicate, take-append-drop, length-take, length-drop, length-replicate, length-map, ℤ,
  minus_one, sub_ℕ, sub_ℕ-eq-zero, sub_ℕ-self, pos, negsuc, update, update_self, update_ne,
  update_same,
}

-- The element of `digits` at this index.
abbrev pub digit : ℕ → ℕ
digit d = if ltb d 10 then 48 + d else 87 + d

-- The rounds of the loop that fills buf: more than a number of 32 bits has digits, in base 2 even.
abbrev pub digit_rounds : ℕ
digit_rounds = 33

-- The digits in buf, the last one first, in a number of rounds at most.
unfoldable pub digits_from : (rounds x base : ℕ) → List ℕ
digits_from zero x base = []
digits_from (suc rounds) x base = elim (x / base == 0) [
  | true ↦ digit (x % base) ∷ []
  | false ↦ digit (x % base) ∷ digits_from rounds (x / base) base
]

abbrev pub is_negative : ℤ → Bool
is_negative (pos n) = false
is_negative (negsuc n) = true

-- x, a uint: -xx where xx is negative and to be printed with its sign, and xx otherwise.
abbrev pub magnitude : Bool → ℤ → ℕ
magnitude sign (pos n) = n % 2 ^ 32
magnitude true (negsuc n) = (n + 1) % 2 ^ 32
magnitude false (negsuc n) = 2 ^ 32 - 1 - n % 2 ^ 32

-- while(--i >= 0) consputc(buf[i]);
unfoldable pub put_back : List ℕ → List ℕ
put_back [] = []
put_back (c ∷ cs) = put_back cs ++ (c ∷ [])

-- buf, when it is printed.
unfoldable pub buffer : (xx : ℤ) (base : ℕ) (sign : Bool) → List ℕ
buffer xx base sign =
    digits_from digit_rounds (magnitude sign xx) base
    ++ (if sign && is_negative xx then 45 ∷ [] else [])

-- All of the indices into `digits`, an array of 16, are inside.
unfoldable pub in_digits : (rounds x base : ℕ) → Bool
in_digits zero x base = false
in_digits (suc rounds) x base = elim (x / base == 0) [
  | true ↦ ltb (x % base) 16
  | false ↦ ltb (x % base) 16 && in_digits rounds (x / base) base
]

-- `none` where C leaves the call undefined: for base 0, or where it reads past the 16 elements of
-- `digits` or writes past the 16 of buf.
unfoldable pub printint : (xx : ℤ) (base : ℕ) (sign : Bool) → Option (List ℕ)
unfolding buffer put_back in_digits
printint xx base sign =
    if ltb 0 base
      && (in_digits digit_rounds (magnitude sign xx) base && leb (length (buffer xx base sign)) 16)
    then some (put_back (buffer xx base sign))
    else none

-- The last n digits that printptr writes.
unfoldable pub hex_from : (n x : ℕ) → List ℕ
hex_from zero x = []
hex_from (suc n) x = digit (x / 2 ^ 60) ∷ hex_from n (x * 2 ^ 4 % 2 ^ 64)

unfoldable pub printptr : ℕ → List ℕ
printptr x = 48 ∷ 120 ∷ hex_from 16 x

-- An argument of printf: a string is `none` for a null pointer.
pub data Arg : Type 0 where
  int_arg : ℤ → Arg
  ptr_arg : ℕ → Arg
  str_arg : Option (List ℕ) → Arg

-- "(null)"
abbrev pub null_text : List ℕ
null_text = 40 ∷ 110 ∷ 117 ∷ 108 ∷ 108 ∷ 41 ∷ []

-- The text of the character c behind a '%', and the arguments left; `none` where va_arg has no argument of
-- the type, which C leaves undefined.
unfoldable pub conversion : ℕ → List Arg → Option (List ℕ × List Arg)
conversion c args =
    if c == 100
    then number 10 args
    else if c == 120
    then number 16 args
    else if c == 112
    then pointer args
    else if c == 115
    then text args
    else if c == 37
    then some (37 ∷ [], args)
    else some (37 ∷ c ∷ [], args)
  where
    number : ℕ → List Arg → Option (List ℕ × List Arg)
    number base (int_arg xx ∷ rest) = elim (printint xx base true) [
      | none ↦ none
      | some cs ↦ some (cs, rest)
    ]
    number base (ptr_arg x ∷ rest) = none
    number base (str_arg s ∷ rest) = none
    number base [] = none

    pointer : List Arg → Option (List ℕ × List Arg)
    pointer (ptr_arg x ∷ rest) = some (printptr x, rest)
    pointer (int_arg x ∷ rest) = none
    pointer (str_arg s ∷ rest) = none
    pointer [] = none

    text : List Arg → Option (List ℕ × List Arg)
    text (str_arg none ∷ rest) = some (null_text, rest)
    text (str_arg (some s) ∷ rest) = some (s, rest)
    text (int_arg x ∷ rest) = none
    text (ptr_arg x ∷ rest) = none
    text [] = none

abbrev pub put_before : List ℕ → Option (List ℕ) → Option (List ℕ)
put_before out none = none
put_before out (some more) = some (out ++ more)

-- The loop of printf, on the characters of the format up to its NUL.
unfoldable pub printf : List ℕ → List Arg → Option (List ℕ)
printf [] args = some []
printf (c ∷ []) args = if c == 37 then some [] else some (c ∷ [])
printf (c ∷ d ∷ cs) args = elim (c == 37) [
  | false ↦ put_before (c ∷ []) (printf (d ∷ cs) args)
  | true ↦ elim (conversion d args) [
    | none ↦ none
    | some (out, rest) ↦ put_before out (printf cs rest)
  ]
]
