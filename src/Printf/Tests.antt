-- ===== src/Printf/Tests.antt =====
-- The theorems on the digits of printf at concrete inputs, and runs of the code.
use operating_systems_lab.Prelude.{ℕ, ◌≡◌, refl, inl, true, none, some, List, [], ◌∷◌, pos, negsuc}
use operating_systems_lab.Printf.{
  digits_from, in_digits, put_back, buffer, printint, int_arg, str_arg, conversion, printf,
}
use operating_systems_lab.Printf.Digits.{read_int, read-printint}

read-printint_example :
    (cs : List ℕ) × (printint (negsuc 41) 10 true ≡ some cs) × (read_int 10 cs ≡ negsuc 41)
read-printint_example = read-printint 10 (negsuc 41) (inl refl) refl

-- In base 2 an int may need more than buf has, and a base above 16 more digits than there are.
too_long : printint (pos 65536) 2 true ≡ none
unfolding printint buffer digits_from in_digits
too_long = refl

no_digit : printint (pos 16) 17 true ≡ none
unfolding printint buffer digits_from in_digits
no_digit = refl

-- printf("x=%d %s%%\n", -42, 0)
printed :
    printf
      (120 ∷ 61 ∷ 37 ∷ 100 ∷ 32 ∷ 37 ∷ 115 ∷ 37 ∷ 37 ∷ 10 ∷ [])
      (int_arg (negsuc 41) ∷ str_arg none ∷ [])
    ≡ some (120 ∷ 61 ∷ 45 ∷ 52 ∷ 50 ∷ 32 ∷ 40 ∷ 110 ∷ 117 ∷ 108 ∷ 108 ∷ 41 ∷ 37 ∷ 10 ∷ [])
unfolding printf conversion printint put_back buffer digits_from in_digits
printed = refl
