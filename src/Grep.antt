-- ===== src/Grep.antt =====
-- The matcher of user/grep.c. Pattern and text are C strings, as the list of their characters before the
-- NUL: where the code reads the NUL, the list is at its end.
pub mod Language
pub mod Correct
mod Tests
use operating_systems_lab.Prelude.{
  ℕ, zero, suc, ◌+◌, ◌-◌, ◌*◌, ◌/◌, ◌%◌, ◌^◌, ◌≤◌, ◌<◌, min, ◌≡◌, refl, sym, ap, ap₂, subst, ◌∙◌,
  fun_ext, ◌≢◌, ◌↔◌, ◌⊎◌, inl, inr, Bool, true, false, not, ◌&&◌, ◌||◌, Option, none, some, List,
  [], ◌∷◌, ◌++◌, map, append-nil, append_assoc, arith, ltb, leb, ◌==◌, if◌then◌else◌, ltb→lt,
  lt→ltb, leb→le, ==_iff, tests, Bool-cases, Option-cases, from_next, true_ne_false, length,
  get_elem?, set, length-append, length-set, get_elem?-set_self, get_elem?-set_ne, get_or, take,
  drop, replicate, take-append-drop, length-take, length-drop, length-replicate, length-map, ℤ,
  minus_one, sub_ℕ, sub_ℕ-eq-zero, sub_ℕ-self, pos, negsuc, update, update_self, update_ne,
  update_same,
}

abbrev pub star : ℕ
star = 42

abbrev pub dollar : ℕ
dollar = 36

abbrev pub dot : ℕ
dot = 46

abbrev pub caret : ℕ
caret = 94

-- *text == '\0'.
abbrev pub at_end : List ℕ → Bool
at_end [] = true
at_end (t ∷ ts) = false

-- The loop of matchstar; `here` is matchhere of the rest of the pattern.
unfoldable pub matchstar : ℕ → (List ℕ → Bool) → List ℕ → Bool
matchstar c here [] = here []
matchstar c here (t ∷ ts) = elim (here (t ∷ ts)) [
  | true ↦ true
  | false ↦ elim (t == c || c == dot) [ true ↦ matchstar c here ts | false ↦ false ]
]

-- The last test of matchhere, for the character c of the pattern.
unfoldable pub match_one : ℕ → (List ℕ → Bool) → List ℕ → Bool
match_one c here [] = false
match_one c here (t ∷ ts) = if c == dot || c == t then here ts else false

unfoldable pub matchhere : List ℕ → List ℕ → Bool
unfolding matchstar match_one
matchhere [] text = true
matchhere (c ∷ []) text = if c == dollar then at_end text else match_one c (λ rest. true) text
matchhere (c ∷ d ∷ re) text =
    if d == star then matchstar c (matchhere re) text else match_one c (matchhere (d ∷ re)) text

-- The loop of match.
unfoldable pub match_from : List ℕ → List ℕ → Bool
unfolding matchhere
match_from re [] = matchhere re []
match_from re (t ∷ ts) = elim (matchhere re (t ∷ ts)) [ true ↦ true | false ↦ match_from re ts ]

unfoldable pub match : List ℕ → List ℕ → Bool
unfolding match_from
match [] text = match_from [] text
match (c ∷ re) text = if c == caret then matchhere re text else match_from (c ∷ re) text
