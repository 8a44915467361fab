-- ===== src/Grep/Tests.antt =====
-- The theorem on the matcher of user/grep.c at a concrete pattern, and runs of the matcher.
use operating_systems_lab.Prelude.{ℕ, ◌≡◌, refl, ◌↔◌, true, false, List, [], ◌∷◌}
use operating_systems_lab.Grep.{match_one, matchstar, matchhere, match_from, match}
use operating_systems_lab.Grep.Language.{Matches}
use operating_systems_lab.Grep.Correct.{match_iff}

-- "a.*b$"
abbrev pattern_ab : List ℕ
pattern_ab = 97 ∷ 46 ∷ 42 ∷ 98 ∷ 36 ∷ []

-- "xaccb"
abbrev text_ab : List ℕ
text_ab = 120 ∷ 97 ∷ 99 ∷ 99 ∷ 98 ∷ []

match_iff_example : (match pattern_ab text_ab ≡ true) ↔ Matches pattern_ab text_ab
match_iff_example = match_iff pattern_ab text_ab

pattern_found : match pattern_ab text_ab ≡ true
unfolding match match_from matchhere matchstar match_one
pattern_found = refl

-- With `^` in front, the text would have to start with an `a`.
pattern_anchored : match (94 ∷ pattern_ab) text_ab ≡ false
unfolding match match_from matchhere matchstar match_one
pattern_anchored = refl
