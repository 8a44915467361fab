-- ===== src/Grep/Language.antt =====
-- What a pattern of user/grep.c means, apart from how it is matched.
use operating_systems_lab.Prelude.{ℕ, ◌≡◌, ◌⊎◌, List, [], ◌∷◌, ◌++◌, ◌==◌, if◌then◌else◌}
use operating_systems_lab.Grep.{star, dollar, dot, caret}

-- A character once, a character any number of times, or the end of the text.
pub data Item : Type 0 where
  once : ℕ → Item
  many : ℕ → Item
  end : Item

-- The items of a pattern without its `^`.
unfoldable pub items : List ℕ → List Item
items [] = []
items (c ∷ []) = if c == dollar then end ∷ [] else once c ∷ []
items (c ∷ d ∷ re) = if d == star then many c ∷ items re else once c ∷ items (d ∷ re)

-- The character c of a pattern stands for t.
abbrev pub Accepts : ℕ → ℕ → Type 0
Accepts c t = (c ≡ dot) ⊎ (c ≡ t)

abbrev pub AllAccepted : ℕ → List ℕ → Type 0
AllAccepted c [] = Unit
AllAccepted c (t ∷ ts) = Accepts c t × AllAccepted c ts

-- A text starts with a text of the items.
unfoldable pub Starts : List Item → List ℕ → Type 0
Starts [] text = Unit
Starts (once c ∷ is) text =
    (t : ℕ) × (rest : List ℕ) × (text ≡ t ∷ rest) × Accepts c t × Starts is rest
Starts (many c ∷ is) text =
    (run : List ℕ) × (rest : List ℕ) × (text ≡ run ++ rest) × AllAccepted c run × Starts is rest
Starts (end ∷ is) text = text ≡ []

-- A text has a text of the items in it, or starts with it if the pattern starts with `^`.
unfoldable pub Contains : List Item → List ℕ → Type 0
unfolding Starts
Contains is text = (before : List ℕ) × (rest : List ℕ) × (text ≡ before ++ rest) × Starts is rest

unfoldable pub Matches : List ℕ → List ℕ → Type 0
unfolding items Starts Contains
Matches [] text = Contains [] text
Matches (c ∷ re) text =
    if c == caret then Starts (items re) text else Contains (items (c ∷ re)) text
