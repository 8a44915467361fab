-- ===== src/Grep/Correct.antt =====
-- The matcher of user/grep.c finds exactly the texts of the pattern.
use operating_systems_lab.Prelude.{
  ℕ, ◌≡◌, refl, ap, ◌↔◌, inl, inr, Bool, true, ◌||◌, List, [], ◌∷◌, ◌++◌, arith, ◌==◌, Bool-cases,
}
use operating_systems_lab.Grep.{
  star, dollar, dot, caret, at_end, matchstar, match_one, matchhere, match_from, match,
}
use operating_systems_lab.Grep.Language.{items, Accepts, AllAccepted, Starts, Contains, Matches}

accepted_iff : (c t : ℕ) → ((c == dot || c == t) ≡ true) ↔ Accepts c t
accepted_iff c t = ground arith

-- A test that decides a predicate of texts.
abbrev Decides : (List ℕ → Bool) → (List ℕ → Type 0) → Type 0
Decides here P = (text : List ℕ) → (here text ≡ true) ↔ P text

at_end_iff : Decides at_end (λ text. text ≡ [])
at_end_iff [] = (λ e. refl, λ e. refl)
at_end_iff (t ∷ ts) = (λ e. cc, λ e. cc)

module _ (c : ℕ) (here : List ℕ → Bool) (P : List ℕ → Type 0) (decides : Decides here P) where
  abbrev One : List ℕ → Type 0
  One text = (t : ℕ) × (rest : List ℕ) × (text ≡ t ∷ rest) × Accepts c t × P rest

  abbrev Run : List ℕ → Type 0
  Run text = (run : List ℕ) × (rest : List ℕ) × (text ≡ run ++ rest) × AllAccepted c run × P rest

  match_one-One : (text : List ℕ) → match_one c here text ≡ true → One text
  unfolding match_one
  match_one-One [] e = absurd cc
  match_one-One (t ∷ ts) e = elim (Bool-cases (c == dot || c == t)) [
    | inl hit ↦ (t, ts, refl, (accepted_iff c t).0 hit, (decides ts).0 (ground (arith, e, hit)))
    | inr miss ↦ absurd (ground (arith, e, miss))
  ]

  One-match_one :
      (text : List ℕ) (t : ℕ) (rest : List ℕ)
      → text ≡ t ∷ rest
      → Accepts c t
      → P rest
      → match_one c here text ≡ true
  unfolding match_one
  One-match_one text t rest e a p = rw (e, (accepted_iff c t).1 a) ((decides rest).1 p)

  matchstar-Run : (text : List ℕ) → matchstar c here text ≡ true → Run text
  unfolding matchstar
  matchstar-Run [] h = ([], [], refl, tt, (decides []).0 h)
  matchstar-Run (t ∷ ts) h = elim (Bool-cases (here (t ∷ ts))) [
    | inl now ↦ ([], t ∷ ts, refl, tt, (decides (t ∷ ts)).0 now)
    | inr later ↦ elim (Bool-cases (t == c || c == dot)) [
      | inl hit ↦
          let r = matchstar-Run ts (ground (arith, h, later, hit)) in
          (t ∷ r.0, r.1, ap (λ (u : List ℕ). t ∷ u) r.2, (ground (arith, hit), r.3), r.4)
      | inr miss ↦ absurd (ground (arith, h, later, miss))
    ]
  ]

  Run-matchstar :
      (run rest : List ℕ) → AllAccepted c run → P rest → matchstar c here (run ++ rest) ≡ true
  unfolding matchstar
  Run-matchstar [] [] a p = (decides []).1 p
  Run-matchstar [] (t ∷ ts) a p = rw ((decides (t ∷ ts)).1 p, matchstar) refl
  Run-matchstar (t ∷ ts) rest a p = elim (Bool-cases (here (t ∷ (ts ++ rest)))) [
    | inl now ↦ rw (now, matchstar) refl
    | inr later ↦
        let ok : (t == c || c == dot) ≡ true = ground (arith, a.0) in
        rw (later, ok, matchstar) (Run-matchstar ts rest a.1 p)
  ]

matchhere_iff : (re : List ℕ) → Decides (matchhere re) (Starts (items re))
unfolding matchhere items Starts
matchhere_iff [] text = (λ e. tt, λ u. refl)
matchhere_iff (c ∷ []) text = elim (Bool-cases (c == dollar)) [
  | inl last ↦ rw last (at_end_iff text)
  | inr miss ↦ rw miss (
    match_one-One c (λ rest. true) (λ rest. Unit) (λ rest. (λ e. tt, λ u. refl)) text,
    λ (t, rest, e, a, p).
        One-match_one c (λ rest. true) (λ rest. Unit) (λ rest. (λ e. tt, λ u. refl)) text t rest e a
          p,
  )
]
matchhere_iff (c ∷ d ∷ re) text = elim (Bool-cases (d == star)) [
  | inl hit ↦ rw hit (
    matchstar-Run c (matchhere re) (Starts (items re)) (matchhere_iff re) text,
    λ (run, rest, e, a, p).
        rw e (Run-matchstar c (matchhere re) (Starts (items re)) (matchhere_iff re) run rest a p),
  )
  | inr miss ↦ rw miss (
    match_one-One c (matchhere (d ∷ re)) (Starts (items (d ∷ re))) (matchhere_iff (d ∷ re)) text,
    λ (t, rest, e, a, p).
        One-match_one c (matchhere (d ∷ re)) (Starts (items (d ∷ re))) (matchhere_iff (d ∷ re)) text
          t rest e a p,
  )
]

match_from-Contains : (re text : List ℕ) → match_from re text ≡ true → Contains (items re) text
unfolding match_from Contains
match_from-Contains re [] h = ([], [], refl, (matchhere_iff re []).0 h)
match_from-Contains re (t ∷ ts) h = elim (Bool-cases (matchhere re (t ∷ ts))) [
  | inl now ↦ ([], t ∷ ts, refl, (matchhere_iff re (t ∷ ts)).0 now)
  | inr later ↦
      let r = match_from-Contains re ts (ground (arith, h, later)) in
      (t ∷ r.0, r.1, ap (λ (u : List ℕ). t ∷ u) r.2, r.3)
]

Starts-match_from :
    (re before rest : List ℕ) → Starts (items re) rest → match_from re (before ++ rest) ≡ true
unfolding match_from
Starts-match_from re [] [] s = (matchhere_iff re []).1 s
Starts-match_from re [] (t ∷ ts) s = rw ((matchhere_iff re (t ∷ ts)).1 s, match_from) refl
Starts-match_from re (t ∷ ts) rest s = elim (Bool-cases (matchhere re (t ∷ (ts ++ rest)))) [
  | inl now ↦ rw (now, match_from) refl
  | inr later ↦ rw (later, match_from) (Starts-match_from re ts rest s)
]

match_from_iff : (re text : List ℕ) → (match_from re text ≡ true) ↔ Contains (items re) text
unfolding Contains
match_from_iff re text =
    (match_from-Contains re text, λ (before, rest, e, s). rw e (Starts-match_from re before rest s))

-- match returns 1 exactly for a text that has a text of the pattern in it, or starts with one where the
-- pattern starts with `^`; `.` stands for any character, `c*` for any number of characters c, and `$` at
-- the end of the pattern for the end of the text.
pub match_iff : (re text : List ℕ) → (match re text ≡ true) ↔ Matches re text
unfolding match Matches
match_iff [] text = match_from_iff [] text
match_iff (c ∷ re) text = elim (Bool-cases (c == caret)) [
  | inl anchored ↦ rw anchored (matchhere_iff re text)
  | inr miss ↦ rw miss (match_from_iff (c ∷ re) text)
]
