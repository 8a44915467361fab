-- ===== src/Fs/Path/Elements.antt =====
-- skipelem of kernel/fs.c splits a path.
use operating_systems_lab.Prelude.{
  ℕ, ◌<◌, ◌≡◌, refl, sym, ap, subst, ◌∙◌, ◌≢◌, inl, inr, false, Option, none, some, List, [], ◌∷◌,
  ◌++◌, append-nil, arith, ◌==◌, ==_iff, Bool-cases, length, take,
}
use operating_systems_lab.Fs.Directory.{dirsiz}
use operating_systems_lab.Fs.Path.{slash, skip_slashes, span_elem, skipelem}

abbrev AllSlashes : List ℕ → Type 0
AllSlashes [] = Unit
AllSlashes (c ∷ cs) = (c ≡ slash) × AllSlashes cs

abbrev NoSlash : List ℕ → Type 0
NoSlash [] = Unit
NoSlash (c ∷ cs) = (c ≢ slash) × NoSlash cs

-- The list is empty or starts with another character than a slash.
abbrev Trimmed : List ℕ → Type 0
Trimmed [] = Unit
Trimmed (c ∷ cs) = c ≢ slash

-- A slash, or the end, comes first.
abbrev Stops : List ℕ → Type 0
Stops [] = Unit
Stops (c ∷ cs) = c ≡ slash

skip_slashes_lem :
    (p : List ℕ)
    → (pre : List ℕ) × AllSlashes pre × (p ≡ pre ++ skip_slashes p) × Trimmed (skip_slashes p)
unfolding skip_slashes
skip_slashes_lem [] = ([], tt, refl, tt)
skip_slashes_lem (c ∷ cs) = elim (Bool-cases (c == slash)) [
  | inl hit ↦
      let r = skip_slashes_lem cs in
      rw hit (c ∷ r.0, ((==_iff c slash).0 hit, r.1), ap (λ (t : List ℕ). c ∷ t) r.2, r.3)
  | inr miss ↦ rw miss ([], tt, refl, ground arith)
]

span_elem_lem :
    (p : List ℕ)
    → (p ≡ (span_elem p).0 ++ (span_elem p).1) × NoSlash (span_elem p).0 × Stops (span_elem p).1
unfolding span_elem
span_elem_lem [] = (refl, tt, tt)
span_elem_lem (c ∷ cs) = elim (Bool-cases (c == slash)) [
  | inl hit ↦ rw hit (refl, tt, ground arith)
  | inr miss ↦
      let r = span_elem_lem cs in rw miss (ap (λ (t : List ℕ). c ∷ t) r.0, (ground arith, r.1), r.2)
]

-- How skipelem takes a path apart.
pub data Split (p : List ℕ) : Option (List ℕ × List ℕ) → Type 0 where
  no_elem : AllSlashes p → Split p none
  elem :
      (pre name mid rest : List ℕ)
      → p ≡ pre ++ (name ++ (mid ++ rest))
      → AllSlashes pre
      → NoSlash name
      → 0 < length name
      → AllSlashes mid
      → Stops (mid ++ rest)
      → Trimmed rest
      → Split p (some (take dirsiz name, rest))

-- skipelem after its first loop.
abbrev from_elem : List ℕ → Option (List ℕ × List ℕ)
from_elem [] = none
from_elem (c ∷ cs) = some (take dirsiz (span_elem (c ∷ cs)).0, skip_slashes (span_elem (c ∷ cs)).1)

span_elem-nonempty : (c : ℕ) (cs : List ℕ) → c ≢ slash → 0 < length (span_elem (c ∷ cs)).0
unfolding span_elem
span_elem-nonempty c cs ne = let miss : (c == slash) ≡ false = ground arith in rw miss (omega arith)

from_elem-Split :
    (p pre q : List ℕ) → AllSlashes pre → p ≡ pre ++ q → Trimmed q → Split p (from_elem q)
from_elem-Split p pre [] a e t = no_elem (subst AllSlashes (sym (e ∙ append-nil pre)) a)
from_elem-Split p pre (c ∷ cs) a e t =
    let word = span_elem_lem (c ∷ cs) in
    let gap = skip_slashes_lem (span_elem (c ∷ cs)).1 in
    elem pre (span_elem (c ∷ cs)).0 gap.0 (skip_slashes (span_elem (c ∷ cs)).1)
      (e
        ∙ ap (λ (u : List ℕ). pre ++ u)
            (word.0 ∙ ap (λ (u : List ℕ). (span_elem (c ∷ cs)).0 ++ u) gap.2))
      a word.1 (span_elem-nonempty c cs t) gap.1 (subst Stops gap.2 word.2) gap.3

-- skipelem finds no element exactly in a path of slashes. Else the path is slashes, an element without
-- slashes, slashes and a rest that starts with none; it returns the element, cut to DIRSIZ characters,
-- and the rest, and the element ends where a slash or the path's end is.
pub skipelem_lem : (p : List ℕ) → Split p (skipelem p)
unfolding skipelem
skipelem_lem p =
    let first = skip_slashes_lem p in
    subst (λ (r : Option (List ℕ × List ℕ)). Split p r) (from_elem-eq (skip_slashes p))
      (from_elem-Split p first.0 (skip_slashes p) first.1 first.2 first.3)
  where
    from_elem-eq :
        (q : List ℕ)
        → from_elem q ≡ elim q [
          | [] ↦ none
          | c ∷ cs ↦ let r = span_elem (c ∷ cs) in some (take dirsiz r.0, skip_slashes r.1)
        ]
    from_elem-eq [] = refl
    from_elem-eq (c ∷ cs) = refl
