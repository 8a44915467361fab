-- ===== src/Fs/Directory/Names.antt =====
-- namecmp of kernel/fs.c decides whether two names are equal.
use operating_systems_lab.Prelude.{
  ℕ, zero, suc, ◌+◌, ◌≤◌, ◌<◌, ◌≡◌, refl, sym, ap, ap₂, ◌∙◌, ◌≢◌, ◌↔◌, false, List, [], ◌∷◌, arith,
  ◌==◌, length, get_or, pos,
}
use operating_systems_lab.Strings.{Mem}
use operating_systems_lab.Strings.Compare.{c_string, strncmp_zero_iff}
use operating_systems_lab.Fs.Directory.{dirsiz, two_names, namecmp}

-- A name of at most DIRSIZ characters, none of them NUL.
abbrev pub NoNul : List ℕ → Type 0
NoNul [] = Unit
NoNul (c ∷ cs) = (c ≢ 0) × NoNul cs

pub record IsName (s : List ℕ) : Type 0 where
  pub short : length s ≤ dirsiz
  pub text : NoNul s

-- The array that holds the name, as a C string.
array_string :
    (s : List ℕ) (n p : ℕ) (m : Mem)
    → NoNul s
    → length s ≤ n
    → ((i : ℕ) → i < n → m (p + i) ≡ get_or s i 0)
    → c_string n p m ≡ s
unfolding c_string
array_string [] zero p m t l h = refl
array_string [] (suc n) p m t l h =
    let z : m p ≡ 0 = ap m (omega arith) ∙ h 0 (omega arith) in rw (z, c_string) refl
array_string (c ∷ cs) zero p m t l h = absurd (omega arith)
array_string (c ∷ cs) (suc n) p m t l h =
    let head : m p ≡ c = ap m (omega arith) ∙ h 0 (omega arith) in
    let ne : (c == 0) ≡ false = ground arith in
    let tail =
      array_string cs n (p + 1) m t.1 (omega arith)
        (λ i lt. ap m (omega arith) ∙ h (suc i) (omega arith)) in
    let start : (m p == 0) ≡ false = ap (λ (v : ℕ). v == 0) head ∙ ne in
    rw (start, c_string) (ap₂ (λ (v : ℕ) (u : List ℕ). v ∷ u) head tail)

-- namecmp returns 0 exactly on equal names of at most DIRSIZ characters.
pub namecmp_lem : (s t : List ℕ) → IsName s → IsName t → (namecmp s t ≡ pos 0) ↔ (s ≡ t)
unfolding namecmp
namecmp_lem s t a b =
    let left : c_string dirsiz 0 (two_names s t) ≡ s =
      array_string s dirsiz 0 (two_names s t) a.text a.short (λ i lt. ground arith) in
    let right : c_string dirsiz dirsiz (two_names s t) ≡ t =
      array_string t dirsiz dirsiz (two_names s t) b.text b.short (λ i lt. ground arith) in
    let r = strncmp_zero_iff 0 dirsiz dirsiz (two_names s t) in
    (λ e. sym left ∙ r.0 e ∙ right, λ e. r.1 (left ∙ e ∙ sym right))
