-- ===== src/Prelude/Run.antt =====
-- Runs over a state that may panic: `none` is a panic.
use mathlib.Core.Path.{◌≡◌, refl}
use mathlib.Core.Option.{Option, none, some}

abbrev pub Run : Type 0 → Type 0 → Type 0
Run S A = S → Option (A × S)

abbrev pub return : {S A : Type 0} → A → Run S A
return a s = some (a, s)

abbrev pub panic : {S A : Type 0} → Run S A
panic s = none

infixl 5 ◌>>=◌ ◌>>◌
abbrev pub ◌>>=◌ : {S A B : Type 0} → Run S A → (A → Run S B) → Run S B
◌>>=◌ m f s = elim (m s) [ none ↦ none | some (a, s') ↦ f a s' ]

abbrev pub ◌>>◌ : {S A B : Type 0} → Run S A → Run S B → Run S B
m >> k = m >>= λ _. k

abbrev pub get : {S : Type 0} → Run S S
get s = some (s, s)

-- A run that goes on with its second part.
pub bind_some :
    {S A B : Type 0} (m : Run S A) (f : A → Run S B) (s : S) {a : A} {s' : S}
    → m s ≡ some (a, s')
    → (m >>= f) s ≡ f a s'
bind_some m f s h = rw (h, ◌>>=◌) refl
