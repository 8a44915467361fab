-- ===== src/Console/Lines.antt =====
-- What the line buffer of kernel/console.c stands for: the input that may be read, and the line that is
-- still edited. The indices run over at 2 ^ 32, a multiple of INPUT_BUF.
use operating_systems_lab.Prelude.{
  ℕ, zero, suc, ◌+◌, ◌%◌, ◌^◌, ◌≤◌, ◌<◌, min, ◌≡◌, refl, sym, ap, ap₂, ◌∙◌, ◌≢◌, not, ◌&&◌, ◌||◌,
  List, [], ◌∷◌, ◌++◌, arith, ltb, ◌==◌, if◌then◌else◌, length, update, update_self, update_ne,
}
use operating_systems_lab.Console.{input_buf, newline, ctrl, from_return, add32, sub32, Cons}

-- The n characters from index h on.
abbrev pub window : (ℕ → ℕ) → ℕ → ℕ → List ℕ
window b h zero = []
window b h (suc n) = b (h % input_buf) ∷ window b (add32 h 1) n

abbrev pub NoNewline : List ℕ → Type 0
NoNewline [] = Unit
NoNewline (x ∷ xs) = (x ≢ newline) × NoNewline xs

-- The terminal as the user sees it, and how often readers were woken.
pub record Terminal : Type 0 where
  pub ready : List ℕ
  pub line : List ℕ
  pub screen : List ℕ
  pub wakeups : ℕ

abbrev pub terminal : Cons → Terminal
terminal s = record {
  ready = window s.buf s.r (sub32 s.w s.r);
  line = window s.buf s.w (sub32 s.e s.w);
  screen = s.sent;
  wakeups = s.wakeups;
}

pub record IsValid (s : Cons) : Type 0 where
  pub r_in : s.r < 2 ^ 32
  pub w_in : s.w < 2 ^ 32
  pub e_in : s.e < 2 ^ 32
  pub bounded : sub32 s.w s.r + sub32 s.e s.w ≤ input_buf
  pub edited : NoNewline (window s.buf s.w (sub32 s.e s.w))

-- A line without its last character, and what deletes n characters from the screen.
abbrev pub drop_last : List ℕ → List ℕ
drop_last [] = []
drop_last (x ∷ []) = []
drop_last (x ∷ y ∷ ys) = x ∷ drop_last (y ∷ ys)

abbrev pub rub_out : ℕ → List ℕ
rub_out zero = []
rub_out (suc n) = 8 ∷ 32 ∷ 8 ∷ rub_out n

-- A key that is stored: the line, with it, becomes ready if the key ends the line or the buffer is full.
abbrev pub enter : ℕ → Terminal → Terminal
enter c t =
    if c == newline || c == ctrl b'D' || length t.ready + length t.line + 1 == input_buf
    then record {
      ready = t.ready ++ (t.line ++ c ∷ []);
      line = [];
      screen = t.screen ++ c ∷ [];
      wakeups = t.wakeups + 1;
    }
    else record t { line = t.line ++ c ∷ []; screen = t.screen ++ c ∷ [] }

abbrev pub AllBytes : List ℕ → Type 0
AllBytes [] = Unit
AllBytes (x ∷ xs) = (x < 256) × AllBytes xs

-- What a key does to the terminal; `text` is the process list.
abbrev pub key : List ℕ → ℕ → Terminal → Terminal
key text c t =
    if c == ctrl b'P'
    then record t { screen = t.screen ++ text }
    else if c == ctrl b'U'
    then record t { line = []; screen = t.screen ++ rub_out (length t.line) }
    else if c == ctrl b'H' || c == 127
    then record t { line = drop_last t.line; screen = t.screen ++ rub_out (min 1 (length t.line)) }
    else if not (c == 0) && ltb (length t.ready + length t.line) input_buf
    then enter (from_return c) t
    else t

pub length-window : (b : ℕ → ℕ) (h n : ℕ) → length (window b h n) ≡ n
length-window b h zero = refl
length-window b h (suc n) = ap suc (length-window b (add32 h 1) n)

pub window-add :
    (b : ℕ → ℕ) (h m n : ℕ)
    → h < 2 ^ 32
    → window b h (m + n) ≡ window b h m ++ window b (add32 h m) n
window-add b h zero n lt =
    let z : 0 + n ≡ n = omega arith in let y : add32 h 0 ≡ h = omega arith in rw (z, y) refl
window-add b h (suc m) n lt =
    let z : suc m + n ≡ suc (m + n) = omega arith in
    let y : add32 (add32 h 1) m ≡ add32 h (suc m) = omega arith in
    rw z (
      ap (λ (u : List ℕ). b (h % input_buf) ∷ u)
        (window-add b (add32 h 1) m n (omega arith)
          ∙ ap (λ (k : ℕ). window b (add32 h 1) m ++ window b k n) y))

-- A change just past a window, or further on, leaves it.
pub window-update_past :
    (b : ℕ → ℕ) (x n h w k : ℕ)
    → h < 2 ^ 32
    → n ≤ k
    → k < input_buf
    → w ≡ add32 h k
    → window (update b (w % input_buf) x) h n ≡ window b h n
window-update_past b x zero h w k lt le small e = refl
window-update_past b x (suc n) h w zero lt le small e = absurd (omega arith)
window-update_past b x (suc n) h w (suc k) lt le small e =
    ap₂ (λ (v : ℕ) (u : List ℕ). v ∷ u)
      (update_ne b (w % input_buf) x (h % input_buf) (omega arith))
      (window-update_past b x n (add32 h 1) w k (omega arith) (omega arith) (omega arith)
        (omega arith))

-- A change just past a window that leaves room extends it.
pub window-update_end :
    (b : ℕ → ℕ) (x n h w : ℕ)
    → h < 2 ^ 32
    → n < input_buf
    → w ≡ add32 h n
    → window (update b (w % input_buf) x) h (n + 1) ≡ window b h n ++ x ∷ []
window-update_end b x n h w lt small e =
    window-add (update b (w % input_buf) x) h n 1 lt
    ∙ ap₂ (λ (u v : List ℕ). u ++ v) (window-update_past b x n h w n lt (omega arith) small e)
        (ap (λ (v : ℕ). v ∷ [])
          (ap (λ (k : ℕ). update b (w % input_buf) x (k % input_buf)) (sym e)
            ∙ update_self b (w % input_buf) x))
