-- ===== src/Console/Erase.antt =====
-- The keys of kernel/console.c that take characters off the line.
use operating_systems_lab.Prelude.{
  ℕ, zero, suc, ◌+◌, ◌-◌, ◌%◌, min, ◌≡◌, refl, sym, ap, ap₂, subst, ◌∙◌, ◌≢◌, inl, inr, true, false,
  not, ◌&&◌, List, [], ◌∷◌, ◌++◌, append-nil, append_assoc, arith, ◌==◌, if◌then◌else◌, Bool-cases,
  length,
}
use operating_systems_lab.Console.{
  input_buf, newline, add32, sub32, Cons, consputc, erase, kill_line,
}
use operating_systems_lab.Console.Lines.{
  window, NoNewline, terminal, IsValid, drop_last, rub_out, length-window, window-add,
}

drop_last-append : (xs : List ℕ) (x : ℕ) → drop_last (xs ++ x ∷ []) ≡ xs
drop_last-append [] x = refl
drop_last-append (y ∷ []) x = refl
drop_last-append (y ∷ z ∷ zs) x = ap (λ (u : List ℕ). y ∷ u) (drop_last-append (z ∷ zs) x)

NoNewline-split : (xs : List ℕ) (x : ℕ) → NoNewline (xs ++ x ∷ []) → NoNewline xs × (x ≢ newline)
NoNewline-split [] x h = (tt, h.0)
NoNewline-split (y ∷ ys) x h = let r = NoNewline-split ys x h.1 in ((h.0, r.0), r.1)

pub NoNewline-append : (xs : List ℕ) (x : ℕ) → NoNewline xs → x ≢ newline → NoNewline (xs ++ x ∷ [])
NoNewline-append [] x h ne = (ne, tt)
NoNewline-append (y ∷ ys) x h ne = (h.0, NoNewline-append ys x h.1 ne)

-- A line of m + 1 characters: all but the last, and the last.
module _ (s : Cons) (v : IsValid s) (m : ℕ) (full : sub32 s.e s.w ≡ m + 1) where
  line_split :
      window s.buf s.w (sub32 s.e s.w) ≡ window s.buf s.w m ++ s.buf (sub32 s.e 1 % input_buf) ∷ []
  line_split =
      let at : add32 s.w m ≡ sub32 s.e 1 = omega (arith, v.w_in, v.e_in) in
      ap (λ (n : ℕ). window s.buf s.w n) full
      ∙ window-add s.buf s.w m 1 v.w_in
      ∙ ap (λ (k : ℕ). window s.buf s.w m ++ s.buf (k % input_buf) ∷ []) at

  line_parts : NoNewline (window s.buf s.w m) × (s.buf (sub32 s.e 1 % input_buf) ≢ newline)
  line_parts = NoNewline-split _ _ (subst NoNewline line_split v.edited)

  shorter : sub32 (sub32 s.e 1) s.w ≡ m
  shorter = omega (arith, v.w_in, v.e_in)

  erase-eq : erase s ≡ record s { e = sub32 s.e 1; sent = s.sent ++ 8 ∷ 32 ∷ 8 ∷ [] }
  unfolding erase consputc
  erase-eq = refl

  erase-IsValid : IsValid (erase s)
  unfolding erase consputc
  erase-IsValid = record {
    r_in = v.r_in;
    w_in = v.w_in;
    e_in = omega arith;
    bounded = omega (arith, shorter, v.bounded);
    edited = subst (λ (n : ℕ). NoNewline (window s.buf s.w n)) (sym shorter) line_parts.0;
  }

  erase-key : terminal (erase s) ≡ record (terminal s) {
    line = drop_last (terminal s).line;
    screen = s.sent ++ 8 ∷ 32 ∷ 8 ∷ [];
  }
  unfolding erase consputc
  erase-key =
      ap (λ (l : List ℕ). record (terminal s) { line = l; screen = s.sent ++ 8 ∷ 32 ∷ 8 ∷ [] })
        (ap (λ (n : ℕ). window s.buf s.w n) shorter
          ∙ sym (drop_last-append _ _)
          ∙ ap drop_last (sym line_split))

kill_line-next :
    (n : ℕ) (s : Cons)
    → (not (s.e == s.w) && not (s.buf (sub32 s.e 1 % input_buf) == newline)) ≡ true
    → kill_line (suc n) s ≡ kill_line n (erase s)
unfolding kill_line
kill_line-next n s h = rw (h, kill_line) refl

pub kill_line-eq :
    (n : ℕ) (s : Cons)
    → IsValid s
    → sub32 s.e s.w ≡ n
    → kill_line n s ≡ record s { e = s.w; sent = s.sent ++ rub_out n }
unfolding kill_line erase consputc
kill_line-eq zero s v h =
    let at : s.e ≡ s.w = omega (arith, v.w_in, v.e_in) in
    ap₂ (λ (e : ℕ) (l : List ℕ). record s { e = e; sent = l }) at (sym (append-nil s.sent))
kill_line-eq (suc n) s v h =
    let full : sub32 s.e s.w ≡ n + 1 = omega arith in
    let some_left : (s.e == s.w) ≡ false = ground (arith, v.w_in, v.e_in) in
    let in_line : (s.buf (sub32 s.e 1 % input_buf) == newline) ≡ false =
      ground (arith, (line_parts s v n full).1) in
    kill_line-next n s (rw (some_left, in_line) refl)
    ∙ kill_line-eq n (erase s) (erase-IsValid s v n full) (shorter s v n full)
    ∙ ap (λ (l : List ℕ). record s { e = s.w; sent = l })
        (append_assoc s.sent (8 ∷ 32 ∷ 8 ∷ []) (rub_out n))

-- ^U.
pub kill_line-IsValid :
    (s : Cons)
    → IsValid s
    → IsValid (record s { e = s.w; sent = s.sent ++ rub_out (sub32 s.e s.w) })
kill_line-IsValid s v =
    let gone : sub32 s.w s.w ≡ 0 = omega arith in
    record {
      r_in = v.r_in;
      w_in = v.w_in;
      e_in = v.w_in;
      bounded = omega (arith, gone, v.bounded);
      edited = subst (λ (n : ℕ). NoNewline (window s.buf s.w n)) (sym gone) tt;
    }

pub killed-key :
    (s : Cons)
    → terminal (record s { e = s.w; sent = s.sent ++ rub_out (sub32 s.e s.w) })
      ≡ record (terminal s) {
        line = [];
        screen = s.sent ++ rub_out (length (window s.buf s.w (sub32 s.e s.w)));
      }
killed-key s =
    let gone : sub32 s.w s.w ≡ 0 = omega arith in
    rw (gone, length-window s.buf s.w (sub32 s.e s.w)) refl

-- The length of the line, and of all that is in the buffer.
pub line_length : (s : Cons) → length (window s.buf s.w (sub32 s.e s.w)) ≡ sub32 s.e s.w
line_length s = length-window s.buf s.w (sub32 s.e s.w)

-- ^H.
pub rubbed :
    (s : Cons)
    → IsValid s
    → IsValid (if not (s.e == s.w) then erase s else s)
      × (terminal (if not (s.e == s.w) then erase s else s) ≡ record (terminal s) {
        line = drop_last (terminal s).line;
        screen = s.sent ++ rub_out (min 1 (length (terminal s).line));
      })
rubbed s v = elim (Bool-cases (s.e == s.w)) [
  | inl none_left ↦
      let gone : sub32 s.e s.w ≡ 0 = ground (arith, v.e_in) in
      rw (none_left, gone, append-nil s.sent) (v, refl)
  | inr some_left ↦
      let full : sub32 s.e s.w ≡ (sub32 s.e s.w - 1) + 1 = ground (arith, v.w_in, v.e_in) in
      let one : min 1 (length (terminal s).line) ≡ 1 = rw (line_length s) (omega (arith, full)) in
      rw (some_left, one)
        (erase-IsValid s v (sub32 s.e s.w - 1) full, erase-key s v (sub32 s.e s.w - 1) full)
]
