-- ===== src/Console/Input.antt =====
-- The input interrupt of kernel/console.c edits the line as a terminal does.
use operating_systems_lab.Prelude.{
  ℕ, ◌+◌, ◌%◌, ◌<◌, ◌≡◌, refl, sym, ap, ap₂, subst, ◌∙◌, ◌≢◌, inl, inr, Bool, true, false, not,
  ◌&&◌, ◌||◌, List, [], ◌∷◌, ◌++◌, append-nil, append_assoc, arith, ltb, ◌==◌, if◌then◌else◌,
  Bool-cases, length, update,
}
use operating_systems_lab.Console.{
  input_buf, backspace, newline, ctrl, add32, sub32, Cons, consputc, from_return, accept, procdump,
  consoleintr,
}
use operating_systems_lab.Console.Lines.{
  window, NoNewline, AllBytes, terminal, IsValid, enter, key, length-window, window-add,
  window-update_past, window-update_end,
}
use operating_systems_lab.Console.Erase.{
  NoNewline-append, kill_line-eq, kill_line-IsValid, killed-key, line_length, rubbed,
}

buffered :
    (s : Cons) → IsValid s → length (terminal s).ready + length (terminal s).line ≡ sub32 s.e s.r
buffered s v =
    rw (length-window s.buf s.r (sub32 s.w s.r), line_length s)
      (omega (arith, v.r_in, v.w_in, v.e_in, v.bounded))

module _ (c : ℕ) (s : Cons) (v : IsValid s) (byte : c < 256)
    (room : sub32 s.e s.r < input_buf) where
  store_line :
      window (update s.buf (s.e % input_buf) c) s.w (sub32 (add32 s.e 1) s.w)
      ≡ window s.buf s.w (sub32 s.e s.w) ++ c ∷ []
  store_line =
      let more : sub32 (add32 s.e 1) s.w ≡ sub32 s.e s.w + 1 =
        omega (arith, v.r_in, v.w_in, v.e_in, v.bounded, room) in
      ap (λ (n : ℕ). window (update s.buf (s.e % input_buf) c) s.w n) more
      ∙ window-update_end s.buf c (sub32 s.e s.w) s.w s.e v.w_in
          (omega (arith, v.r_in, v.w_in, v.e_in, v.bounded, room)) (omega (arith, v.w_in, v.e_in))

  store_ready :
      window (update s.buf (s.e % input_buf) c) s.r (sub32 s.w s.r)
      ≡ window s.buf s.r (sub32 s.w s.r)
  store_ready =
      window-update_past s.buf c (sub32 s.w s.r) s.r s.e (sub32 s.e s.r) v.r_in
        (omega (arith, v.r_in, v.w_in, v.e_in, v.bounded)) room (omega (arith, v.r_in, v.e_in))

  -- After a whole line, all of the buffer is ready.
  store_all :
      window (update s.buf (s.e % input_buf) c) s.r (sub32 (add32 s.e 1) s.r)
      ≡ window s.buf s.r (sub32 s.w s.r) ++ (window s.buf s.w (sub32 s.e s.w) ++ c ∷ [])
  store_all =
      let both : sub32 (add32 s.e 1) s.r ≡ sub32 s.w s.r + sub32 (add32 s.e 1) s.w =
        omega (arith, v.r_in, v.w_in, v.e_in, v.bounded, room) in
      let at : add32 s.r (sub32 s.w s.r) ≡ s.w = omega (arith, v.r_in, v.w_in) in
      ap (λ (n : ℕ). window (update s.buf (s.e % input_buf) c) s.r n) both
      ∙ window-add (update s.buf (s.e % input_buf) c) s.r (sub32 s.w s.r) (sub32 (add32 s.e 1) s.w)
          v.r_in
      ∙ ap
          (λ (k : ℕ).
            window (update s.buf (s.e % input_buf) c) s.r (sub32 s.w s.r)
            ++ window (update s.buf (s.e % input_buf) c) k (sub32 (add32 s.e 1) s.w))
          at
      ∙ ap₂ (λ (x y : List ℕ). x ++ y) store_ready store_line

  abbrev after_key : Cons
  after_key = record s {
    buf = update s.buf (s.e % input_buf) c;
    e = add32 s.e 1;
    sent = s.sent ++ c ∷ [];
  }

  abbrev ends : Bool
  ends = c == newline || c == ctrl b'D' || add32 s.e 1 == add32 s.r input_buf

  accept-choice :
      accept c s
      ≡ (if ends then record after_key { w = add32 s.e 1; wakeups = s.wakeups + 1 } else after_key)
  unfolding accept consputc
  accept-choice =
      let plain : (c == backspace) ≡ false = ground (arith, byte) in
      let low : c % 256 ≡ c = omega (arith, byte) in rw (plain, low) refl

  ends_iff :
      (length (terminal s).ready + length (terminal s).line + 1 == input_buf)
      ≡ (add32 s.e 1 == add32 s.r input_buf)
  ends_iff = rw (buffered s v) (ground (arith, v.r_in, v.e_in, room))

  ended-Follows :
      (ends ≡ true)
      → IsValid (record after_key { w = add32 s.e 1; wakeups = s.wakeups + 1 })
        × (terminal (record after_key { w = add32 s.e 1; wakeups = s.wakeups + 1 })
            ≡ enter c (terminal s))
  ended-Follows h =
      let gone : sub32 (add32 s.e 1) (add32 s.e 1) ≡ 0 = omega arith in
      let known : (c == newline
            || c == ctrl b'D'
            || length (terminal s).ready + length (terminal s).line + 1 == input_buf)
          ≡ true =
        ap (λ (b : Bool). c == newline || c == ctrl b'D' || b) ends_iff ∙ h in
      (
        record {
          r_in = v.r_in;
          w_in = omega arith;
          e_in = omega arith;
          bounded = omega (arith, gone, v.r_in, v.e_in, room);
          edited =
              subst
                (λ (n : ℕ). NoNewline (window (update s.buf (s.e % input_buf) c) (add32 s.e 1) n))
                (sym gone) tt;
        },
        rw (known, store_all, gone) refl,
      )

  edited-Follows : (ends ≡ false) → IsValid after_key × (terminal after_key ≡ enter c (terminal s))
  edited-Follows h =
      let known : (c == newline
            || c == ctrl b'D'
            || length (terminal s).ready + length (terminal s).line + 1 == input_buf)
          ≡ false =
        ap (λ (b : Bool). c == newline || c == ctrl b'D' || b) ends_iff ∙ h in
      let ordinary : c ≢ newline = ground (arith, h) in
      (
        record {
          r_in = v.r_in;
          w_in = v.w_in;
          e_in = omega arith;
          bounded = omega (arith, v.r_in, v.w_in, v.e_in, v.bounded, room);
          edited = subst NoNewline (sym store_line) (NoNewline-append _ c v.edited ordinary);
        },
        rw (known, store_ready, store_line) refl,
      )

  accept-Follows : IsValid (accept c s) × (terminal (accept c s) ≡ enter c (terminal s))
  accept-Follows = elim (Bool-cases ends) [
    | inl h ↦ rw (accept-choice, h) (ended-Follows h)
    | inr h ↦ rw (accept-choice, h) (edited-Follows h)
  ]

procdump-eq :
    (text : List ℕ) (s : Cons)
    → AllBytes text
    → procdump text s ≡ record s { sent = s.sent ++ text }
unfolding procdump consputc
procdump-eq [] s h = ap (λ (l : List ℕ). record s { sent = l }) (sym (append-nil s.sent))
procdump-eq (c ∷ cs) s h =
    let byte : c < 256 = h.0 in
    let plain : (c == backspace) ≡ false = ground (arith, byte) in
    let low : c % 256 ≡ c = omega (arith, byte) in
    rw (plain, low)
      (procdump-eq cs (record s { sent = s.sent ++ c ∷ [] }) h.1
        ∙ ap (λ (l : List ℕ). record s { sent = l }) (append_assoc s.sent (c ∷ []) cs))

-- A key on a valid buffer, for a byte, keeps the buffer valid and does to the input that is ready, to the
-- line, to the screen and to the count of wakeups what it does on a terminal: ^P writes the process
-- list, of bytes, to the screen, ^U rubs the line out, ^H and DEL its last character; another key is echoed and goes to the end of the line if there
-- is room, a return as a newline, and makes the line ready, with a wakeup, if it is a newline or ^D or
-- fills the buffer.
pub consoleintr_lem :
    (text : List ℕ) (c : ℕ) (s : Cons)
    → AllBytes text
    → c < 256
    → IsValid s
    → IsValid (consoleintr text c s) × (terminal (consoleintr text c s) ≡ key text c (terminal s))
unfolding consoleintr
consoleintr_lem text c s printed byte v = elim (Bool-cases (c == ctrl b'P')) [
  | inl h ↦
      rw (h, procdump-eq text (record s { dumps = s.dumps + 1 }) printed)
        (
          record {
            r_in = v.r_in;
            w_in = v.w_in;
            e_in = v.e_in;
            bounded = v.bounded;
            edited = v.edited;
          },
          refl,
        )
  | inr not_p ↦ elim (Bool-cases (c == ctrl b'U')) [
    | inl h ↦
        rw (not_p, h, kill_line-eq (sub32 s.e s.w) s v refl) (kill_line-IsValid s v, killed-key s)
    | inr not_u ↦ elim (Bool-cases (c == ctrl b'H' || c == 127)) [
      | inl h ↦ rw (not_p, not_u, h) (rubbed s v)
      | inr not_h ↦ elim (Bool-cases (not (c == 0) && ltb (sub32 s.e s.r) input_buf)) [
        | inl h ↦
            let key_byte : from_return c < 256 = ground arith in
            let room : sub32 s.e s.r < input_buf = ground (arith, h) in
            let known : (not (c == 0)
                  && ltb (length (terminal s).ready + length (terminal s).line) input_buf)
                ≡ true =
              ap (λ (n : ℕ). not (c == 0) && ltb n input_buf) (buffered s v) ∙ h in
            rw (not_p, not_u, not_h, h, known) (accept-Follows (from_return c) s v key_byte room)
        | inr h ↦
            let known : (not (c == 0)
                  && ltb (length (terminal s).ready + length (terminal s).line) input_buf)
                ≡ false =
              ap (λ (n : ℕ). not (c == 0) && ltb n input_buf) (buffered s v) ∙ h in
            rw (not_p, not_u, not_h, h, known) (v, refl)
      ]
    ]
  ]
]
