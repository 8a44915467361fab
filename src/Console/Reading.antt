-- ===== src/Console/Reading.antt =====
-- consoleread of kernel/console.c delivers lines of the input that is ready.
use operating_systems_lab.Prelude.{
  ℕ, zero, suc, ◌+◌, ◌-◌, ◌%◌, ◌≤◌, ◌≡◌, refl, sym, ap, ap₂, subst, ◌∙◌, inl, inr, Bool, true,
  false, List, [], ◌∷◌, arith, ltb, ◌==◌, if◌then◌else◌, Bool-cases, length, minus_one, pos, update,
}
use operating_systems_lab.Console.{
  input_buf, newline, ctrl, add32, sub32, Cons, Status, returned, asleep, read_from, consoleread,
}
use operating_systems_lab.Console.Lines.{window, terminal, IsValid}
use operating_systems_lab.Console.Rounds.{
  to_memory, stored, next_char-IsValid, ready-next, put_back, read_from-zero, read_from-dry,
  read_from-eof, read_from-last, read_from-inside,
}

-- What a read of at most n characters takes of the input: the characters, the input that is left, and
-- whether the read is over. `started` says that it has characters already; then a ^D stays.
pub record Delivery : Type 0 where
  pub taken : List ℕ
  pub left : List ℕ
  pub over : Bool

abbrev pub deliver : Bool → ℕ → List ℕ → Delivery
deliver started zero xs = record { taken = []; left = xs; over = true }
deliver started (suc n) [] = record { taken = []; left = []; over = false }
deliver started (suc n) (c ∷ cs) =
    if c == ctrl b'D'
    then record { taken = []; left = if started then c ∷ cs else cs; over = true }
    else if c == newline
    then record { taken = c ∷ []; left = cs; over = true }
    else let d = deliver true n cs in record d { taken = c ∷ d.taken }

-- How a run ends that had n characters to read, of `target` in all.
abbrev pub status : Bool → ℕ → ℕ → Delivery → Status
status killed target n r =
    if r.over
    then returned (pos (target - n + length r.taken))
    else if killed
    then returned minus_one
    else asleep (n - length r.taken)

pub record Reads (killed : Bool) (target n dst : ℕ) (d : ℕ → ℕ) (s : Cons) (r : Delivery)
    (out : Status × (ℕ → ℕ) × Cons) : Type 0 where
  pub result : out.0 ≡ status killed target n r
  pub memory : out.1 ≡ stored dst r.taken d
  pub valid : IsValid out.2
  pub rest : terminal out.2 ≡ record (terminal s) { ready = r.left }

module _ (killed : Bool) (target : ℕ) where
  -- What is read after a first character.
  Reads-next :
      (n dst c : ℕ) (d : ℕ → ℕ) (s s' : Cons) (r : Delivery) (out : Status × (ℕ → ℕ) × Cons)
      → suc n ≤ target
      → (record (terminal s') { ready = r.left } ≡ record (terminal s) { ready = r.left })
      → Reads killed target n (dst + 1) (update d dst c) s' r out
      → Reads killed target (suc n) dst d s (record r { taken = c ∷ r.taken }) out
  Reads-next n dst c d s s' r out le same h = record {
    result =
        h.result
        ∙ ap₂
            (λ (a b : ℕ).
              if r.over then returned (pos a) else if killed then returned minus_one else asleep b)
            (omega (arith, le)) (omega arith);
    memory = h.memory;
    valid = h.valid;
    rest = h.rest ∙ same;
  }

  read_from-Reads :
      (n dst : ℕ) (d : ℕ → ℕ) (s : Cons)
      → n ≤ target
      → IsValid s
      → Reads killed target n dst d s
          (deliver (ltb n target) n (terminal s).ready)
          (read_from to_memory killed target n dst d s)
  read_from-Reads zero dst d s le v = rw (read_from-zero killed target dst d s) record {
    result = ap (λ (k : ℕ). returned (pos k)) (omega arith);
    memory = refl;
    valid = v;
    rest = refl;
  }
  read_from-Reads (suc n) dst d s le v = elim (Bool-cases (s.r == s.w)) [
    | inl dry ↦
        let gone : sub32 s.w s.r ≡ 0 = ground (arith, v.r_in) in
        rw (read_from-dry killed target n dst d s dry, gone)
          record {
            result = ap (λ (k : ℕ). if killed then returned minus_one else asleep k) (omega arith);
            memory = refl;
            valid = v;
            rest =
                ap (λ (xs : List ℕ). record (terminal s) { ready = xs })
                  (ap (λ (k : ℕ). window s.buf s.r k) gone);
          }
    | inr wet ↦
        let m = sub32 s.w s.r - 1 in
        let more : sub32 s.w s.r ≡ suc m = ground (arith, v.r_in, v.w_in) in
        let next = ready-next s v m more in
        elim (Bool-cases (s.buf (s.r % input_buf) == ctrl b'D')) [
          | inl eof ↦ elim (Bool-cases (ltb (suc n) target)) [
            | inl begun ↦
                rw (next, read_from-eof killed target n dst d s wet eof, eof, begun)
                  record {
                    result = ap (λ (k : ℕ). returned (pos k)) (omega arith);
                    memory = refl;
                    valid = subst IsValid (sym (put_back s v m more)) v;
                    rest =
                        ap terminal (put_back s v m more)
                        ∙ ap (λ (xs : List ℕ). record (terminal s) { ready = xs }) next;
                  }
            | inr fresh ↦
                rw (next, read_from-eof killed target n dst d s wet eof, eof, fresh)
                  record {
                    result = ap (λ (k : ℕ). returned (pos k)) (omega arith);
                    memory = refl;
                    valid = next_char-IsValid s v m more;
                    rest = refl;
                  }
          ]
          | inr char ↦ elim (Bool-cases (s.buf (s.r % input_buf) == newline)) [
            | inl last ↦
                rw (next, read_from-last killed target n dst d s wet char last, char, last)
                  record {
                    result = ap (λ (k : ℕ). returned (pos k)) (omega (arith, le));
                    memory = refl;
                    valid = next_char-IsValid s v m more;
                    rest = refl;
                  }
            | inr inside ↦
                let started : ltb n target ≡ true = ground (arith, le) in
                let later =
                  read_from-Reads n (dst + 1) (update d dst (s.buf (s.r % input_buf)))
                    (record s { r = add32 s.r 1 }) (omega arith) (next_char-IsValid s v m more) in
                rw (next, read_from-inside killed target n dst d s wet char inside, char, inside)
                  (Reads-next n dst (s.buf (s.r % input_buf)) d s (record s { r = add32 s.r 1 }) _ _
                    le refl
                    (subst
                      (λ (b : Bool).
                        Reads killed target n (dst + 1) (update d dst (s.buf (s.r % input_buf)))
                          (record s { r = add32 s.r 1 })
                          (deliver b n (terminal (record s { r = add32 s.r 1 })).ready)
                          (read_from to_memory killed target n (dst + 1)
                            (update d dst (s.buf (s.r % input_buf)))
                            (record s { r = add32 s.r 1 })))
                      started later))
          ]
        ]
  ]

  -- consoleread with n characters left of the ones asked for, on a valid buffer and memory that takes all
  -- bytes: the characters of `deliver` stand in memory one after the other from the address dst on and
  -- nothing else changes there, the buffer is valid and keeps the rest, and the call returns their number, or, where the input ran out first, sleeps or returns -1.
  pub consoleread_lem :
      (n dst : ℕ) (d : ℕ → ℕ) (s : Cons)
      → n ≤ target
      → IsValid s
      → Reads killed target n dst d s
          (deliver (ltb n target) n (terminal s).ready)
          (consoleread to_memory killed target n dst d s)
  unfolding consoleread
  consoleread_lem = read_from-Reads
