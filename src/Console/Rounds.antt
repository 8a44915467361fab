-- ===== src/Console/Rounds.antt =====
-- The rounds of the loop of consoleread in kernel/console.c.
use operating_systems_lab.Prelude.{
  ℕ, suc, ◌+◌, ◌-◌, ◌%◌, ◌≡◌, refl, ap, Bool, true, false, Option, some, List, [], ◌∷◌, arith, ltb,
  ◌==◌, if◌then◌else◌, minus_one, pos, update,
}
use operating_systems_lab.Console.{
  input_buf, newline, ctrl, add32, sub32, Cons, Status, returned, asleep, read_from,
}
use operating_systems_lab.Console.Lines.{terminal, IsValid}

-- either_copyout to memory that takes every byte, at the address that it is given.
abbrev pub to_memory : ℕ → ℕ → (ℕ → ℕ) → Option (ℕ → ℕ)
to_memory dst c d = some (update d dst c)

-- Memory with these bytes from address dst on.
abbrev pub stored : ℕ → List ℕ → (ℕ → ℕ) → ℕ → ℕ
stored dst [] d = d
stored dst (c ∷ cs) d = stored (dst + 1) cs (update d dst c)

module _ (s : Cons) (v : IsValid s) where
  -- With input that is ready, the character that is read, and what is left.
  module _ (m : ℕ) (more : sub32 s.w s.r ≡ suc m) where
    abbrev next_char : Cons
    next_char = record s { r = add32 s.r 1 }

    fewer : sub32 s.w (add32 s.r 1) ≡ m
    fewer = omega (arith, v.r_in, v.w_in)

    pub next_char-IsValid : IsValid next_char
    next_char-IsValid = record {
      r_in = omega arith;
      w_in = v.w_in;
      e_in = v.e_in;
      bounded = omega (arith, fewer, v.bounded);
      edited = v.edited;
    }

    pub ready-next : (terminal s).ready ≡ s.buf (s.r % input_buf) ∷ (terminal next_char).ready
    ready-next = rw (more, fewer) refl

    pub put_back : record next_char { r = sub32 (add32 s.r 1) 1 } ≡ s
    put_back =
        let same : sub32 (add32 s.r 1) 1 ≡ s.r = omega (arith, v.r_in) in
        ap (λ (r : ℕ). record s { r = r }) same

module _ (killed : Bool) (target : ℕ) where
  pub read_from-zero :
      (dst : ℕ) (d : ℕ → ℕ) (s : Cons)
      → read_from to_memory killed target 0 dst d s ≡ (returned (pos target), d, s)
  unfolding read_from
  read_from-zero dst d s = refl

  -- The rounds of the loop.
  module _ (n dst : ℕ) (d : ℕ → ℕ) (s : Cons) where
    abbrev read_next : Status × (ℕ → ℕ) × Cons
    read_next = read_from to_memory killed target (suc n) dst d s

    pub read_from-dry :
        (s.r == s.w) ≡ true
        → read_next ≡ (if killed then returned minus_one else asleep (suc n), d, s)
    unfolding read_from
    read_from-dry h = rw (h, read_from) refl

    module _ (wet : (s.r == s.w) ≡ false) where
      pub read_from-eof :
          (s.buf (s.r % input_buf) == ctrl b'D') ≡ true
          → read_next ≡ (
            returned (pos (target - suc n)),
            d,
            (if ltb (suc n) target
                then record s { r = sub32 (add32 s.r 1) 1 }
                else record s { r = add32 s.r 1 }),
          )
      unfolding read_from
      read_from-eof h = rw (wet, h, read_from) refl

      module _ (char : (s.buf (s.r % input_buf) == ctrl b'D') ≡ false) where
        pub read_from-last :
            (s.buf (s.r % input_buf) == newline) ≡ true
            → read_next ≡ (
              returned (pos (target - n)),
              update d dst (s.buf (s.r % input_buf)),
              record s { r = add32 s.r 1 },
            )
        unfolding read_from
        read_from-last h = rw (wet, char, h, read_from) refl

        pub read_from-inside :
            (s.buf (s.r % input_buf) == newline) ≡ false
            → read_next
              ≡ read_from to_memory killed target n
                  (dst + 1)
                  (update d dst (s.buf (s.r % input_buf)))
                  (record s { r = add32 s.r 1 })
        unfolding read_from
        read_from-inside h = rw (wet, char, h, read_from) refl
