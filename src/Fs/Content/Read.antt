-- ===== src/Fs/Content/Read.antt =====
-- readi of kernel/fs.c returns the bytes of the file.
use operating_systems_lab.Prelude.{
  ℕ, zero, suc, ◌+◌, ◌-◌, ◌/◌, ◌%◌, ◌^◌, ◌≤◌, ◌<◌, min, ◌≡◌, refl, ap, ap₂, ◌∙◌, inl, inr, true,
  false, some, List, ◌∷◌, arith, ltb, if◌then◌else◌, Bool-cases, pos, update, update_self,
  update_ne,
}
use operating_systems_lab.Fs.{Block, bsize, Fs, bind_some}
use operating_systems_lab.Fs.Content.{bmap, bytes_at, put_bytes, readi_from, readi, to_kernel}
use operating_systems_lab.Fs.Content.Blocks.{
  addr_of, Mapped, bmap-Mapped, content, file_bytes, bytes_at-content,
}

-- The bytes that one round copies.
abbrev chunk : ℕ → ℕ → ℕ → ℕ
chunk n tot off = min (n - tot) (bsize - off % bsize)

module _ (i : ℕ) (s : Fs) (v : Mapped i s) where
  round_bytes :
      (n tot off : ℕ)
      → bytes_at (chunk n tot off) (off % bsize) (s.view (addr_of s i (off / bsize)))
        ≡ file_bytes s i (chunk n tot off) off
  round_bytes n tot off = bytes_at-content s i (chunk n tot off) off (omega arith)

  -- One round of the loop.
  readi_from_round :
      (rounds tot off dst n : ℕ) (d : Block)
      → tot < n
      → off < (s.inodes i).size
      → readi_from to_kernel (suc rounds) i tot off dst n d s
        ≡ readi_from to_kernel rounds i
            (tot + chunk n tot off)
            (off + chunk n tot off)
            (dst + chunk n tot off)
            n
            (put_bytes dst (file_bytes s i (chunk n tot off) off) d)
            s
  unfolding readi_from
  readi_from_round rounds tot off dst n d lt inside =
      let go : ltb tot n ≡ true = ground arith in
      let block = bmap-Mapped i (off / bsize) s v (omega (arith, inside)) in
      rw (go, readi_from)
        (bind_some (bmap i (off / bsize)) _ s block
          ∙ ap
              (λ (bs : List ℕ).
                readi_from to_kernel rounds i (tot + chunk n tot off) (off + chunk n tot off)
                  (dst + chunk n tot off) n (put_bytes dst bs d) s)
              (round_bytes n tot off))

  -- Bytes of the file that are stored in two parts, the second behind the first.
  put_bytes-add :
      (a b o dst : ℕ) (d : Block)
      → put_bytes (dst + a) (file_bytes s i b (o + a)) (put_bytes dst (file_bytes s i a o) d)
        ≡ put_bytes dst (file_bytes s i (a + b) o) d
  unfolding put_bytes file_bytes
  put_bytes-add zero b o dst d =
      let e : 0 + b ≡ b = omega arith in
      let e' : o + 0 ≡ o = omega arith in
      let e'' : dst + 0 ≡ dst = omega arith in rw (e, e', e'') refl
  put_bytes-add (suc a) b o dst d =
      let e : suc a + b ≡ suc (a + b) = omega arith in
      let e' : o + suc a ≡ o + 1 + a = omega arith in
      let e'' : dst + suc a ≡ dst + 1 + a = omega arith in
      rw (e, e', e'') (put_bytes-add a b (o + 1) (dst + 1) (update d dst (content s i o)))

  rejoined :
      (n tot off dst : ℕ) (d : Block)
      → tot < n
      → put_bytes
          (dst + chunk n tot off)
          (file_bytes s i (n - (tot + chunk n tot off)) (off + chunk n tot off))
          (put_bytes dst (file_bytes s i (chunk n tot off) off) d)
        ≡ put_bytes dst (file_bytes s i (n - tot) off) d
  rejoined n tot off dst d lt =
      put_bytes-add (chunk n tot off) (n - (tot + chunk n tot off)) off dst d
      ∙ ap (λ (m : ℕ). put_bytes dst (file_bytes s i m off) d) (omega arith)

  readi_from_lem :
      (rounds tot off dst n : ℕ) (d : Block)
      → tot ≤ n
      → n ≤ tot + rounds
      → off + (n - tot) ≤ (s.inodes i).size
      → readi_from to_kernel rounds i tot off dst n d s
        ≡ some ((pos n, put_bytes dst (file_bytes s i (n - tot) off) d), s)
  unfolding readi_from file_bytes put_bytes
  readi_from_lem zero tot off dst n d le enough within =
      let z : n - tot ≡ 0 = omega arith in let e : tot ≡ n = omega arith in rw (z, e) refl
  readi_from_lem (suc rounds) tot off dst n d le enough within = elim (Bool-cases (ltb tot n)) [
    | inr over ↦
        let z : n - tot ≡ 0 = ground arith in
        let e : tot ≡ n = ground arith in
        rw (over, readi_from) (rw z (ap (λ (t : ℕ). some ((pos t, d), s)) e))
    | inl more ↦
        let lt : tot < n = ground arith in
        readi_from_round rounds tot off dst n d lt (omega arith)
        ∙ readi_from_lem rounds (tot + chunk n tot off) (off + chunk n tot off)
            (dst + chunk n tot off) n (put_bytes dst (file_bytes s i (chunk n tot off) off) d)
            (omega arith) (omega (arith, lt)) (omega arith)
        ∙ ap (λ (x : Block). some ((pos n, x), s)) (rejoined n tot off dst d lt)
  ]

  -- readi to a kernel address, from a file all of whose blocks are allocated and whose offset and count do
  -- not run over, stores the bytes of the file from the offset on, `n` of them or as many as the file has,
  -- one after the other from that address on, returns their number, and changes nothing else.
  pub readi_lem :
      (dst off n : ℕ) (d : Block)
      → off + n < 2 ^ 32
      → readi to_kernel i dst off n d s
        ≡ some (
          (
            pos (min n ((s.inodes i).size - off)),
            put_bytes dst (file_bytes s i (min n ((s.inodes i).size - off)) off) d,
          ),
          s,
        )
  unfolding readi file_bytes put_bytes
  readi_lem dst off n d small = elim (Bool-cases (ltb (s.inodes i).size off)) [
    | inl past ↦ let z : min n ((s.inodes i).size - off) ≡ 0 = ground arith in rw past (rw z refl)
    | inr inside ↦
        let no_wrap : ltb ((off + n) % 2 ^ 32) off ≡ false = ground arith in
        let clipped : (if ltb (s.inodes i).size ((off + n) % 2 ^ 32)
              then (s.inodes i).size - off
              else n)
            ≡ min n ((s.inodes i).size - off) =
          ground arith in
        let all : min n ((s.inodes i).size - off) - 0 ≡ min n ((s.inodes i).size - off) =
          omega arith in
        rw (inside, no_wrap, clipped)
          (readi_from_lem (min n ((s.inodes i).size - off)) 0 off dst
              (min n ((s.inodes i).size - off)) d (omega arith) (omega arith) (ground arith)
            ∙ ap
                (λ (m : ℕ). some (
                  (pos (min n ((s.inodes i).size - off)), put_bytes dst (file_bytes s i m off) d),
                  s,
                ))
                all)
  ]

  put_bytes_below :
      (n o dst a : ℕ) (d : Block) → a < dst → put_bytes dst (file_bytes s i n o) d a ≡ d a
  unfolding put_bytes file_bytes
  put_bytes_below zero o dst a d lt = refl
  put_bytes_below (suc n) o dst a d lt =
      put_bytes_below n (o + 1) (dst + 1) a (update d dst (content s i o)) (omega arith)
      ∙ update_ne d dst (content s i o) a (omega arith)

  -- What was stored can be read back.
  pub bytes_at-put_bytes :
      (n o dst : ℕ) (d : Block)
      → bytes_at n dst (put_bytes dst (file_bytes s i n o) d) ≡ file_bytes s i n o
  unfolding bytes_at put_bytes file_bytes
  bytes_at-put_bytes zero o dst d = refl
  bytes_at-put_bytes (suc n) o dst d =
      ap₂ (λ (v : ℕ) (vs : List ℕ). v ∷ vs)
        (put_bytes_below n (o + 1) (dst + 1) dst (update d dst (content s i o)) (omega arith)
          ∙ update_self d dst (content s i o))
        (bytes_at-put_bytes n (o + 1) (dst + 1) (update d dst (content s i o)))
