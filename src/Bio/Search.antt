-- ===== src/Bio/Search.antt =====
-- The two searches of bget in kernel/bio.c, which follow the pointers, as searches of the list.
use operating_systems_lab.Prelude.{
  ℕ, zero, suc, ◌+◌, ◌<◌, ◌≡◌, refl, sym, subst, inl, inr, Bool, true, false, Option, none, some,
  List, [], ◌∷◌, arith, ◌==◌, if◌then◌else◌, Bool-cases, length,
}
use operating_systems_lab.Bio.{nbuf, head, Bcache, is_cached, find_cached, find_unused}
use operating_systems_lab.Bio.Ring.{Links, Fresh, Buffers, Buffers-ne_head}

-- The first element of a list with the property.
abbrev pub find_first : (ℕ → Bool) → List ℕ → Option ℕ
find_first p [] = none
find_first p (x ∷ xs) = if p x then some x else find_first p xs

find_cached-first :
    (dev blockno : ℕ) (c : Bcache) (rounds a : ℕ) (xs : List ℕ)
    → length xs < rounds
    → Fresh head xs
    → Links c.next c.prev a xs head
    → find_cached rounds dev blockno c (c.next a) ≡ find_first (is_cached dev blockno c) xs
unfolding find_cached
find_cached-first dev blockno c zero a xs h f l = absurd (omega arith)
find_cached-first dev blockno c (suc rounds) a [] h f l =
    let at_end : (c.next a == head) ≡ true = ground (arith, l.0) in rw (at_end, find_cached) refl
find_cached-first dev blockno c (suc rounds) a (x ∷ xs) h f l =
    let ih = find_cached-first dev blockno c rounds x xs (omega arith) f.1 l.2 in
    let inside : (x == head) ≡ false = ground (arith, f.0) in
    subst
      (λ (y : ℕ).
        find_cached (suc rounds) dev blockno c y ≡ find_first (is_cached dev blockno c) (x ∷ xs))
      (sym l.0)
      (elim (Bool-cases (is_cached dev blockno c x)) [
        | inl hit ↦ rw (inside, hit, find_cached) refl
        | inr miss ↦ rw (inside, miss, find_cached) ih
      ])

-- The list read backwards.
abbrev pub rev_onto : List ℕ → List ℕ → List ℕ
rev_onto [] acc = acc
rev_onto (x ∷ xs) acc = rev_onto xs (x ∷ acc)

-- From z, the pointers back lead through rs to h.
abbrev Back : (ℕ → ℕ) → ℕ → List ℕ → ℕ → Type 0
Back prev z [] h = prev z ≡ h
Back prev z (r ∷ rs) h = (prev z ≡ r) × Back prev r rs h

Links-Back :
    (next prev : ℕ → ℕ) (a : ℕ) (xs acc : List ℕ) (z h : ℕ)
    → Links next prev a xs z
    → Back prev a acc h
    → Back prev z (rev_onto xs (a ∷ acc)) h
Links-Back next prev a [] acc z h l b = (l.1, b)
Links-Back next prev a (x ∷ xs) acc z h l b = Links-Back next prev x xs (a ∷ acc) z h l.2 (l.1, b)

ring-Back :
    (next prev : ℕ → ℕ) (xs : List ℕ)
    → Links next prev head xs head
    → Back prev head (rev_onto xs []) head
ring-Back next prev [] l = l.1
ring-Back next prev (x ∷ xs) l = Links-Back next prev x xs [] head head l.2 l.1

find_unused-first :
    (c : Bcache) (rounds z : ℕ) (rs : List ℕ)
    → length rs < rounds
    → Fresh head rs
    → Back c.prev z rs head
    → find_unused rounds c (c.prev z) ≡ find_first (λ (b : ℕ). c.refcnt b == 0) rs
unfolding find_unused
find_unused-first c zero z rs h f l = absurd (omega arith)
find_unused-first c (suc rounds) z [] h f l =
    let at_end : (c.prev z == head) ≡ true = ground (arith, l) in rw (at_end, find_unused) refl
find_unused-first c (suc rounds) z (x ∷ xs) h f l =
    let ih = find_unused-first c rounds x xs (omega arith) f.1 l.1 in
    let inside : (x == head) ≡ false = ground (arith, f.0) in
    subst
      (λ (y : ℕ). find_unused (suc rounds) c y ≡ find_first (λ (b : ℕ). c.refcnt b == 0) (x ∷ xs))
      (sym l.0)
      (elim (Bool-cases (c.refcnt x == 0)) [
        | inl hit ↦ rw (inside, hit, find_unused) refl
        | inr miss ↦ rw (inside, miss, find_unused) ih
      ])

length-rev_onto : (xs acc : List ℕ) → length (rev_onto xs acc) ≡ length xs + length acc
length-rev_onto [] acc = omega arith
length-rev_onto (x ∷ xs) acc = omega (arith, length-rev_onto xs (x ∷ acc))

Fresh-rev_onto : (a : ℕ) (xs acc : List ℕ) → Fresh a xs → Fresh a acc → Fresh a (rev_onto xs acc)
Fresh-rev_onto a [] acc f g = g
Fresh-rev_onto a (x ∷ xs) acc f g = Fresh-rev_onto a xs (x ∷ acc) f.1 (f.0, g)

module _ (c : Bcache) (xs : List ℕ) (l : Links c.next c.prev head xs head) (u : Buffers xs)
    (n : length xs ≡ nbuf) where
  -- The first loop finds the first buffer of the list that holds the block.
  pub search_cached :
      (dev blockno : ℕ)
      → find_cached (nbuf + 1) dev blockno c (c.next head) ≡ find_first (is_cached dev blockno c) xs
  search_cached dev blockno =
      find_cached-first dev blockno c (nbuf + 1) head xs (omega (arith, n)) (Buffers-ne_head xs u) l

  -- The second loop finds the last buffer of the list that nobody uses.
  pub search_unused :
      find_unused (nbuf + 1) c (c.prev head)
      ≡ find_first (λ (b : ℕ). c.refcnt b == 0) (rev_onto xs [])
  search_unused =
      find_unused-first c (nbuf + 1) head (rev_onto xs []) (omega (arith, n, length-rev_onto xs []))
        (Fresh-rev_onto head xs [] (Buffers-ne_head xs u) tt) (ring-Back c.next c.prev xs l)
