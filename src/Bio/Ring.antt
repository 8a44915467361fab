-- ===== src/Bio/Ring.antt =====
-- The doubly-linked list of kernel/bio.c, as the list of buffers from the head on.
use operating_systems_lab.Prelude.{
  ℕ, ◌<◌, ◌≡◌, sym, subst, ◌∙◌, ◌≢◌, ◌⊎◌, List, [], ◌∷◌, ◌++◌, arith, length, update, update_self,
  update_ne,
}
use operating_systems_lab.Bio.{nbuf, head, Bcache, insert_front, unlink}

-- From a, the pointers lead through xs to z, and back.
abbrev pub Links : (ℕ → ℕ) → (ℕ → ℕ) → ℕ → List ℕ → ℕ → Type 0
Links next prev a [] z = (next a ≡ z) × (prev z ≡ a)
Links next prev a (x ∷ xs) z = (next a ≡ x) × (prev x ≡ a) × Links next prev x xs z

-- b is not in the list.
abbrev pub Fresh : ℕ → List ℕ → Type 0
Fresh b [] = Unit
Fresh b (x ∷ xs) = (b ≢ x) × Fresh b xs

-- The list has buffers, each once.
abbrev pub Buffers : List ℕ → Type 0
Buffers [] = Unit
Buffers (x ∷ xs) = (x < nbuf) × Fresh x xs × Buffers xs

abbrev pub In : ℕ → List ℕ → Type 0
In b [] = ⊥
In b (x ∷ xs) = (b ≡ x) ⊎ In b xs

-- The cache's list is xs, most recently used first, with all buffers.
pub record Ring (c : Bcache) (xs : List ℕ) : Type 0 where
  pub links : Links c.next c.prev head xs head
  pub buffers : Buffers xs
  pub count : length xs ≡ nbuf
  pub complete : (b : ℕ) → b < nbuf → In b xs

pub Buffers-ne_head : (xs : List ℕ) → Buffers xs → Fresh head xs
Buffers-ne_head [] h = tt
Buffers-ne_head (x ∷ xs) h = (omega arith, Buffers-ne_head xs h.2)

-- A new `next` of an entry that is no source of the links.
pub Links-next :
    (next prev : ℕ → ℕ) (a : ℕ) (xs : List ℕ) (z p v : ℕ)
    → p ≢ a
    → Fresh p xs
    → Links next prev a xs z
    → Links (update next p v) prev a xs z
Links-next next prev a [] z p v ne f h = (update_ne next p v a ne ∙ h.0, h.1)
Links-next next prev a (x ∷ xs) z p v ne f h =
    (update_ne next p v a ne ∙ h.0, h.1, Links-next next prev x xs z p v f.0 f.1 h.2)

-- A new `prev` of an entry that is no target of the links.
pub Links-prev :
    (next prev : ℕ → ℕ) (a : ℕ) (xs : List ℕ) (z p v : ℕ)
    → p ≢ z
    → Fresh p xs
    → Links next prev a xs z
    → Links next (update prev p v) a xs z
Links-prev next prev a [] z p v ne f h = (h.0, update_ne prev p v z ne ∙ h.1)
Links-prev next prev a (x ∷ xs) z p v ne f h =
    (h.0, update_ne prev p v x f.0 ∙ h.1, Links-prev next prev x xs z p v ne f.1 h.2)

-- insert_front on the links: b comes first.
pub insert_front-Links :
    (b : ℕ) (xs : List ℕ) (c : Bcache)
    → b ≢ head
    → Fresh b xs
    → Buffers xs
    → Links c.next c.prev head xs head
    → Links (insert_front b c).next (insert_front b c).prev head (b ∷ xs) head
unfolding insert_front
insert_front-Links b [] c ne f u h = (ground arith, ground arith, (ground arith, ground arith))
insert_front-Links b (x ∷ xs) c ne f u h =
    let key : update c.next b (c.next head) head ≡ x = ground (arith, h.0) in
    let x_ne : x ≢ head = omega (arith, u.0) in
    let b_ne : b ≢ x = f.0 in
    let tail : Links (update (update c.next b (c.next head)) head b)
        (update (update c.prev b head) x b) x xs head =
      Links-next (update c.next b (c.next head)) _ x xs head head b (λ e. x_ne (sym e))
        (Buffers-ne_head xs u.2)
        (Links-next c.next _ x xs head b (c.next head) b_ne f.1 (
          Links-prev c.next (update c.prev b head) x xs head x b x_ne u.1
            (Links-prev c.next c.prev x xs head b head ne f.1 h.2))) in
    subst
      (λ (k : ℕ).
        Links (update (update c.next b (c.next head)) head b) (update (update c.prev b head) k b)
          head (b ∷ x ∷ xs) head)
      (sym key)
      (
        update_self (update c.next b (c.next head)) head b,
        update_ne (update c.prev b head) x b b (λ e. b_ne (sym e)) ∙ update_self c.prev b head,
        (
          update_ne (update c.next b (c.next head)) head b b (λ e. ne (sym e))
              ∙ update_self c.next b (c.next head)
              ∙ h.0,
          update_self (update c.prev b head) x b,
          tail,
        ),
      )

-- The entry before and the entry behind.
abbrev last : ℕ → List ℕ → ℕ
last a [] = a
last a (x ∷ xs) = last x xs

abbrev first : List ℕ → ℕ → ℕ
first [] z = z
first (x ∷ xs) z = x

Links-around :
    (next prev : ℕ → ℕ) (a : ℕ) (ys : List ℕ) (b : ℕ) (zs : List ℕ) (z : ℕ)
    → Links next prev a (ys ++ (b ∷ zs)) z
    → (next b ≡ first zs z) × (prev b ≡ last a ys)
Links-around next prev a [] b [] z h = (h.2.0, h.1)
Links-around next prev a [] b (y ∷ zs) z h = (h.2.0, h.1)
Links-around next prev a (x ∷ ys) b zs z h = Links-around next prev x ys b zs z h.2

last_ne : (a x : ℕ) (ys : List ℕ) → Fresh a (x ∷ ys) → last x ys ≢ a
last_ne a x [] f e = f.0 (sym e)
last_ne a x (y ∷ ys) f e = last_ne a y ys f.1 e

first_ne : (x : ℕ) (zs : List ℕ) → x ≢ head → Fresh x zs → first zs head ≢ x
first_ne x [] ne f e = ne (sym e)
first_ne x (z ∷ zs) ne f e = f.0 (sym e)

pub Fresh-append : (a : ℕ) (ys zs : List ℕ) → Fresh a (ys ++ zs) → Fresh a ys × Fresh a zs
Fresh-append a [] zs f = (tt, f)
Fresh-append a (y ∷ ys) zs f = let r = Fresh-append a ys zs f.1 in ((f.0, r.0), r.1)

-- Linking the entry before b to the one behind it.
bypass-Links :
    (next prev : ℕ → ℕ) (a : ℕ) (ys : List ℕ) (b : ℕ) (zs : List ℕ)
    → Fresh a (ys ++ (b ∷ zs))
    → Buffers (ys ++ (b ∷ zs))
    → Links next prev a (ys ++ (b ∷ zs)) head
    → Links
        (update next (last a ys) (first zs head))
        (update prev (first zs head) (last a ys))
        a
        (ys ++ zs)
        head
bypass-Links next prev a [] b [] f u h = (update_self next a head, update_self prev head a)
bypass-Links next prev a [] b (y ∷ zs) f u h = (
  update_self next a y,
  update_self prev y a,
  Links-next next _ y zs head a y f.1.0 f.1.1
      (Links-prev next prev y zs head y a (omega (arith, u.2.0)) u.2.1 h.2.2),
)
bypass-Links next prev a (x ∷ ys) b zs f u h =
    let fresh = Fresh-append x ys (b ∷ zs) u.1 in
    let x_ne : x ≢ head = omega (arith, u.0) in
    (
      update_ne next (last x ys) (first zs head) a
            (last_ne a x ys (f.0, (Fresh-append a ys (b ∷ zs) f.1).0))
          ∙ h.0,
      update_ne prev (first zs head) (last x ys) x (first_ne x zs x_ne fresh.1.1) ∙ h.1,
      bypass-Links next prev x ys b zs u.1 u.2 h.2,
    )

-- unlink on the links: b is gone.
pub unlink-Links :
    (ys : List ℕ) (b : ℕ) (zs : List ℕ) (c : Bcache)
    → Buffers (ys ++ (b ∷ zs))
    → Links c.next c.prev head (ys ++ (b ∷ zs)) head
    → Links (unlink b c).next (unlink b c).prev head (ys ++ zs) head
unfolding unlink
unlink-Links ys b zs c u h =
    let around = Links-around c.next c.prev head ys b zs head h in
    let behind : update c.prev (c.next b) (c.prev b) b ≡ last head ys = ground (arith, around.1) in
    rw (behind, around.0, around.1)
      (bypass-Links c.next c.prev head ys b zs (Buffers-ne_head _ u) u h)
