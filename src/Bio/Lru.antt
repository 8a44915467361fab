-- ===== src/Bio/Lru.antt =====
-- bget of kernel/bio.c: which buffer it returns, and that a block has one buffer.
use operating_systems_lab.Prelude.{
  ℕ, ◌<◌, ◌≡◌, refl, sym, ap, ap₂, subst, ◌∙◌, ◌≢◌, ◌⊎◌, inl, inr, Bool, true, false, Option, none,
  some, List, [], ◌∷◌, arith, ◌==◌, if◌then◌else◌, Bool-cases, Option-cases, update,
}
use operating_systems_lab.Bio.{
  nbuf, inc32, Bcache, is_cached, bget, Got, panicked, locked_buf, waiting, acquire_buf,
}
use operating_systems_lab.Bio.Ring.{Ring, Buffers, In}
use operating_systems_lab.Bio.Order.{Ring-same}
use operating_systems_lab.Bio.Search.{find_first, rev_onto, search_cached, search_unused}

-- The block of a real device is in one buffer only.
abbrev pub OneBuffer : Bcache → Type 0
OneBuffer c =
    (i j : ℕ)
    → i < nbuf
    → j < nbuf
    → c.dev i ≢ 0
    → c.dev i ≡ c.dev j
    → c.blockno i ≡ c.blockno j
    → i ≡ j

pub find_first-some :
    (p : ℕ → Bool) (xs : List ℕ) (b : ℕ) → find_first p xs ≡ some b → (p b ≡ true) × In b xs
find_first-some p [] b h = cc
find_first-some p (x ∷ xs) b h = elim (Bool-cases (p x)) [
  | inl hit ↦
      let e : some x ≡ some b =
        sym (ap (λ (t : Bool). if t then some x else find_first p xs) hit) ∙ h in
      let same : x ≡ b = cc in (subst (λ (y : ℕ). p y ≡ true) same hit, inl (sym same))
  | inr miss ↦
      let r =
        find_first-some p xs b
          (sym (ap (λ (t : Bool). if t then some x else find_first p xs) miss) ∙ h) in
      (r.0, inr r.1)
]

find_first-none :
    (p : ℕ → Bool) (xs : List ℕ) → find_first p xs ≡ none → (b : ℕ) → In b xs → p b ≡ false
find_first-none p [] h b m = absurd m
find_first-none p (x ∷ xs) h b m = elim (Bool-cases (p x)) [
  | inl hit ↦
      absurd (no_some (sym (ap (λ (t : Bool). if t then some x else find_first p xs) hit) ∙ h))
  | inr miss ↦ elim m [
    | inl e ↦ subst (λ (y : ℕ). p y ≡ false) (sym e) miss
    | inr later ↦
        find_first-none p xs
          (sym (ap (λ (t : Bool). if t then some x else find_first p xs) miss) ∙ h) b later
  ]
]
  where
    no_some : some x ≡ none → ⊥
    no_some e = cc

In-rev_onto : (b : ℕ) (xs acc : List ℕ) → In b xs ⊎ In b acc → In b (rev_onto xs acc)
In-rev_onto b [] acc m = elim m [ inl e ↦ absurd e | inr h ↦ h ]
In-rev_onto b (x ∷ xs) acc m =
    In-rev_onto b xs (x ∷ acc)
      (elim m [ inl (inl e) ↦ inr (inl e) | inl (inr h) ↦ inl h | inr h ↦ inr (inr h) ])

In-Buffers : (b : ℕ) (xs : List ℕ) → Buffers xs → In b xs → b < nbuf
In-Buffers b [] u m = absurd m
In-Buffers b (x ∷ xs) u m = elim m [
  | inl e ↦ subst (λ (y : ℕ). y < nbuf) (sym e) u.0
  | inr later ↦ In-Buffers b xs u.2 later
]

In-rev_onto_back : (b : ℕ) (xs acc : List ℕ) → In b (rev_onto xs acc) → In b xs ⊎ In b acc
In-rev_onto_back b [] acc m = inr m
In-rev_onto_back b (x ∷ xs) acc m = elim (In-rev_onto_back b xs (x ∷ acc) m) [
  | inl h ↦ inl (inr h)
  | inr (inl e) ↦ inl (inl e)
  | inr (inr h) ↦ inr h
]

-- The cache when bget has found a buffer that has the block, and when it has recycled one.
abbrev pub hit_state : ℕ → Bcache → Bcache
hit_state b c = record c { refcnt = update c.refcnt b (inc32 (c.refcnt b)) }

abbrev pub recycled : ℕ → ℕ → ℕ → Bcache → Bcache
recycled dev blockno b c = record c {
  dev = update c.dev b dev;
  blockno = update c.blockno b blockno;
  valid = update c.valid b false;
  refcnt = update c.refcnt b 1;
}

-- The cache when the process has the buffer's lock.
abbrev pub with_lock : ℕ → ℕ → Bcache → Bcache
with_lock pid b k = record k { locked = update k.locked b (some pid) }

-- The end of bget for buffer b of the cache k.
pub data Acquired (pid b : ℕ) (k : Bcache) : Got → Type 0 where
  had_lock : k.locked b ≡ none → Acquired pid b k (locked_buf b (with_lock pid b k))
  must_wait : (q : ℕ) → k.locked b ≡ some q → Acquired pid b k (waiting b k)

acquire_buf-Acquired : (pid b : ℕ) (k : Bcache) → Acquired pid b k (acquire_buf pid b k)
acquire_buf-Acquired pid b k = elim (Option-cases (k.locked b)) [
  | inl free ↦ rw (free, acquire_buf) (had_lock free)
  | inr (q, held) ↦ rw (held, acquire_buf) (must_wait q held)
]

-- How bget ends, on the list xs.
pub data Bget (pid dev blockno : ℕ) (c : Bcache) (xs : List ℕ) : Got → Type 0 where
  all_in_use :
      ((b : ℕ) → b < nbuf → is_cached dev blockno c b ≡ false)
      → ((b : ℕ) → b < nbuf → c.refcnt b ≢ 0)
      → Bget pid dev blockno c xs panicked
  cached :
      (b : ℕ) (o : Got)
      → b < nbuf
      → find_first (is_cached dev blockno c) xs ≡ some b
      → Ring (hit_state b c) xs
      → OneBuffer (hit_state b c)
      → Acquired pid b (hit_state b c) o
      → Bget pid dev blockno c xs o
  least_recent :
      (b : ℕ) (o : Got)
      → b < nbuf
      → ((a : ℕ) → a < nbuf → is_cached dev blockno c a ≡ false)
      → find_first (λ (a : ℕ). c.refcnt a == 0) (rev_onto xs []) ≡ some b
      → Ring (recycled dev blockno b c) xs
      → OneBuffer (recycled dev blockno b c)
      → Acquired pid b (recycled dev blockno b c) o
      → Bget pid dev blockno c xs o

module _ (pid dev blockno : ℕ) (c : Bcache) (xs : List ℕ) (r : Ring c xs) (v : OneBuffer c) where
  recycled-OneBuffer :
      (b : ℕ)
      → ((a : ℕ) → a < nbuf → is_cached dev blockno c a ≡ false)
      → OneBuffer (recycled dev blockno b c)
  recycled-OneBuffer b absent i j i_lt j_lt nz d n =
      ground (arith, v i j i_lt j_lt, absent i i_lt, absent j j_lt)

  -- bget, as a choice on the list.
  abbrev choice : Option ℕ → Option ℕ → Got
  choice (some b) u = acquire_buf pid b (hit_state b c)
  choice none none = panicked
  choice none (some b) = acquire_buf pid b (recycled dev blockno b c)

  by_searches : Option ℕ → Option ℕ → Got
  by_searches p u = elim p [
    | some b ↦ acquire_buf pid b (hit_state b c)
    | none ↦ elim u [ none ↦ panicked | some b ↦ acquire_buf pid b (recycled dev blockno b c) ]
  ]

  by_searches-choice : (p u : Option ℕ) → by_searches p u ≡ choice p u
  unfolding by_searches
  by_searches-choice (some b) u = refl
  by_searches-choice none none = refl
  by_searches-choice none (some b) = refl

  bget-choice :
      bget pid dev blockno c
      ≡ choice
          (find_first (is_cached dev blockno c) xs)
          (find_first (λ (a : ℕ). c.refcnt a == 0) (rev_onto xs []))
  unfolding bget by_searches
  bget-choice =
      ap₂ by_searches (search_cached c xs r.links r.buffers r.count dev blockno)
        (search_unused c xs r.links r.buffers r.count)
      ∙ by_searches-choice _ _

  choice-Bget :
      (p u : Option ℕ)
      → find_first (is_cached dev blockno c) xs ≡ p
      → find_first (λ (a : ℕ). c.refcnt a == 0) (rev_onto xs []) ≡ u
      → Bget pid dev blockno c xs (choice p u)
  choice-Bget (some b) u e f =
      cached b _ (In-Buffers b xs r.buffers (find_first-some _ xs b e).1) e
        (Ring-same c (hit_state b c) xs refl refl r) v (acquire_buf-Acquired pid b (hit_state b c))
  choice-Bget none none e f =
      all_in_use (λ b h. find_first-none _ xs e b (r.complete b h))
        (λ b h.
          let busy =
            find_first-none _ (rev_onto xs []) f b (In-rev_onto b xs [] (inl (r.complete b h))) in
          ground arith)
  choice-Bget none (some b) e f =
      let absent = λ (a : ℕ) (h : a < nbuf).
        find_first-none (is_cached dev blockno c) xs e a (r.complete a h) in
      least_recent b _ (in_ring b (find_first-some _ (rev_onto xs []) b f).1) absent f
        (Ring-same c (recycled dev blockno b c) xs refl refl r) (recycled-OneBuffer b absent)
        (acquire_buf-Acquired pid b (recycled dev blockno b c))
    where
      in_ring : (b : ℕ) → In b (rev_onto xs []) → b < nbuf
      in_ring b m = elim (In-rev_onto_back b xs [] m) [
        | inl h ↦ In-Buffers b xs r.buffers h
        | inr h ↦ absurd h
      ]

  -- On the list of the buffers, most recently used first, bget returns the buffer that has the block,
  -- with one reference more; if there is none, it gives the block to the least recently used buffer
  -- without references, which is then not valid; and it panics only if no buffer has the block and all
  -- are in use. It has the buffer's lock then if the lock was free, and else sleeps for it. The list stays as
  -- it is, and the block of a real device still has one buffer only.
  pub bget_lem : Bget pid dev blockno c xs (bget pid dev blockno c)
  bget_lem =
      subst (λ (o : Got). Bget pid dev blockno c xs o) (sym bget-choice) (choice-Bget _ _ refl refl)
