-- ===== src/Bio/Order.antt =====
-- brelse of kernel/bio.c on the order of the buffers.
use operating_systems_lab.Prelude.{
  ℕ, ◌≡◌, sym, subst, ◌≢◌, false, Option, none, some, List, [], ◌∷◌, ◌==◌, if◌then◌else◌, update,
}
use operating_systems_lab.Bio.{held_by, head, Bcache, dec32}
use operating_systems_lab.Bio.Ring.{Links, Ring}

-- The list without b.
abbrev pub remove : ℕ → List ℕ → List ℕ
remove b [] = []
remove b (x ∷ xs) = if b == x then xs else x ∷ remove b xs

-- Only the pointers matter for the list.
pub Ring-same :
    (c c' : Bcache) (xs : List ℕ) → c'.next ≡ c.next → c'.prev ≡ c.prev → Ring c xs → Ring c' xs
Ring-same c c' xs n p r = record {
  links =
      subst (λ (f : ℕ → ℕ). Links f c'.prev head xs head) (sym n)
        (subst (λ (f : ℕ → ℕ). Links c.next f head xs head) (sym p) r.links);
  buffers = r.buffers;
  count = r.count;
  complete = r.complete;
}

-- How brelse ends on a buffer of the cache.
pub data Released (pid b : ℕ) (c : Bcache) (xs : List ℕ) : Option Bcache → Type 0 where
  not_held : held_by pid (c.locked b) ≡ false → Released pid b c xs none
  still_used :
      (c' : Bcache)
      → c.refcnt b ≢ 1
      → c'.refcnt b ≡ dec32 (c.refcnt b)
      → c'.locked b ≡ none
      → Ring c' xs
      → Released pid b c xs (some c')
  now_free :
      (c' : Bcache)
      → c.refcnt b ≡ 1
      → c'.refcnt b ≡ 0
      → c'.locked b ≡ none
      → Ring c' (b ∷ remove b xs)
      → Released pid b c xs (some c')

-- The cache when the lock and the reference are dropped.
abbrev dropped : ℕ → Bcache → Bcache
dropped b c = record c {
  locked = update c.locked b none;
  refcnt = update c.refcnt b (dec32 (c.refcnt b));
}
