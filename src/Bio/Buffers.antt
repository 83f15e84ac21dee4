-- ===== src/Bio/Buffers.antt =====
-- bget of bio.c: the buffer that it returns, and what happens to the others.
use xv6_fork.Prelude.{
  ℕ, zero, suc, ◌<◌, ◌≤◌, ◌≡◌, ◌≢◌, refl, sym, ◌⊎◌, inl, inr, arith, List, [], ◌∷◌, ◌++◌, ◌==◌,
  NotIn, NotIn-append, Bool-cases, Option-cases, Bool, true, false, not, ◌&&◌, Option, none, some,
  length, length-append, add32,
}
use mathlib.Core.Path.{subst}
use xv6_fork.Bio.{Cache, head, nbuf, put, find_cached, find_recyclable, recycle, bget}
use xv6_fork.Bio.Ring.{Chain, put_ne, put_at}
use xv6_fork.Bio.Moves.{IsRing}
use xv6_fork.Bio.Search.{is_for, IsFirstOf, later-IsFirstOf, find_cached-IsFirstOf}

-- From the least to the most recently used.
abbrev pub reverse : List ℕ → List ℕ
reverse [] = []
reverse (x ∷ xs) = reverse xs ++ x ∷ []

-- Backwards from `c` through `ys` to `a`.
abbrev Back : (ℕ → ℕ) → ℕ → List ℕ → ℕ → Type 0
Back prev c [] a = prev c ≡ a
Back prev c (y ∷ ys) a = (prev c ≡ y) × Back prev y ys a

Back-snoc :
    (prev : ℕ → ℕ) (c x a : ℕ) (ys : List ℕ)
    → Back prev c ys x
    → prev x ≡ a
    → Back prev c (ys ++ x ∷ []) a
Back-snoc prev c x a [] h e = (h, e)
Back-snoc prev c x a (y ∷ ys) (h, rest) e = (h, Back-snoc prev y x a ys rest e)

Chain-Back :
    (next prev : ℕ → ℕ) (a c : ℕ) (xs : List ℕ)
    → Chain next prev a xs c
    → Back prev c (reverse xs) a
Chain-Back next prev a c [] (n, p) = p
Chain-Back next prev a c (x ∷ xs) (n, p, rest) =
    Back-snoc prev c x a (reverse xs) (Chain-Back next prev x c xs rest) p

-- bget may take this buffer for another block.
abbrev pub is_unused : Cache → ℕ → Bool
is_unused s b = (s.refcnt b == 0) && not (s.dirty b)

find_recyclable-IsFirstOf :
    (k c : ℕ) (s : Cache) (ys : List ℕ)
    → length ys < k
    → NotIn head ys
    → Back s.prev c ys head
    → IsFirstOf (is_unused s) ys (find_recyclable k (s.prev c) s)
unfolding find_recyclable
find_recyclable-IsFirstOf zero c s ys lt out back = absurd (omega arith)
find_recyclable-IsFirstOf (suc k) c s [] lt out back = rw back (λ b i. absurd i)
find_recyclable-IsFirstOf (suc k) c s (y ∷ ys) lt out (p, back) =
    let inside : (y == head) ≡ false = ground (arith, out.0) in
    rw (p, inside)
      (elim (Bool-cases (is_unused s y)) [
        | inl found ↦ rw found ([], ys, refl, found, λ b i. absurd i)
        | inr other ↦ rw other (
            later-IsFirstOf (is_unused s) y ys _ other
              (find_recyclable-IsFirstOf k y s ys (omega arith) out.1 back))
      ])

-- Nothing but the buffer `b` is changed.
pub record Spares (s : Cache) (b : ℕ) (s' : Cache) : Type 0 where
  pub next : s'.next ≡ s.next
  pub prev : s'.prev ≡ s.prev
  pub dev : (c : ℕ) → c ≢ b → s'.dev c ≡ s.dev c
  pub blockno : (c : ℕ) → c ≢ b → s'.blockno c ≡ s.blockno c
  pub refcnt : (c : ℕ) → c ≢ b → s'.refcnt c ≡ s.refcnt c
  pub valid : (c : ℕ) → c ≢ b → s'.valid c ≡ s.valid c
  pub dirty : (c : ℕ) → c ≢ b → s'.dirty c ≡ s.dirty c

-- The block has a buffer: it gets one more reference, and keeps its flags.
pub record Hits (dev blockno : ℕ) (s : Cache) (order : List ℕ) (b : ℕ) (s' : Cache) : Type 0 where
  pub cached : IsFirstOf (is_for dev blockno s) order (some b)
  pub counted : s'.refcnt b ≡ add32 (s.refcnt b) 1
  pub still : is_for dev blockno s' b ≡ true
  pub flags : (s'.valid b ≡ s.valid b) × (s'.dirty b ≡ s.dirty b)

-- The block has none: the least recently used one that nobody uses and that is clean is taken.
pub record Recycles (dev blockno : ℕ) (s : Cache) (order : List ℕ) (b : ℕ) (s' : Cache)
    : Type 0 where
  pub missing : IsFirstOf (is_for dev blockno s) order none
  pub unused : IsFirstOf (is_unused s) (reverse order) (some b)
  pub counted : s'.refcnt b ≡ 1
  pub now_for : is_for dev blockno s' b ≡ true
  pub flags : (s'.valid b ≡ false) × (s'.dirty b ≡ false)

-- What bget comes to: a buffer; or a panic, if the block has no buffer and all are used or dirty.
unfoldable pub Gets : ℕ → ℕ → Cache → List ℕ → Option (ℕ × Cache) → Type 0
Gets dev blockno s order none =
    IsFirstOf (is_for dev blockno s) order none × IsFirstOf (is_unused s) (reverse order) none
Gets dev blockno s order (some (b, s')) =
    Spares s b s' × (Hits dev blockno s order b s' ⊎ Recycles dev blockno s order b s')

length-reverse : (xs : List ℕ) → length (reverse xs) ≡ length xs
length-reverse [] = refl
length-reverse (x ∷ xs) = omega (arith, length-append (reverse xs) (x ∷ []), length-reverse xs)

NotIn-reverse : (v : ℕ) (xs : List ℕ) → NotIn v xs → NotIn v (reverse xs)
NotIn-reverse v [] h = tt
NotIn-reverse v (x ∷ xs) h = NotIn-append v (reverse xs) (x ∷ []) (NotIn-reverse v xs h.1) (h.0, tt)

both : (a b c d : ℕ) → a ≡ c → b ≡ d → ((a == c) && (b == d)) ≡ true
both a b c d e f = ground arith

hit-Gets :
    (dev blockno b : ℕ) (s : Cache) (order : List ℕ)
    → IsFirstOf (is_for dev blockno s) order (some b)
    → Gets dev blockno s order
        (some (b, record s { refcnt = put s.refcnt b (add32 (s.refcnt b) 1) }))
unfolding Gets
hit-Gets dev blockno b s order found = (
  record {
    next = refl;
    prev = refl;
    dev = λ c ne. refl;
    blockno = λ c ne. refl;
    refcnt = λ c ne. put_ne s.refcnt b _ c (λ e. ne (sym e));
    valid = λ c ne. refl;
    dirty = λ c ne. refl;
  },
  inl (record {
    cached = found;
    counted = put_at s.refcnt b _ b refl;
    still = found.3;
    flags = (refl, refl);
  }),
)

recycled-Gets :
    (dev blockno b : ℕ) (s : Cache) (order : List ℕ)
    → IsFirstOf (is_for dev blockno s) order none
    → IsFirstOf (is_unused s) (reverse order) (some b)
    → Gets dev blockno s order (some (b, recycle b dev blockno s))
unfolding Gets
recycled-Gets dev blockno b s order missing found = (
  record {
    next = refl;
    prev = refl;
    dev = λ c ne. put_ne s.dev b dev c (λ e. ne (sym e));
    blockno = λ c ne. put_ne s.blockno b blockno c (λ e. ne (sym e));
    refcnt = λ c ne. put_ne s.refcnt b 1 c (λ e. ne (sym e));
    valid = λ c ne. put_ne s.valid b false c (λ e. ne (sym e));
    dirty = λ c ne. put_ne s.dirty b false c (λ e. ne (sym e));
  },
  inr (record {
    missing = missing;
    unused = found;
    counted = put_at s.refcnt b 1 b refl;
    now_for = both _ _ dev blockno (put_at s.dev b dev b refl) (put_at s.blockno b blockno b refl);
    flags = (put_at s.valid b false b refl, put_at s.dirty b false b refl);
  }),
)

none-Gets :
    (dev blockno : ℕ) (s : Cache) (order : List ℕ)
    → IsFirstOf (is_for dev blockno s) order none
    → IsFirstOf (is_unused s) (reverse order) none
    → Gets dev blockno s order none
unfolding Gets
none-Gets dev blockno s order missing full = (missing, full)

-- bget on a list of at most NBUF buffers that is a ring returns the most recently used buffer that the
-- block has, with one more reference and its flags kept; or, if it has none, the least recently used
-- buffer that has no reference and is clean, which is then for the block, neither valid nor dirty, with
-- one reference. It changes no other buffer and not the list. It panics only if the block has no
-- buffer and each one has a reference or is dirty.
pub bget-Gets :
    (dev blockno : ℕ) (s : Cache) (order : List ℕ)
    → IsRing s order
    → length order ≤ nbuf
    → Gets dev blockno s order (bget dev blockno s)
unfolding bget
bget-Gets dev blockno s order h fit =
    let cached =
      find_cached-IsFirstOf (suc nbuf) dev blockno head s order (omega arith) h.headless h.chain in
    let unused =
      find_recyclable-IsFirstOf (suc nbuf) head s (reverse order)
        (omega (arith, length-reverse order)) (NotIn-reverse head order h.headless)
        (Chain-Back s.next s.prev head head order h.chain) in
    elim (Option-cases (find_cached (suc nbuf) (s.next head) dev blockno s)) [
      | inr (b, e) ↦
          let found = subst (IsFirstOf (is_for dev blockno s) order) e cached in
          rw (bget, e) (hit-Gets dev blockno b s order found)
      | inl e ↦
          let missing = subst (IsFirstOf (is_for dev blockno s) order) e cached in
          elim (Option-cases (find_recyclable (suc nbuf) (s.prev head) s)) [
            | inr (b, f) ↦
                let found = subst (IsFirstOf (is_unused s) (reverse order)) f unused in
                rw (bget, e, f) (recycled-Gets dev blockno b s order missing found)
            | inl f ↦
                let full = subst (IsFirstOf (is_unused s) (reverse order)) f unused in
                rw (bget, e, f) (none-Gets dev blockno s order missing full)
          ]
    ]
