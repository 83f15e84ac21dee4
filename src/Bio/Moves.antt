-- ===== src/Bio/Moves.antt =====
-- binit and brelse of bio.c keep the list of buffers a ring.
use xv6_fork.Prelude.{
  ℕ, zero, suc, ◌+◌, ◌≤◌, ◌≡◌, ◌≢◌, refl, sym, inl, inr, arith, List, [], ◌∷◌, ◌++◌, ◌==◌, NotIn,
  Distinct, Distinct-move_back, NotIn-move_back, NotIn-append_right, if◌then◌else◌, Bool-cases,
  sub32,
}
use mathlib.Core.Path.{subst}
use xv6_fork.Bio.{Cache, head, nbuf, put, link, take_out, init_from, binit, brelse}
use xv6_fork.Bio.Ring.{Chain, put_ne, put_at, split, join, insert, first_ne}

-- The list of buffers, from the most to the least recently used: `order` forwards through `next` and
-- backwards through `prev`, from the head to the head.
pub record IsRing (s : Cache) (order : List ℕ) : Type 0 where
  pub chain : Chain s.next s.prev head order head
  pub distinct : Distinct order
  pub headless : NotIn head order

link-IsRing :
    (b : ℕ) (s : Cache) (order : List ℕ)
    → NotIn b order
    → b ≢ head
    → IsRing s order
    → IsRing (link b s) (b ∷ order)
unfolding link
link-IsRing b s order out ne h =
    let e : put s.next b (s.next head) head ≡ s.next head = put_ne s.next b _ head ne in
    record {
      chain =
          subst
            (λ k.
              Chain (put (put s.next b (s.next head)) head b) (put (put s.prev b head) k b) head
                (b ∷ order) head)
            (sym e)
            (insert s.next s.prev head b head order out h.headless h.distinct h.headless ne ne
              h.chain);
      distinct = (out, h.distinct);
      headless = (ne, h.headless);
    }

take_out-IsRing :
    (b : ℕ) (s : Cache) (xs ys : List ℕ)
    → IsRing s (xs ++ b ∷ ys)
    → IsRing (take_out b s) (xs ++ ys)
unfolding take_out
take_out-IsRing b s xs ys h =
    let (before, behind) = split s.next s.prev head b head xs ys h.chain in
    let d = Distinct-move_back b xs ys h.distinct in
    let out = NotIn-move_back head b xs ys h.headless in
    let e : put s.prev (s.next b) (s.prev b) b ≡ s.prev b = put_ne s.prev _ _ b (λ same.
      first_ne s.next s.prev b head b ys out.0 (NotIn-append_right b xs ys d.0) behind
        (sym same)) in
    record {
      chain =
          subst
            (λ k.
              Chain (put s.next k (s.next b)) (put s.prev (s.next b) (s.prev b)) head (xs ++ ys)
                head)
            (sym e) (join s.next s.prev head b head xs ys d.1 out.1 out.1 before behind);
      distinct = d.1;
      headless = out.1;
    }

-- The buffers `b - 1`, .., 0.
unfoldable pub downwards : ℕ → List ℕ
downwards zero = []
downwards (suc b) = b ∷ downwards b

NotIn-downwards : (v b : ℕ) → b ≤ v → NotIn v (downwards b)
unfolding downwards
NotIn-downwards v zero h = tt
NotIn-downwards v (suc b) h = ((omega arith), NotIn-downwards v b (omega arith))

init_from-IsRing :
    (k b : ℕ) (s : Cache)
    → b + k ≤ nbuf
    → IsRing s (downwards b)
    → IsRing (init_from k b s) (downwards (b + k))
unfolding init_from downwards
init_from-IsRing zero b s h ring =
    let e : b ≡ b + 0 = omega arith in subst (λ n. IsRing s (downwards n)) e ring
init_from-IsRing (suc k) b s h ring =
    let e : b + 1 + k ≡ b + suc k = omega arith in
    let next_b : suc b ≡ b + 1 = omega arith in
    let linked =
      link-IsRing b s (downwards b) (NotIn-downwards b b (omega arith)) (omega arith) ring in
    subst (λ n. IsRing (init_from k (b + 1) (link b s)) (downwards n)) e
      (init_from-IsRing k (b + 1) (link b s) (omega arith)
        (subst (λ n. IsRing (link b s) (downwards n)) next_b linked))

-- binit makes the list of all buffers, the last one first, whatever the memory held before.
pub binit-IsRing : (s : Cache) → IsRing (binit s) (downwards nbuf)
unfolding binit downwards
binit-IsRing s =
    init_from-IsRing nbuf 0 _ (omega arith)
      record { chain = (refl, refl); distinct = tt; headless = tt }

-- brelse of a buffer of the list puts it at the front, as the most recently used, if no reference is
-- left, and otherwise leaves the list; the order of the other buffers stays.
pub brelse-IsRing :
    (b : ℕ) (s : Cache) (xs ys : List ℕ)
    → IsRing s (xs ++ b ∷ ys)
    → IsRing (brelse b s) (if sub32 (s.refcnt b) 1 == 0 then b ∷ (xs ++ ys) else xs ++ b ∷ ys)
unfolding brelse
brelse-IsRing b s xs ys h =
    let t = record s { refcnt = put s.refcnt b (sub32 (s.refcnt b) 1) } in
    let e : put s.refcnt b (sub32 (s.refcnt b) 1) b ≡ sub32 (s.refcnt b) 1 =
      put_at s.refcnt b _ b refl in
    let kept : IsRing t (xs ++ b ∷ ys) = record {
      chain = h.chain;
      distinct = h.distinct;
      headless = h.headless;
    } in
    let d = Distinct-move_back b xs ys h.distinct in
    let out = NotIn-move_back head b xs ys h.headless in
    rw e (elim (Bool-cases (sub32 (s.refcnt b) 1 == 0)) [
      | inl last ↦
          rw last
            (link-IsRing b (take_out b t) (xs ++ ys) d.0 out.0 (take_out-IsRing b t xs ys kept))
      | inr more ↦ rw more kept
    ])
