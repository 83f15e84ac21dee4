-- ===== src/Fs/Owners.antt =====
-- balloc and bfree hand blocks out and take them back.
use xv6_fork.Prelude.{
  ℕ, ◌+◌, ◌/◌, ◌%◌, ◌<◌, ◌≡◌, ◌≢◌, refl, sym, ap, ◌∙◌, ◌⊎◌, inl, inr, arith, Bool, true, false,
  none, some, List, [], ◌∷◌, ◌++◌, if◌then◌else◌, ◌==◌, NotIn, In, Distinct, Distinct-move_back,
}
use mathlib.Core.Path.{subst}
use xv6_fork.Fs.{Fs, bpb, bblock, has_bit, clear_bit, balloc, bfree}
use xv6_fork.Fs.Bitmap.{used, IsBytes, used-clear_bit, clear_bit-IsBytes}
use xv6_fork.Fs.Scan.{AllUsed, IsFirst}
use xv6_fork.Fs.Taking.{IsMapped, Takes, balloc-Takes, bfree-used}

-- The file system, and the blocks that were handed out and not given back.
pub record Users : Type 0 where
  pub fs : Fs
  pub owned : List ℕ

-- A block that is owned may be written to.
abbrev pub fill : ℕ → (ℕ → ℕ) → Fs → Fs
fill x bytes fs = record fs { block = λ k i. if x == k then bytes i else fs.block k i }

pub data Step (u : Users) : Users → Type 0 where
  takes :
      {x : ℕ} {after : Fs}
      → balloc u.fs ≡ some (x, after)
      → Step u (record { fs = after; owned = x ∷ u.owned })
  gives :
      {after : Fs} (x : ℕ) (xs ys : List ℕ)
      → u.owned ≡ xs ++ x ∷ ys
      → bfree x u.fs ≡ some after
      → Step u (record { fs = after; owned = xs ++ ys })
  fills :
      (x : ℕ) (bytes : ℕ → ℕ)
      → In x u.owned
      → ((i : ℕ) → bytes i < 256)
      → Step u (record { fs = fill x bytes u.fs; owned = u.owned })

pub data Reach (u : Users) : Users → Type 0 where
  here : Reach u u
  next : {v w : Users} → Reach u v → Step v w → Reach u w

-- Owned blocks are distinct, in the file system, marked used, and not of the bitmap.
pub record IsOwned (fs : Fs) (owned : List ℕ) : Type 0 where
  pub bytes : IsBytes fs
  pub mapped : IsMapped fs
  pub distinct : Distinct owned
  pub inside : (x : ℕ) → In x owned → x < fs.size
  pub marked : (x : ℕ) → In x owned → used fs x ≡ true
  pub apart : (x y : ℕ) → In x owned → y < fs.size → bblock y fs ≢ x

NotIn-of : (x : ℕ) (xs : List ℕ) → ((y : ℕ) → In y xs → x ≢ y) → NotIn x xs
NotIn-of x [] h = tt
NotIn-of x (y ∷ ys) h = ((λ e. h y (inl refl) (sym e)), NotIn-of x ys (λ z i. h z (inr i)))

In-middle : (x : ℕ) (xs ys : List ℕ) → In x (xs ++ x ∷ ys)
In-middle x [] ys = inl refl
In-middle x (z ∷ xs) ys = inr (In-middle x xs ys)

In-rest : (v x : ℕ) (xs ys : List ℕ) → In v (xs ++ ys) → In v (xs ++ x ∷ ys)
In-rest v x [] ys h = inr h
In-rest v x (z ∷ xs) ys (inl e) = inl e
In-rest v x (z ∷ xs) ys (inr h) = inr (In-rest v x xs ys h)

NotIn-ne : (x v : ℕ) (xs : List ℕ) → NotIn x xs → In v xs → x ≢ v
NotIn-ne x v [] h i = absurd i
NotIn-ne x v (z ∷ xs) h (inl e) = λ q. h.0 (e ∙ sym q)
NotIn-ne x v (z ∷ xs) h (inr i) = NotIn-ne x v xs h.1 i

or_true : (b c : Bool) → c ≡ true → (if b then true else c) ≡ true
or_true b c e = ground arith

if_ne : (x y : ℕ) (b c : Bool) → x ≢ y → (if x == y then b else c) ≡ c
if_ne x y b c ne = let other : (x == y) ≡ false = ground arith in rw other refl

module _ (fs after : Fs) (x : ℕ) (owned : List ℕ) (t : Takes fs x after)
    (h : IsOwned fs owned) where
  same_bblock : (y : ℕ) → bblock y after ≡ bblock y fs
  same_bblock y = ap (λ s. y / bpb + s) t.bmapstart

  smaller : (y : ℕ) → y < after.size → y < fs.size
  smaller y lt = rw t.size at lt

  still_used : (y : ℕ) → y < fs.size → used fs y ≡ true → used after y ≡ true
  still_used y lt u = t.marks y lt ∙ or_true (x == y) (used fs y) u

  takes-IsOwned : IsOwned after (x ∷ owned)
  takes-IsOwned = record {
    bytes = t.bytes;
    mapped = λ y lt.
        let (low, u) = h.mapped y (smaller y lt) in
        (
          rw (same_bblock y, t.size) low,
          ap (used after) (same_bblock y) ∙ still_used (bblock y fs) low u,
        );
    distinct = (NotIn-of x owned (λ y i e. free_not_used y i e), h.distinct);
    inside = λ y i.
        rw t.size
          (elim i [ inl e ↦ subst (λ z. z < fs.size) e t.first.inside | inr old ↦ h.inside y old ]);
    marked = λ y i. elim i [
      | inl e ↦ subst (λ z. used after z ≡ true) e now
      | inr old ↦ still_used y (h.inside y old) (h.marked y old)
    ];
    apart = λ v y i lt e. elim i [
      | inl q ↦ not_map y (smaller y lt) (sym (same_bblock y) ∙ e ∙ sym q)
      | inr old ↦ h.apart v y old (smaller y lt) (sym (same_bblock y) ∙ e)
    ];
  }
    where
      free_not_used : (y : ℕ) → In y owned → x ≢ y
      free_not_used y i e =
          let u = h.marked y i in
          let free = subst (λ z. used fs z ≡ false) e t.first.free in absurd (cc)

      now : used after x ≡ true
      now =
          let same : (x == x) ≡ true = ground arith in
          t.marks x t.first.inside ∙ ap (λ b. if b then true else used fs x) same

      not_map : (y : ℕ) → y < fs.size → bblock y fs ≢ x
      not_map y lt e =
          let u = subst (λ z. used fs z ≡ true) e (h.mapped y lt).1 in
          let free = t.first.free in absurd (cc)

module _ (fs : Fs) (x : ℕ) (xs ys : List ℕ) (h : IsOwned fs (xs ++ x ∷ ys)) where
  abbrev freed : Fs
  freed = clear_bit x (x % bpb) fs

  freed-used : (y : ℕ) → used freed y ≡ (if x == y then false else used fs y)
  freed-used = used-clear_bit fs h.bytes x (h.marked x (In-middle x xs ys))

  stays : (y : ℕ) → x ≢ y → used fs y ≡ true → used freed y ≡ true
  stays y ne u = freed-used y ∙ if_ne x y false (used fs y) ne ∙ u

  gives-IsOwned : IsOwned freed (xs ++ ys)
  gives-IsOwned =
      let moved = Distinct-move_back x xs ys h.distinct in
      record {
        bytes = clear_bit-IsBytes fs h.bytes x;
        mapped = λ y lt.
            let (low, u) = h.mapped y lt in
            (low, stays (bblock y fs) (λ e. h.apart x y (In-middle x xs ys) lt (sym e)) u);
        distinct = moved.1;
        inside = λ y i. h.inside y (In-rest y x xs ys i);
        marked =
            λ y i. stays y (NotIn-ne x y (xs ++ ys) moved.0 i) (h.marked y (In-rest y x xs ys i));
        apart = λ v y i. h.apart v y (In-rest v x xs ys i);
      }

fill-used :
    (fs : Fs) (x y : ℕ) (bytes : ℕ → ℕ) → bblock y fs ≢ x → used (fill x bytes fs) y ≡ used fs y
fill-used fs x y bytes ne =
    let same : (fill x bytes fs).block (bblock y fs) (y % bpb / 8)
        ≡ fs.block (bblock y fs) (y % bpb / 8) =
      ground arith in
    ap (λ z. has_bit z (y % bpb % 8)) same

fills-IsOwned :
    (fs : Fs) (x : ℕ) (bytes : ℕ → ℕ) (owned : List ℕ)
    → In x owned
    → ((i : ℕ) → bytes i < 256)
    → IsOwned fs owned
    → IsOwned (fill x bytes fs) owned
fills-IsOwned fs x bytes owned mine small h = record {
  bytes = λ k i. ground (arith, small i, h.bytes k i);
  mapped = λ y lt.
      let (low, u) = h.mapped y lt in
      (low, fill-used fs x (bblock y fs) bytes (h.apart x (bblock y fs) mine low) ∙ u);
  distinct = h.distinct;
  inside = h.inside;
  marked = λ y i. fill-used fs x y bytes (h.apart x y mine (h.inside y i)) ∙ h.marked y i;
  apart = h.apart;
}

balloc-after :
    (fs after : Fs) (x : ℕ) (owned : List ℕ)
    → IsOwned fs owned
    → balloc fs ≡ some (x, after)
    → Takes fs x after
balloc-after fs after x owned h e = elim (balloc-Takes fs h.bytes h.mapped) [
  | inl (y, w, found, t) ↦
      subst (λ p. Takes fs p.0 p.1) (same_pair (y, w) (x, after) (sym found ∙ e)) t
  | inr (full, all) ↦ let clash = sym full ∙ e in absurd (cc)
]
  where
    same_pair : (p q : ℕ × Fs) → some p ≡ some q → p ≡ q
    same_pair p q s = ap (λ r. elim r [ none ↦ p | some z ↦ z ]) s

Step-IsOwned : {u v : Users} → IsOwned u.fs u.owned → Step u v → IsOwned v.fs v.owned
Step-IsOwned {u} h (takes {x} {after} e) =
    takes-IsOwned u.fs after x u.owned (balloc-after u.fs after x u.owned h e) h
Step-IsOwned {u} h (gives {after} x xs ys split e) =
    let k = subst (IsOwned u.fs) split h in
    let done = sym (bfree-used u.fs x (k.marked x (In-middle x xs ys))) ∙ e in
    subst (λ w. IsOwned w (xs ++ ys)) (same_fs _ after done) (gives-IsOwned u.fs x xs ys k)
  where
    same_fs : (p q : Fs) → some p ≡ some q → p ≡ q
    same_fs p q s = ap (λ r. elim r [ none ↦ p | some z ↦ z ]) s
Step-IsOwned {u} h (fills x bytes mine small) = fills-IsOwned u.fs x bytes u.owned mine small h

Run-IsOwned : {u v : Users} → IsOwned u.fs u.owned → Reach u v → IsOwned v.fs v.owned
Run-IsOwned h here = h
Run-IsOwned h (next r s) = Step-IsOwned (Run-IsOwned h r) s

NotIn-balloc :
    (fs after : Fs) (x : ℕ) (owned : List ℕ)
    → Takes fs x after
    → IsOwned fs owned
    → NotIn x owned × ((y i : ℕ) → In y owned → after.block y i ≡ fs.block y i)
NotIn-balloc fs after x owned t h =
    let fresh = λ (y : ℕ) (i : In y owned) (e : x ≡ y). not_used y i e in
    (
      NotIn-of x owned fresh,
      λ y i mine.
          t.keeps y i (λ e. fresh y mine (sym e)) (λ e. h.apart y x mine t.first.inside (sym e)),
    )
  where
    not_used : (y : ℕ) → In y owned → x ≢ y
    not_used y i e =
        let u = h.marked y i in
        let free = subst (λ z. used fs z ≡ false) e t.first.free in absurd (cc)

-- From a file system whose bitmap marks its own blocks and the owned ones, however blocks are taken by
-- balloc, given back by bfree and written by those who own them: no block is owned twice, and none of
-- the bitmap is. balloc hands out the first block that is not marked, owned by nobody, zeroed, and with
-- the contents of all owned blocks kept, or panics with every block marked. bfree of an owned block
-- does not panic.
pub Reach-IsOwned :
    (u v : Users)
    → IsOwned u.fs u.owned
    → Reach u v
    → IsOwned v.fs v.owned
      × (((x : ℕ) × (after : Fs) × (balloc v.fs ≡ some (x, after))
            × IsFirst v.fs 0 x
            × NotIn x v.owned
            × ((i : ℕ) → i < 512 → after.block x i ≡ 0)
            × ((y i : ℕ) → In y v.owned → after.block y i ≡ v.fs.block y i))
          ⊎ (balloc v.fs ≡ none) × AllUsed v.fs 0 v.fs.size)
      × ((x : ℕ) → In x v.owned → (after : Fs) × (bfree x v.fs ≡ some after))
Reach-IsOwned u v h r =
    let k = Run-IsOwned h r in
    (
      k,
      elim (balloc-Takes v.fs k.bytes k.mapped) [
        | inl (x, after, found, t) ↦
            let (fresh, kept) = NotIn-balloc v.fs after x v.owned t k in
            inl (x, after, found, t.first, fresh, t.zeroed, kept)
        | inr full ↦ inr full
      ],
      λ x i. (clear_bit x (x % bpb) v.fs, bfree-used v.fs x (k.marked x i)),
    )
