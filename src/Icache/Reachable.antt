-- ===== src/Icache/Reachable.antt =====
-- The calls on inodes of fs.c in any order.
use xv6_fork.Prelude.{
  ℕ, suc, ◌≡◌, ◌≢◌, refl, sym, ap, ◌∙◌, inl, inr, arith, true, false, Bool-cases, none, some, List,
  [], ◌∷◌, ◌++◌, ◌==◌, ltb, In, count, count-here, count-elsewhere,
}
use mathlib.Core.Path.{subst}
use xv6_fork.Fs.{Fs}
use xv6_fork.Inode.{Inode, dinode}
use xv6_fork.Inode.OnDisk.{dinode-inum}
use xv6_fork.Icache.{Entry, Store, put, one_less, fewer, iget, idup, ilock, iput}
use xv6_fork.Icache.Entries.{IsCounted, Changes-IsCounted, IsAlone-kept, Gets, iget-Gets}
use xv6_fork.Icache.References.{
  in_cache, more-IsCounted, Gets-IsCounted, edited-IsCounted, Puts, shared-iput, iput-Puts,
}

-- The cache with the blocks, and the references that are held.
pub record Users : Type 0 where
  pub store : Store
  pub held : List ℕ

-- iget hands a reference out; all else is done with one in hand, also the changes to the inode and to
-- the blocks that the other functions of fs.c make.
pub data Step (u : Users) : Users → Type 0 where
  gets :
      {i : ℕ} {c : ℕ → Entry} (dev inum : ℕ)
      → iget dev inum u.store.cache ≡ some (i, c)
      → Step u (record { store = record u.store { cache = c }; held = i ∷ u.held })
  dups :
      (i : ℕ)
      → In i u.held
      → Step u
          (record { store = record u.store { cache = idup i u.store.cache }; held = i ∷ u.held })
  locks :
      {s : Store} (i : ℕ)
      → In i u.held
      → ilock i u.store ≡ some s
      → Step u (record { store = s; held = u.held })
  edits :
      (i : ℕ) (ip : Inode) (fs : Fs)
      → In i u.held
      → ip.inum ≡ (u.store.cache i).ip.inum
      → Step u (record {
        store = record {
          cache = put u.store.cache i (record (u.store.cache i) { ip = ip });
          fs = fs;
        };
        held = u.held;
      })
  puts :
      {s : Store} (i : ℕ) (xs ys : List ℕ)
      → u.held ≡ xs ++ i ∷ ys
      → iput i u.store ≡ some s
      → Step u (record { store = s; held = xs ++ ys })

pub data Reach (u : Users) : Users → Type 0 where
  here : Reach u u
  next : {v w : Users} → Reach u v → Step v w → Reach u w

count-In : (i : ℕ) (held : List ℕ) → In i held → count i held ≢ 0
count-In i [] none_there z = elim none_there [ ]
count-In i (x ∷ xs) (inl e) z = let same : (x == i) ≡ true = ground arith in absurd (ground arith)
count-In i (x ∷ xs) (inr h) z = elim (Bool-cases (x == i)) [
  | inl same ↦ absurd (ground arith)
  | inr other ↦ count-In i xs h (rw other at z)
]

held_nonzero :
    (i : ℕ) (c : ℕ → Entry) (held : List ℕ) → IsCounted c held → In i held → (c i).ref ≢ 0
held_nonzero i c held h mine z = count-In i held mine (sym (h.counts i) ∙ z)

Puts-IsCounted :
    (i : ℕ) (xs ys : List ℕ) (c c' : ℕ → Entry)
    → IsCounted c (xs ++ i ∷ ys)
    → Puts i c c'
    → IsCounted c' (xs ++ ys)
Puts-IsCounted i xs ys c c' h p =
    Changes-IsCounted i c (xs ++ i ∷ ys) c' (xs ++ ys)
      (record {
        within = in_cache c (xs ++ i ∷ ys) h i used;
        others = p.others;
        same = count-elsewhere i xs ys;
        count_i =
            p.less ∙ one_less_suc (c i).ref (count i (xs ++ ys)) (h.counts i ∙ count-here i xs ys);
        alone = λ still. elim p.kept [
          | inl (ed, en) ↦ IsAlone-kept (c' i) i c (xs ++ i ∷ ys) h used ed en
          | inr one ↦ absurd (still (p.less ∙ one_less_suc (c i).ref 0 one))
        ];
      })
      h
  where
    one_less_suc : (n m : ℕ) → n ≡ suc m → one_less n ≡ m
    one_less_suc n m e = ground arith

    used : (c i).ref ≢ 0
    used z = absurd (ground (arith, h.counts i, count-here i xs ys))

locks-IsCounted :
    (i : ℕ) (s s' : Store) (held : List ℕ)
    → (s.cache i).ref ≢ 0
    → IsCounted s.cache held
    → ilock i s ≡ some s'
    → IsCounted s'.cache held
unfolding ilock
locks-IsCounted i s s' held used h e =
    let held_once : ltb (s.cache i).ref 1 ≡ false = ground arith in
    elim (Bool-cases (s.cache i).valid) [
      | inl valid ↦
          let same : some s ≡ some s' = rw (held_once, valid) at e in
          subst (λ c. IsCounted c held) (same_cache s s' same) h
      | inr stale ↦ elim (Bool-cases ((dinode (s.cache i).ip.inum s.fs).type == 0)) [
        | inl no_type ↦
            let bad : none ≡ some s' = rw (held_once, stale, no_type) at e in absurd (cc)
        | inr typed ↦
            let w : Entry = record (s.cache i) {
              valid = true;
              ip = dinode (s.cache i).ip.inum s.fs;
            } in
            let after : Store = record s { cache = put s.cache i w } in
            let good : some after ≡ some s' = rw (held_once, stale, typed) at e in
            subst (λ c. IsCounted c held) (same_cache after s' good)
              (edited-IsCounted s.cache held h i w used refl refl
                (dinode-inum (s.cache i).ip.inum s.fs))
      ]
    ]
  where
    same_cache : (p q : Store) → some p ≡ some q → p.cache ≡ q.cache
    same_cache p q r = ap (λ o. elim o [ none ↦ p.cache | some t ↦ t.cache ]) r

Step-IsCounted :
    {u v : Users} → IsCounted u.store.cache u.held → Step u v → IsCounted v.store.cache v.held
unfolding idup
Step-IsCounted {u} h (gets {i} {c} dev inum e) =
    Gets-IsCounted u.store.cache u.held h dev inum i c
      (subst (Gets dev inum u.store.cache) e (iget-Gets dev inum u.store.cache))
Step-IsCounted {u} h (dups i mine) =
    more-IsCounted u.store.cache u.held h i (held_nonzero i u.store.cache u.held h mine)
Step-IsCounted {u} h (locks {s} i mine e) =
    locks-IsCounted i u.store s u.held (held_nonzero i u.store.cache u.held h mine) h e
Step-IsCounted {u} h (edits i ip fs mine e) =
    edited-IsCounted u.store.cache u.held h i _ (held_nonzero i u.store.cache u.held h mine) refl
      refl e
Step-IsCounted {u} h (puts {s} i xs ys split e) =
    Puts-IsCounted i xs ys u.store.cache s.cache (subst (IsCounted u.store.cache) split h)
      (iput-Puts i u.store s e)

Run-IsCounted :
    {u v : Users} → IsCounted u.store.cache u.held → Reach u v → IsCounted v.store.cache v.held
Run-IsCounted h here = h
Run-IsCounted h (next r s) = Step-IsCounted (Run-IsCounted h r) s

-- From a cache whose counts match the references held, with no inode in two entries, whatever calls of
-- iget are made, and of idup, ilock and iput with a reference in hand, and whatever those who hold one
-- write to the inode and to blocks: the counts keep matching and no inode gets two entries. iget
-- returns the entry that an inode in use has, with one more reference, or else an entry that nobody
-- refers to, and panics only if the inode has none and all are in use. iput of an inode that somebody
-- else refers to takes one reference away and does nothing else.
pub Reach-IsCounted :
    (u v : Users)
    → IsCounted u.store.cache u.held
    → Reach u v
    → IsCounted v.store.cache v.held
      × ((dev inum : ℕ) → Gets dev inum v.store.cache (iget dev inum v.store.cache))
      × ((i : ℕ) (xs ys : List ℕ)
          → v.held ≡ xs ++ i ∷ ys
          → In i (xs ++ ys)
          → iput i v.store ≡ some (record v.store { cache = fewer i v.store.cache }))
Reach-IsCounted u v h r = (
  Run-IsCounted h r,
  (λ dev inum. iget-Gets dev inum v.store.cache),
  (λ i xs ys split other.
      let k = subst (IsCounted v.store.cache) split (Run-IsCounted h r) in
      shared-iput i v.store (λ one.
        count-In i (xs ++ ys) other
          (one_more _ (sym (count-here i xs ys) ∙ sym (k.counts i) ∙ one)))),
)
  where
    one_more : (n : ℕ) → suc n ≡ 1 → n ≡ 0
    one_more n e = omega arith
