-- ===== src/Icache/Entries.antt =====
-- The entries of the inode cache of fs.c and their reference counts, one call at a time.
use xv6_fork.Prelude.{
  ℕ, ◌<◌, ◌≤◌, ◌≡◌, ◌≢◌, refl, sym, ap, ◌∙◌, ◌⊎◌, inl, inr, arith, true, false, Option, none, some,
  List, ◌==◌, count,
}
use mathlib.Core.Path.{subst}
use native.Mathlib.Decide.{ℕ_discrete}
use xv6_fork.Icache.{
  Entry, ninode, put, is_for, more, recycled, Found, cached, missing, iget_from, iget,
}
use xv6_fork.Icache.Search.{NoneFor, Finds, iget_from-Finds}

-- The reference counts are those of the references held, and no inode has two entries in use.
pub record IsCounted (c : ℕ → Entry) (held : List ℕ) : Type 0 where
  pub counts : (i : ℕ) → (c i).ref ≡ count i held
  pub inside : (i : ℕ) → ninode ≤ i → (c i).ref ≡ 0
  pub unique :
      (i j : ℕ)
      → (c i).ref ≢ 0
      → (c j).ref ≢ 0
      → (c i).dev ≡ (c j).dev
      → (c i).ip.inum ≡ (c j).ip.inum
      → i ≡ j

-- No other entry in use is for the inode of `e`.
abbrev pub IsAlone : Entry → ℕ → (ℕ → Entry) → Type 0
IsAlone e i c = (j : ℕ) → i ≢ j → (c j).ref ≢ 0 → e.dev ≡ (c j).dev → e.ip.inum ≡ (c j).ip.inum → ⊥

-- Entry `i` alone changes, with its count.
pub record Changes (i : ℕ) (c : ℕ → Entry) (held : List ℕ) (c' : ℕ → Entry) (held' : List ℕ)
    : Type 0 where
  pub within : i < ninode
  pub others : (j : ℕ) → i ≢ j → c' j ≡ c j
  pub same : (j : ℕ) → i ≢ j → count j held' ≡ count j held
  pub count_i : (c' i).ref ≡ count i held'
  pub alone : (c' i).ref ≢ 0 → IsAlone (c' i) i c

pub Changes-IsCounted :
    (i : ℕ) (c : ℕ → Entry) (held : List ℕ) (c' : ℕ → Entry) (held' : List ℕ)
    → Changes i c held c' held'
    → IsCounted c held
    → IsCounted c' held'
Changes-IsCounted i c held c' held' d h = record {
  counts = λ j. elim (ℕ_discrete i j) [
    | yes e ↦ subst (λ x. (c' x).ref ≡ count x held') e d.count_i
    | no ne ↦ ap (λ e. e.ref) (d.others j ne) ∙ h.counts j ∙ sym (d.same j ne)
  ];
  inside = λ j le.
      let ne : i ≢ j = λ e. omega (arith, d.within) in
      ap (λ e. e.ref) (d.others j ne) ∙ h.inside j le;
  unique = λ j k nj nk ed en. elim (ℕ_discrete i j) [
    | yes e ↦ elim (ℕ_discrete i k) [
      | yes f ↦ sym e ∙ f
      | no ne ↦ absurd (
          clash k ne (λ z. nj (ap (λ x. (c' x).ref) (sym e) ∙ z)) nk (ap (λ x. (c' x).dev) e ∙ ed)
            (ap (λ x. (c' x).ip.inum) e ∙ en))
    ]
    | no ne ↦ elim (ℕ_discrete i k) [
      | yes f ↦ absurd (
          clash j ne (λ z. nk (ap (λ x. (c' x).ref) (sym f) ∙ z)) nj
            (ap (λ x. (c' x).dev) f ∙ sym ed) (ap (λ x. (c' x).ip.inum) f ∙ sym en))
      | no nf ↦
          h.unique j k (λ z. nj (ap (λ e. e.ref) (d.others j ne) ∙ z))
            (λ z. nk (ap (λ e. e.ref) (d.others k nf) ∙ z))
            (ap (λ e. e.dev) (sym (d.others j ne)) ∙ ed ∙ ap (λ e. e.dev) (d.others k nf))
            (ap (λ e. e.ip.inum) (sym (d.others j ne)) ∙ en ∙ ap (λ e. e.ip.inum) (d.others k nf))
    ]
  ];
}
  where
    clash :
        (j : ℕ)
        → i ≢ j
        → (c' i).ref ≢ 0
        → (c' j).ref ≢ 0
        → (c' i).dev ≡ (c' j).dev
        → (c' i).ip.inum ≡ (c' j).ip.inum
        → ⊥
    clash j ne ni nj ed en =
        d.alone ni j ne (λ z. nj (ap (λ e. e.ref) (d.others j ne) ∙ z))
          (ed ∙ ap (λ e. e.dev) (d.others j ne)) (en ∙ ap (λ e. e.ip.inum) (d.others j ne))

-- A change that leaves the inode of an entry in use as it is.
pub IsAlone-kept :
    (e : Entry) (i : ℕ) (c : ℕ → Entry) (held : List ℕ)
    → IsCounted c held
    → (c i).ref ≢ 0
    → e.dev ≡ (c i).dev
    → e.ip.inum ≡ (c i).ip.inum
    → IsAlone e i c
IsAlone-kept e i c held h used ed en j ne nj fd fn =
    ne (h.unique i j used nj (sym ed ∙ fd) (sym en ∙ fn))

pub put_self : (c : ℕ → Entry) (i : ℕ) (e : Entry) → put c i e i ≡ e
put_self c i e = let same : (i == i) ≡ true = ground arith in rw same refl

pub put_ne : (c : ℕ → Entry) (i j : ℕ) (e : Entry) → i ≢ j → put c i e j ≡ c j
put_ne c i j e ne = let other : (i == j) ≡ false = ground arith in rw other refl

pub is_for-not :
    (dev inum : ℕ) (e : Entry)
    → is_for dev inum e ≡ false
    → e.ref ≢ 0
    → dev ≡ e.dev
    → inum ≡ e.ip.inum
    → ⊥
is_for-not dev inum e h nz ed en = ground arith

pub is_for-true :
    (dev inum : ℕ) (e : Entry)
    → is_for dev inum e ≡ true
    → (e.ref ≢ 0) × (e.dev ≡ dev) × (e.ip.inum ≡ inum)
is_for-true dev inum e h = ((λ z. ground arith), ground arith, ground arith)

-- What iget comes to: one more reference to the entry that the inode has; or, if it has none, an entry
-- without references for it, not valid and with one; or a panic with every entry in use by others.
unfoldable pub Gets : ℕ → ℕ → (ℕ → Entry) → Option (ℕ × (ℕ → Entry)) → Type 0
Gets dev inum c none = NoneFor dev inum c 0 ninode × ((i : ℕ) → i < ninode → (c i).ref ≢ 0)
Gets dev inum c (some (i, c')) =
    (i < ninode)
    × ((is_for dev inum (c i) ≡ true) × (c' ≡ more i c)
        ⊎ NoneFor dev inum c 0 ninode × ((c i).ref ≡ 0) × (c' ≡ recycled i dev inum c))

pub iget-Gets : (dev inum : ℕ) (c : ℕ → Entry) → Gets dev inum c (iget dev inum c)
unfolding Gets iget
iget-Gets dev inum c = result (iget_from ninode 0 none dev inum c) refl (iget_from-Finds dev inum c)
  where
    result :
        (r : Found)
        → iget_from ninode 0 none dev inum c ≡ r
        → Finds dev inum c r
        → Gets dev inum c (iget dev inum c)
    result (cached i) e f = rw (iget, e) (f.0, inl (f.1, refl))
    result (missing none) e f = rw (iget, e) f
    result (missing (some i)) e f = rw (iget, e) (f.1, inr (f.0, f.2, refl))
