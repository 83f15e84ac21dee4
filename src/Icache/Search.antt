-- ===== src/Icache/Search.antt =====
-- The loop of iget of fs.c.
use xv6_fork.Prelude.{
  ℕ, zero, suc, ◌+◌, ◌<◌, ◌≤◌, ◌≡◌, ◌≢◌, refl, ◌⊎◌, inl, inr, arith, true, false, Bool-cases,
  Option, none, some, ◌==◌,
}
use mathlib.Core.Path.{subst}
use native.Mathlib.Decide.{ℕ_discrete}
use xv6_fork.Icache.{Entry, is_for, remember, Found, cached, missing, iget_from, ninode}

-- No entry from `lo` to below `hi` is for the inode.
abbrev pub NoneFor : ℕ → ℕ → (ℕ → Entry) → ℕ → ℕ → Type 0
NoneFor dev inum c lo hi = (x : ℕ) → lo ≤ x → x < hi → is_for dev inum (c x) ≡ false

-- The entry that is remembered from `lo` to below `hi`, when `empty` was before.
abbrev Spare : (ℕ → Entry) → ℕ → ℕ → Option ℕ → Option ℕ → Type 0
Spare c lo hi empty none = (empty ≡ none) × ((x : ℕ) → lo ≤ x → x < hi → (c x).ref ≢ 0)
Spare c lo hi empty (some j) = (empty ≡ some j) ⊎ (j < hi) × ((c j).ref ≡ 0)

abbrev FoundIn : ℕ → ℕ → (ℕ → Entry) → ℕ → ℕ → Option ℕ → Found → Type 0
FoundIn dev inum c lo hi empty (cached j) =
    (j < hi) × (is_for dev inum (c j) ≡ true) × NoneFor dev inum c lo j
FoundIn dev inum c lo hi empty (missing e) = NoneFor dev inum c lo hi × Spare c lo hi empty e

module _ (dev inum : ℕ) (c : ℕ → Entry) where
  next-NoneFor :
      (lo hi : ℕ)
      → is_for dev inum (c lo) ≡ false
      → NoneFor dev inum c (suc lo) hi
      → NoneFor dev inum c lo hi
  next-NoneFor lo hi other h x le lt = elim (ℕ_discrete lo x) [
    | yes e ↦ subst (λ y. is_for dev inum (c y) ≡ false) e other
    | no ne ↦ h x (omega arith) lt
  ]

  remembered :
      (lo j : ℕ) (empty : Option ℕ)
      → remember empty lo (c lo) ≡ some j
      → (empty ≡ some j) ⊎ (lo ≡ j) × ((c lo).ref ≡ 0)
  remembered lo j none e = elim (Bool-cases ((c lo).ref == 0)) [
    | inl free ↦ let k : some lo ≡ some j = rw free at e in inr (ground arith, ground arith)
    | inr used ↦ let k : none ≡ some j = rw used at e in absurd (cc)
  ]
  remembered lo j (some x) e = inl e

  forgotten :
      (lo : ℕ) (empty : Option ℕ)
      → remember empty lo (c lo) ≡ none
      → (empty ≡ none) × ((c lo).ref ≢ 0)
  forgotten lo none e = (
    refl,
    λ z.
        let free : ((c lo).ref == 0) ≡ true = ground arith in
        let k : some lo ≡ none = rw free at e in absurd (cc),
  )
  forgotten lo (some x) e = absurd (cc)

  next-Spare :
      (lo hi : ℕ) (empty e : Option ℕ)
      → suc lo ≤ hi
      → Spare c (suc lo) hi (remember empty lo (c lo)) e
      → Spare c lo hi empty e
  next-Spare lo hi empty (some j) le (inr h) = inr h
  next-Spare lo hi empty (some j) le (inl h) = elim (remembered lo j empty h) [
    | inl old ↦ inl old
    | inr (here, free) ↦ inr (omega arith, subst (λ x. (c x).ref ≡ 0) here free)
  ]
  next-Spare lo hi empty none le (h, rest) =
      let (old, used) = forgotten lo empty h in
      (
        old,
        λ x low lt. elim (ℕ_discrete lo x) [
          | yes e ↦ subst (λ y. (c y).ref ≢ 0) e used
          | no ne ↦ rest x (omega arith) lt
        ],
      )

  next-FoundIn :
      (lo hi : ℕ) (empty : Option ℕ) (r : Found)
      → suc lo ≤ hi
      → is_for dev inum (c lo) ≡ false
      → FoundIn dev inum c (suc lo) hi (remember empty lo (c lo)) r
      → FoundIn dev inum c lo hi empty r
  next-FoundIn lo hi empty (cached j) le other (lt, here, before) =
      (lt, here, next-NoneFor lo j other before)
  next-FoundIn lo hi empty (missing e) le other (h, s) =
      (next-NoneFor lo hi other h, next-Spare lo hi empty e le s)

  iget_from-FoundIn :
      (k lo hi : ℕ) (empty : Option ℕ)
      → lo + k ≡ hi
      → FoundIn dev inum c lo hi empty (iget_from k lo empty dev inum c)
  unfolding iget_from
  iget_from-FoundIn zero lo hi none e =
      ((λ x le lt. absurd (omega arith)), (refl, λ x le lt. absurd (omega arith)))
  iget_from-FoundIn zero lo hi (some j) e = ((λ x le lt. absurd (omega arith)), inl refl)
  iget_from-FoundIn (suc k) lo hi empty e = elim (Bool-cases (is_for dev inum (c lo))) [
    | inl found ↦ rw found (omega arith, found, λ x le lt. absurd (omega arith))
    | inr other ↦ rw other (
        next-FoundIn lo hi empty (iget_from k (suc lo) (remember empty lo (c lo)) dev inum c)
          (omega arith) other
          (iget_from-FoundIn k (suc lo) hi (remember empty lo (c lo)) (omega arith)))
  ]

  -- What the search of the whole cache comes to: the first entry for the inode, or one that is not
  -- referred to, or nothing if every one is.
  abbrev pub Finds : Found → Type 0
  Finds (cached j) = (j < ninode) × (is_for dev inum (c j) ≡ true) × NoneFor dev inum c 0 j
  Finds (missing none) = NoneFor dev inum c 0 ninode × ((x : ℕ) → x < ninode → (c x).ref ≢ 0)
  Finds (missing (some j)) = NoneFor dev inum c 0 ninode × (j < ninode) × ((c j).ref ≡ 0)

  whole : (r : Found) → FoundIn dev inum c 0 ninode none r → Finds r
  whole (cached j) h = h
  whole (missing none) (h, (e, used)) = (h, λ x lt. used x (omega arith) lt)
  whole (missing (some j)) (h, inl e) = absurd (cc)
  whole (missing (some j)) (h, inr s) = (h, s.0, s.1)

  pub iget_from-Finds : Finds (iget_from ninode 0 none dev inum c)
  iget_from-Finds =
      whole (iget_from ninode 0 none dev inum c) (iget_from-FoundIn ninode 0 ninode none refl)
