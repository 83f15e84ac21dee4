-- ===== src/Icache/References.antt =====
-- The references to inodes in memory that processes hold, through any calls of fs.c.
use xv6_fork.Prelude.{
  ℕ, suc, ◌+◌, ◌<◌, ◌≡◌, ◌≢◌, refl, sym, ap, ◌∙◌, ◌⊎◌, inl, inr, arith, Bool, true, false,
  Bool-cases, Option, none, some, List, ◌∷◌, ◌==◌, ◌&&◌, ltb, count_self, count_ne,
}
use mathlib.Core.Path.{subst}
use xv6_fork.Fs.{Fs}
use xv6_fork.Inode.{Inode, iupdate}
use xv6_fork.Inode.Truncate.{itrunc}
use xv6_fork.Icache.{Entry, Store, ninode, put, more, recycled, one_less, fewer, discard, iput}
use xv6_fork.Icache.Search.{NoneFor}
use xv6_fork.Icache.Entries.{
  IsCounted, Changes-IsCounted, IsAlone-kept, put_self, put_ne, is_for-true, is_for-not, Gets,
}

module _ (c : ℕ → Entry) (held : List ℕ) (h : IsCounted c held) where
  -- An entry in use is one of the cache.
  pub in_cache : (i : ℕ) → (c i).ref ≢ 0 → i < ninode
  in_cache i nz = elim (Bool-cases (ltb i ninode)) [
    | inl lt ↦ ground arith
    | inr ge ↦ absurd (nz (h.inside i (ground arith)))
  ]

  pub more-IsCounted : (i : ℕ) → (c i).ref ≢ 0 → IsCounted (more i c) (i ∷ held)
  more-IsCounted i nz =
      Changes-IsCounted i c held (more i c) (i ∷ held)
        (record {
          within = in_cache i nz;
          others = λ j ne. put_ne c i j _ ne;
          same = λ j ne. count_ne i j held ne;
          count_i =
              ap (λ e. e.ref) (put_self c i _)
              ∙ plus_one (c i).ref
              ∙ ap suc (h.counts i)
              ∙ sym (count_self i held);
          alone = λ used.
              IsAlone-kept (more i c i) i c held h nz (ap (λ e. e.dev) (put_self c i _))
                (ap (λ e. e.ip.inum) (put_self c i _));
        })
        h
    where
      plus_one : (n : ℕ) → n + 1 ≡ suc n
      plus_one n = omega arith

  recycled-IsCounted :
      (dev inum i : ℕ)
      → i < ninode
      → (c i).ref ≡ 0
      → NoneFor dev inum c 0 ninode
      → IsCounted (recycled i dev inum c) (i ∷ held)
  recycled-IsCounted dev inum i lt free unmet =
      Changes-IsCounted i c held (recycled i dev inum c) (i ∷ held)
        (record {
          within = lt;
          others = λ j ne. put_ne c i j _ ne;
          same = λ j ne. count_ne i j held ne;
          count_i =
              ap (λ e. e.ref) (put_self c i _)
              ∙ ap suc (sym free ∙ h.counts i)
              ∙ sym (count_self i held);
          alone = λ used j ne nz ed en.
              no_match j nz (sym (ap (λ e. e.dev) (put_self c i _)) ∙ ed)
                (sym (ap (λ e. e.ip.inum) (put_self c i _)) ∙ en);
        })
        h
    where
      no_match : (j : ℕ) → (c j).ref ≢ 0 → dev ≡ (c j).dev → inum ≡ (c j).ip.inum → ⊥
      no_match j nz ed en =
          is_for-not dev inum (c j) (unmet j (omega arith) (in_cache j nz)) nz ed en

  pub Gets-IsCounted :
      (dev inum i : ℕ) (c' : ℕ → Entry) → Gets dev inum c (some (i, c')) → IsCounted c' (i ∷ held)
  unfolding Gets
  Gets-IsCounted dev inum i c' (lt, inl (found, e)) =
      subst (λ d. IsCounted d (i ∷ held)) (sym e)
        (more-IsCounted i (is_for-true dev inum (c i) found).0)
  Gets-IsCounted dev inum i c' (lt, inr (unmet, free, e)) =
      subst (λ d. IsCounted d (i ∷ held)) (sym e) (recycled-IsCounted dev inum i lt free unmet)

  -- A holder's change to an entry, its references and its number kept.
  pub edited-IsCounted :
      (i : ℕ) (e : Entry)
      → (c i).ref ≢ 0
      → e.ref ≡ (c i).ref
      → e.dev ≡ (c i).dev
      → e.ip.inum ≡ (c i).ip.inum
      → IsCounted (put c i e) held
  edited-IsCounted i e nz er ed en =
      Changes-IsCounted i c held (put c i e) held
        (record {
          within = in_cache i nz;
          others = λ j ne. put_ne c i j e ne;
          same = λ j ne. refl;
          count_i = ap (λ x. x.ref) (put_self c i e) ∙ er ∙ h.counts i;
          alone = λ used.
              IsAlone-kept (put c i e i) i c held h nz (ap (λ x. x.dev) (put_self c i e) ∙ ed)
                (ap (λ x. x.ip.inum) (put_self c i e) ∙ en);
        })
        h

-- What a call of iput does to the cache.
pub record Puts (i : ℕ) (c c' : ℕ → Entry) : Type 0 where
  pub others : (j : ℕ) → i ≢ j → c' j ≡ c j
  pub less : (c' i).ref ≡ one_less (c i).ref
  pub kept : (((c' i).dev ≡ (c i).dev) × ((c' i).ip.inum ≡ (c i).ip.inum)) ⊎ ((c i).ref ≡ 1)

fewer-Puts : (i : ℕ) (c : ℕ → Entry) → Puts i c (fewer i c)
fewer-Puts i c = record {
  others = λ j ne. put_ne c i j _ ne;
  less = ap (λ e. e.ref) (put_self c i _);
  kept = inl (ap (λ e. e.dev) (put_self c i _), ap (λ e. e.ip.inum) (put_self c i _));
}

discarded-Puts :
    (i : ℕ) (c : ℕ → Entry) (e : Entry)
    → e.ref ≡ (c i).ref
    → (c i).ref ≡ 1
    → Puts i c (fewer i (put c i e))
discarded-Puts i c e same one = record {
  others = λ j ne. put_ne (put c i e) i j _ ne ∙ put_ne c i j e ne;
  less =
      ap (λ x. x.ref) (put_self (put c i e) i _)
      ∙ ap one_less (ap (λ x. x.ref) (put_self c i e) ∙ same);
  kept = inr one;
}

module _ (i : ℕ) (s : Store) where
  -- Nobody else refers to the inode, and it has no links.
  abbrev is_last : Bool
  is_last = (s.cache i).valid && ((s.cache i).ip.nlink == 0) && ((s.cache i).ref == 1)

  kept-iput : is_last ≡ false → iput i s ≡ some (record s { cache = fewer i s.cache })
  unfolding iput discard
  kept-iput e = rw (iput, discard, e) refl

  pub shared-iput : (s.cache i).ref ≢ 1 → iput i s ≡ some (record s { cache = fewer i s.cache })
  shared-iput ne = kept-iput (ground arith)

  pub iput-Puts : (s' : Store) → iput i s ≡ some s' → Puts i s.cache s'.cache
  unfolding iput discard
  iput-Puts s' e = elim (Bool-cases is_last) [
    | inr kept ↦
        subst (λ c. Puts i s.cache c) (same_cache _ s' (sym (kept-iput kept) ∙ e))
          (fewer-Puts i s.cache)
    | inl last ↦
        let one : (s.cache i).ref ≡ 1 = ground arith in
        truncated (itrunc (s.cache i).ip s.fs) refl last one
  ]
    where
      same_cache : (p q : Store) → some p ≡ some q → p.cache ≡ q.cache
      same_cache p q r = ap (λ o. elim o [ none ↦ p.cache | some t ↦ t.cache ]) r

      truncated :
          (r : Option (Inode × Fs))
          → itrunc (s.cache i).ip s.fs ≡ r
          → is_last ≡ true
          → (s.cache i).ref ≡ 1
          → Puts i s.cache s'.cache
      truncated none t last one =
          let bad : none ≡ some s' = rw (iput, discard, last, t) at e in absurd (cc)
      truncated (some (ip, fs)) t last one =
          let gone = record ip { type = 0 } in
          let w : Entry = record (s.cache i) { valid = false; ip = gone } in
          let after : Store = record { cache = fewer i (put s.cache i w); fs = iupdate gone fs } in
          let good : some after ≡ some s' = rw (iput, discard, last, t) at e in
          subst (λ c. Puts i s.cache c) (same_cache after s' good)
            (discarded-Puts i s.cache w refl one)
