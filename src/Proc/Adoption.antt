-- ===== src/Proc/Adoption.antt =====
-- The pass of exit over the table in proc.c, which gives children to init.
use xv6_fork.Prelude.{
  ℕ, zero, suc, ◌+◌, ◌≤◌, ◌<◌, ◌≡◌, refl, ◌∙◌, ◌≢◌, ◌⊎◌, inl, inr, Bool-cases, arith, Bool, true,
  false, ◌&&◌, some, ltb,
}
use mathlib.Core.Path.{subst}
use native.Mathlib.Decide.{ℕ_discrete}
use xv6_fork.Proc.{
  Chan, at_proc, is_sleeping, same_chan, Proc, nproc, is_unused, is_zombie, is_parent, put, wakeup1,
  adopt, adopt_all,
}
use xv6_fork.Proc.Same.{is_live, is_born, Alike, Alike-refl, wakeup1-Alike}

-- The process sleeps on this channel.
abbrev pub is_waiting : Proc → Chan → Bool
is_waiting p c = is_sleeping p.state && same_chan p.chan c

-- An entry that may have been passed to `init`, and is otherwise alike.
pub record Moved (init : ℕ) (p q : Proc) : Type 0 where
  pub pid : q.pid ≡ p.pid
  pub unused : is_unused q.state ≡ is_unused p.state
  pub born : is_born q.state ≡ is_born p.state
  pub live : is_live q.state ≡ is_live p.state
  pub parent : (q.parent ≡ p.parent) ⊎ (q.parent ≡ some init)
  pub calm : (c : Chan) → is_waiting p c ≡ false → is_waiting q c ≡ false

pub Moved-trans : (init : ℕ) (p q r : Proc) → Moved init p q → Moved init q r → Moved init p r
Moved-trans init p q r m n = record {
  pid = n.pid ∙ m.pid;
  unused = n.unused ∙ m.unused;
  born = n.born ∙ m.born;
  live = n.live ∙ m.live;
  parent = elim n.parent [
    | inl same ↦ elim m.parent [ inl e ↦ inl (same ∙ e) | inr e ↦ inr (same ∙ e) ]
    | inr e ↦ inr e
  ];
  calm = λ c h. n.calm c (m.calm c h);
}

pub Alike-Moved :
    (init : ℕ) (p q : Proc)
    → Alike p q
    → ((c : Chan) → is_waiting p c ≡ false → is_waiting q c ≡ false)
    → Moved init p q
Alike-Moved init p q a calm = record {
  pid = a.pid;
  unused = a.unused;
  born = a.born;
  live = a.live;
  parent = inl a.parent;
  calm = calm;
}

pub wakeup1-calm :
    (chan : Chan) (procs : ℕ → Proc) (i : ℕ) (c : Chan)
    → is_waiting (procs i) c ≡ false
    → is_waiting (wakeup1 chan procs i) c ≡ false
unfolding wakeup1
wakeup1-calm chan procs i c h = ground arith

module _ (cur init : ℕ) (other : cur ≢ init) where
  pub given : ℕ → (ℕ → Proc) → ℕ → Proc
  given i procs = put procs i (record (procs i) { parent = some init })

  given-Moved : (i : ℕ) (procs : ℕ → Proc) (e : ℕ) → Moved init (procs e) (given i procs e)
  unfolding given
  given-Moved i procs e = elim (ℕ_discrete i e) [
    | yes q ↦
        subst (λ x. Moved init (procs x) (put procs i (record (procs i) { parent = some init }) x))
          q (ground arith)
    | no ne ↦ ground arith
  ]

  adopt-Moved : (i : ℕ) (procs : ℕ → Proc) (e : ℕ) → Moved init (procs e) (adopt cur init i procs e)
  unfolding given
  adopt-Moved i procs e = elim (Bool-cases (is_parent (procs i).parent cur)) [
    | inl mine ↦ elim (Bool-cases (is_zombie (procs i).state)) [
      | inl dead ↦
          rw (mine, dead)
            (Moved-trans init _ _ _ (given-Moved i procs e) (
              Alike-Moved init _ _ (wakeup1-Alike (at_proc init) (given i procs) e)
                (wakeup1-calm (at_proc init) (given i procs) e)))
      | inr alive ↦ rw (mine, alive) (given-Moved i procs e)
    ]
    | inr foreign ↦ rw foreign (Alike-Moved init _ _ (Alike-refl (procs e)) (λ c h. h))
  ]

  -- A process that is not a child of `cur` does not become one.
  Moved-foreign :
      (p q : Proc)
      → Moved init p q
      → is_parent p.parent cur ≡ false
      → is_parent q.parent cur ≡ false
  Moved-foreign p q m h = elim m.parent [ inl e ↦ rw e h | inr e ↦ rw e (ground arith) ]

  init_given : (i : ℕ) (procs : ℕ → Proc) → (given i procs i).parent ≡ some init
  unfolding given
  init_given i procs = ground arith

  adopt-foreign :
      (i : ℕ) (procs : ℕ → Proc) → is_parent (adopt cur init i procs i).parent cur ≡ false
  unfolding given
  adopt-foreign i procs = elim (Bool-cases (is_parent (procs i).parent cur)) [
    | inl mine ↦ elim (Bool-cases (is_zombie (procs i).state)) [
      | inl dead ↦
          rw
            (
              mine,
              dead,
              (wakeup1-Alike (at_proc init) (given i procs) i).parent,
              init_given i procs,
            )
            (ground arith)
      | inr alive ↦ rw (mine, alive, init_given i procs) (ground arith)
    ]
    | inr foreign ↦ rw (foreign, foreign)
  ]

  pub adopt_all-Moved :
      (k i : ℕ) (procs : ℕ → Proc) (e : ℕ) → Moved init (procs e) (adopt_all k i cur init procs e)
  unfolding adopt_all
  adopt_all-Moved zero i procs e = Alike-Moved init _ _ (Alike-refl (procs e)) (λ c h. h)
  adopt_all-Moved (suc k) i procs e =
      Moved-trans init _ _ _ (adopt-Moved i procs e)
        (adopt_all-Moved k (suc i) (adopt cur init i procs) e)

  pub adopt_all-foreign :
      (k i : ℕ) (procs : ℕ → Proc) (e : ℕ)
      → i ≤ e
      → e < i + k
      → is_parent (adopt_all k i cur init procs e).parent cur ≡ false
  unfolding adopt_all
  adopt_all-foreign zero i procs e lo hi = absurd (omega arith)
  adopt_all-foreign (suc k) i procs e lo hi = elim (ℕ_discrete i e) [
    | yes q ↦ Moved-foreign _ _ (adopt_all-Moved k (suc i) (adopt cur init i procs) e) (
        subst (λ x. is_parent (adopt cur init i procs x).parent cur ≡ false) q
          (adopt-foreign i procs))
    | no ne ↦ adopt_all-foreign k (suc i) (adopt cur init i procs) e (omega arith) (omega arith)
  ]

-- After wakeup1 nobody in the table waits on the channel.
pub wakeup1-calm_self :
    (chan : Chan) (procs : ℕ → Proc) (i : ℕ)
    → i < nproc
    → is_waiting (wakeup1 chan procs i) chan ≡ false
unfolding wakeup1
wakeup1-calm_self chan procs i h =
    let inside : ltb i nproc ≡ true = ground arith in
    elim (Bool-cases (is_waiting (procs i) chan)) [
      | inl waits ↦ rw (inside, waits) refl
      | inr calm ↦ rw (inside, calm) calm
    ]
