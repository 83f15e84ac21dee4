-- ===== src/Grep/Matcher.antt =====
-- The matcher of grep.c against what a pattern means.
use xv6_fork.Prelude.{
  ℕ, ◌≡◌, refl, ap, ◌∙◌, ◌≢◌, ◌⊎◌, ◌↔◌, inl, inr, Bool-cases, arith, Bool, true, ◌||◌, List, [],
  ◌∷◌, ◌++◌, ◌==◌,
}
use native.Mathlib.Decide.{ℕ_discrete}
use xv6_fork.Grep.{matchstar, is_end, match_one, matchhere, match_from, match}

-- A character of a pattern stands for a character of the text.
abbrev pub Stands : ℕ → ℕ → Type 0
Stands c t = (c ≡ b'.') ⊎ (c ≡ t)

abbrev pub EachStands : ℕ → List ℕ → Type 0
EachStands c [] = Unit {0}
EachStands c (t ∷ ts) = Stands c t × EachStands c ts

-- A beginning of the text is a run of characters that `c` stands for, and `P` holds behind it.
abbrev pub Repeats : ℕ → (List ℕ → Type 0) → List ℕ → Type 0
Repeats c P text =
    (run : List ℕ) × (rest : List ℕ) × (text ≡ run ++ rest) × EachStands c run × P rest

abbrev pub One : ℕ → (List ℕ → Type 0) → List ℕ → Type 0
One c P text = (t : ℕ) × (rest : List ℕ) × (text ≡ t ∷ rest) × Stands c t × P rest

-- A beginning of the text is in the language of the pattern.
abbrev pub Begins : List ℕ → List ℕ → Type 0
Begins [] text = Unit {0}
Begins (c ∷ []) text = (c ≡ b'$') × (text ≡ []) ⊎ (c ≢ b'$') × One c (λ rest. Unit {0}) text
Begins (c ∷ d ∷ re) text =
    (d ≡ b'*') × Repeats c (Begins re) text ⊎ (d ≢ b'*') × One c (Begins (d ∷ re)) text

test_sound : (c t : ℕ) → ((t == c) || (c == b'.')) ≡ true → Stands c t
test_sound c t e = elim (ℕ_discrete c b'.') [ yes dot ↦ inl dot | no other ↦ inr (ground arith) ]

test_lem : (c t : ℕ) → Stands c t → ((t == c) || (c == b'.')) ≡ true
test_lem c t (inl dot) = ground arith
test_lem c t (inr same) = ground arith

here_lem : (c t : ℕ) → ((c == b'.') || (c == t)) ≡ true → Stands c t
here_lem c t e = elim (ℕ_discrete c b'.') [ yes dot ↦ inl dot | no other ↦ inr (ground arith) ]

here_complete : (c t : ℕ) → Stands c t → ((c == b'.') || (c == t)) ≡ true
here_complete c t (inl dot) = ground arith
here_complete c t (inr same) = ground arith

-- A Boolean test decides a statement.
abbrev Decides : Bool → Type 0 → Type 0
Decides b P = (b ≡ true → P) × (P → b ≡ true)

module _ (c : ℕ) (here : List ℕ → Bool) (P : List ℕ → Type 0)
    (decides : (text : List ℕ) → Decides (here text) (P text)) where
  matchstar-Repeats : (text : List ℕ) → matchstar c here text ≡ true → Repeats c P text
  unfolding matchstar
  matchstar-Repeats [] e = ([], [], refl, tt, (decides []).0 e)
  matchstar-Repeats (t ∷ text) e = elim (Bool-cases (here (t ∷ text))) [
    | inl now ↦ ([], t ∷ text, refl, tt, (decides (t ∷ text)).0 now)
    | inr later ↦ elim (Bool-cases ((t == c) || (c == b'.'))) [
      | inl good ↦
          let (run, rest, q, all, p) = matchstar-Repeats text (rw (later, good) at e) in
          (t ∷ run, rest, ap (λ l. t ∷ l) q, (test_sound c t good, all), p)
      | inr bad ↦ let stops = rw (later, bad) at e in absurd (cc)
    ]
  ]

  Repeats-matchstar :
      (run rest : List ℕ) → EachStands c run → P rest → matchstar c here (run ++ rest) ≡ true
  unfolding matchstar
  Repeats-matchstar [] [] all p = (decides []).1 p
  Repeats-matchstar [] (t ∷ rest) all p = rw ((decides (t ∷ rest)).1 p) refl
  Repeats-matchstar (t ∷ run) rest all p = elim (Bool-cases (here (t ∷ (run ++ rest)))) [
    | inl now ↦ rw now refl
    | inr later ↦ rw (later, test_lem c t all.0) (Repeats-matchstar run rest all.1 p)
  ]

  match_one-One : (text : List ℕ) → match_one c here text ≡ true → One c P text
  match_one-One [] e = absurd (cc)
  match_one-One (t ∷ text) e = elim (Bool-cases ((c == b'.') || (c == t))) [
    | inl good ↦ (t, text, refl, here_lem c t good, (decides text).0 (rw good at e))
    | inr bad ↦ let stops = rw bad at e in absurd (cc)
  ]

  One-match_one : (t : ℕ) (rest : List ℕ) → Stands c t → P rest → match_one c here (t ∷ rest) ≡ true
  One-match_one t rest s p = rw (here_complete c t s) ((decides rest).1 p)

  Repeats-decides : (text : List ℕ) → Decides (matchstar c here text) (Repeats c P text)
  Repeats-decides text = (
    matchstar-Repeats text,
    λ (run, rest, q, all, p). ap (matchstar c here) q ∙ Repeats-matchstar run rest all p,
  )

  One-decides : (text : List ℕ) → Decides (match_one c here text) (One c P text)
  One-decides text =
      (match_one-One text, λ (t, rest, q, s, p). ap (match_one c here) q ∙ One-match_one t rest s p)

is_end-nil : (text : List ℕ) → is_end text ≡ true → text ≡ []
is_end-nil [] e = refl
is_end-nil (t ∷ text) e = absurd (cc)

-- matchhere decides whether a beginning of the text is in the language of the pattern.
matchhere-Begins : (re text : List ℕ) → Decides (matchhere re text) (Begins re text)
unfolding matchhere
matchhere-Begins [] text = ((λ e. tt), (λ e. refl))
matchhere-Begins (c ∷ []) text = elim (Bool-cases (c == b'$')) [
  | inl dollar ↦
      let is_dollar : c ≡ b'$' = ground arith in
      rw dollar (
        (λ e. inl (is_dollar, is_end-nil text e)),
        (λ h. elim h [ inl (d, nil) ↦ ap is_end nil | inr (d, one) ↦ absurd (d is_dollar) ]),
      )
  | inr other ↦
      let not_dollar : c ≢ b'$' = ground arith in
      let (sound, complete) =
        One-decides c (matchhere []) (λ rest. Unit {0}) (λ rest. ((λ e. tt), (λ u. refl))) text in
      rw other (
        (λ e. inr (not_dollar, sound e)),
        (λ h. elim h [ inl (d, nil) ↦ absurd (not_dollar d) | inr (d, one) ↦ complete one ]),
      )
]
matchhere-Begins (c ∷ d ∷ re) text =
    let (star_sound, star_complete) =
      Repeats-decides c (matchhere re) (Begins re) (matchhere-Begins re) text in
    let (sound, complete) =
      One-decides c (matchhere (d ∷ re)) (Begins (d ∷ re)) (matchhere-Begins (d ∷ re)) text in
    elim (Bool-cases (d == b'*')) [
      | inl star ↦
          let is_star : d ≡ b'*' = ground arith in
          rw star (
            (λ e. inl (is_star, star_sound e)),
            (λ h. elim h [ inl (s, all) ↦ star_complete all | inr (s, one) ↦ absurd (s is_star) ]),
          )
      | inr other ↦
          let not_star : d ≢ b'*' = ground arith in
          rw other (
            (λ e. inr (not_star, sound e)),
            (λ h. elim h [ inl (s, all) ↦ absurd (not_star s) | inr (s, one) ↦ complete one ]),
          )
    ]

-- Some place of the text starts one.
abbrev pub Occurs : List ℕ → List ℕ → Type 0
Occurs re text = (before : List ℕ) × (rest : List ℕ) × (text ≡ before ++ rest) × Begins re rest

match_from-Occurs : (re text : List ℕ) → match_from re text ≡ true → Occurs re text
unfolding match_from
match_from-Occurs re [] e = ([], [], refl, (matchhere-Begins re []).0 e)
match_from-Occurs re (t ∷ text) e = elim (Bool-cases (matchhere re (t ∷ text))) [
  | inl now ↦ ([], t ∷ text, refl, (matchhere-Begins re (t ∷ text)).0 now)
  | inr later ↦
      let (before, rest, q, b) = match_from-Occurs re text (rw later at e) in
      (t ∷ before, rest, ap (λ l. t ∷ l) q, b)
]

Occurs-match_from :
    (re before rest : List ℕ) → Begins re rest → match_from re (before ++ rest) ≡ true
unfolding match_from
Occurs-match_from re [] [] b = (matchhere-Begins re []).1 b
Occurs-match_from re [] (t ∷ rest) b = rw ((matchhere-Begins re (t ∷ rest)).1 b) refl
Occurs-match_from re (t ∷ before) rest b = elim (Bool-cases (matchhere re (t ∷ (before ++ rest)))) [
  | inl now ↦ rw now refl
  | inr later ↦ rw later (Occurs-match_from re before rest b)
]

-- What a pattern with an anchor or without one asks of a text.
abbrev pub Meets : List ℕ → List ℕ → Type 0
Meets [] text = Occurs [] text
Meets (c ∷ re) text = (c ≡ b'^') × Begins re text ⊎ (c ≢ b'^') × Occurs (c ∷ re) text

-- match finds a text exactly when some place of it, its start if the pattern has an anchor, starts
-- with a text in the language of the pattern.
pub match-Meets : (re text : List ℕ) → (match re text ≡ true) ↔ Meets re text
unfolding match
match-Meets [] text = (
  match_from-Occurs [] text,
  λ (before, rest, q, b). ap (match_from []) q ∙ Occurs-match_from [] before rest b,
)
match-Meets (c ∷ re) text = elim (Bool-cases (c == b'^')) [
  | inl anchor ↦
      let is_anchor : c ≡ b'^' = ground arith in
      rw anchor (
        (λ e. inl (is_anchor, (matchhere-Begins re text).0 e)),
        (λ h. elim h [
          | inl (a, b) ↦ (matchhere-Begins re text).1 b
          | inr (a, o) ↦ absurd (a is_anchor)
        ]),
      )
  | inr free ↦
      let not_anchor : c ≢ b'^' = ground arith in
      rw free (
        (λ e. inr (not_anchor, match_from-Occurs (c ∷ re) text e)),
        (λ h. elim h [
          | inl (a, b) ↦ absurd (not_anchor a)
          | inr (a, (before, rest, q, b)) ↦
              ap (match_from (c ∷ re)) q ∙ Occurs-match_from (c ∷ re) before rest b
        ]),
      )
]
