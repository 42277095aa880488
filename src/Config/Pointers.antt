-- ===== src/Config/Pointers.antt =====
-- src/adapters/config.rs: `valid_json_pointer` accepts exactly the texts of RFC 6901.
use aku_supervisor.Base.{
  ℕ, String, true, false, List, [], ◌∷◌, ◌++◌, ◌==◌, Bool-cases, eq_of, inl, inr, ◌≡◌, refl, sym,
  ap, ◌∙◌, ◌↔◌, arith, if◌then◌else◌,
}
use aku_supervisor.Config.Texts.{codes, valid_escapes, valid_pointer, valid_json_pointer}

-- A reference token as a pointer writes it: `~` is `~0` and `/` is `~1`.
unfoldable pub escaped : List ℕ → List ℕ
escaped [] = []
escaped (c ∷ cs) =
    let rest = escaped cs in
    if c == 126 then 126 ∷ 48 ∷ rest else (if c == 47 then 126 ∷ 49 ∷ rest else c ∷ rest)

-- Each token behind a `/`.
unfoldable pub written : List (List ℕ) → List ℕ
written [] = []
written (t ∷ ts) = 47 ∷ (escaped t ++ written ts)

valid_escapes-plain :
    (c : ℕ) (cs : List ℕ) → c == 126 ≡ false → valid_escapes (c ∷ cs) ≡ valid_escapes cs
unfolding valid_escapes
valid_escapes-plain c [] plain = rw plain refl
valid_escapes-plain c (d ∷ cs) plain = rw plain refl

valid_escapes-written :
    (t : List ℕ) (ts : List (List ℕ)) → valid_escapes (escaped t ++ written ts) ≡ true
unfolding valid_escapes escaped written
valid_escapes-written [] [] = refl
valid_escapes-written [] (t ∷ ts) =
    valid_escapes-plain 47 (escaped t ++ written ts) refl ∙ valid_escapes-written t ts
valid_escapes-written (c ∷ cs) ts = elim (Bool-cases (c == 126)) [
  | inl tilde ↦ rw tilde (valid_escapes-written cs ts)
  | inr plain ↦ elim (Bool-cases (c == 47)) [
    | inl slash ↦ rw (plain, slash) (valid_escapes-written cs ts)
    | inr other ↦
        rw (plain, other)
          (valid_escapes-plain c (escaped cs ++ written ts) plain ∙ valid_escapes-written cs ts)
  ]
]

abbrev Read : List ℕ → Type 0
Read cs = (t : List ℕ) × (ts : List (List ℕ)) × (cs ≡ escaped t ++ written ts)

plain-Read : (c : ℕ) (cs : List ℕ) → c == 126 ≡ false → Read cs → Read (c ∷ cs)
unfolding escaped written
plain-Read c cs plain (t, ts, e) = elim (Bool-cases (c == 47)) [
  | inl slash ↦ ([], t ∷ ts, rw (eq_of c 47 slash) (ap (λ (x : List ℕ). 47 ∷ x) e))
  | inr other ↦ (c ∷ t, ts, rw (plain, other) (ap (λ (x : List ℕ). c ∷ x) e))
]

valid_escapes-Read : (cs : List ℕ) → valid_escapes cs ≡ true → Read cs
unfolding valid_escapes escaped written
valid_escapes-Read [] valid = ([], [], refl)
valid_escapes-Read (c ∷ []) valid = plain-Read c [] (ground (arith, valid)) ([], [], refl)
valid_escapes-Read (c ∷ d ∷ cs) valid = elim (Bool-cases (c == 126)) [
  | inr plain ↦ plain-Read c (d ∷ cs) plain (valid_escapes-Read (d ∷ cs) (rw plain at valid))
  | inl tilde ↦
      let (t, ts, e) = valid_escapes-Read cs (ground (arith, tilde, valid)) in
      elim (Bool-cases (d == 48)) [
        | inl nought ↦ (
          126 ∷ t,
          ts,
          rw (eq_of c 126 tilde, eq_of d 48 nought) (ap (λ (x : List ℕ). 126 ∷ 48 ∷ x) e),
        )
        | inr other ↦
            let one : d ≡ 49 = ground (arith, tilde, other, valid) in
            (47 ∷ t, ts, rw (eq_of c 126 tilde, one) (ap (λ (x : List ℕ). 126 ∷ 49 ∷ x) e))
      ]
]

accepted : (cs : List ℕ) → valid_pointer cs ≡ true → (ts : List (List ℕ)) × (cs ≡ written ts)
unfolding valid_pointer written
accepted [] valid = ([], refl)
accepted (c ∷ cs) valid = elim (Bool-cases (c == 47)) [
  | inr other ↦ absurd (cc (rw other at valid))
  | inl slash ↦
      let there = rw slash at valid in
      let (t, ts, e) =
        valid_escapes-Read cs (sym (valid_escapes-plain c cs (ground (arith, slash))) ∙ there) in
      (t ∷ ts, ap (λ (d : ℕ). d ∷ cs) (eq_of c 47 slash) ∙ ap (λ (x : List ℕ). 47 ∷ x) e)
]

accepts : (ts : List (List ℕ)) → valid_pointer (written ts) ≡ true
unfolding valid_pointer written
accepts [] = refl
accepts (t ∷ ts) =
    valid_escapes-plain 47 (escaped t ++ written ts) refl ∙ valid_escapes-written t ts

-- A text is accepted exactly when it is a sequence of reference tokens, each behind a `/` and with
-- its `~` and `/` escaped.
pub valid_json_pointer_iff :
    (pointer : String)
    → (valid_json_pointer pointer ≡ true) ↔ (ts : List (List ℕ)) × (codes pointer ≡ written ts)
unfolding valid_json_pointer
valid_json_pointer_iff pointer = (accepted (codes pointer), λ r. rw r.1 (accepts r.0))
