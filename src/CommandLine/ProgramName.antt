-- ===== src/CommandLine/ProgramName.antt =====
-- src/platform/windows/process_tree.rs: how the program's name is read.
use aku_supervisor.Base.{
  ℕ, ◌+◌, Bool, true, false, not, ◌||◌, List, [], ◌∷◌, ◌++◌, ◌==◌, is_empty, ◌≡◌, refl, ap, ◌∙◌,
  arith, inl, inr, Bool-cases, eq_of, All,
}
use mathlib.Core.List.{append_assoc, append-nil}
use aku_supervisor.CommandLine.Quoting.{any_special, repeat_n}
use aku_supervisor.CommandLine.Splitting.{split_program}
use aku_supervisor.CommandLine.Escape.{escape, repeat_n-suc, Boundary}
use aku_supervisor.CommandLine.Encoded.{encoded}

-- Whether a text ends in a backslash, `last` standing for what comes before it.
unfoldable pub ends_in_backslash : Bool → List ℕ → Bool
ends_in_backslash last [] = last
ends_in_backslash last (c ∷ cs) = ends_in_backslash (c == 92) cs

-- A file's name: it has no quotation mark, and no backslash at its end.
abbrev pub IsFileName : List ℕ → Type 0
IsFileName program = All (λ c. c == 34 ≡ false) program × (ends_in_backslash false program ≡ false)

escape-name :
    (n : ℕ) (cs : List ℕ)
    → All (λ c. c == 34 ≡ false) cs
    → ends_in_backslash (not (n == 0)) cs ≡ false
    → escape n cs ≡ repeat_n 92 n ++ (cs ++ (34 ∷ []))
unfolding escape ends_in_backslash repeat_n
escape-name n [] plain e = let none_held : n ≡ 0 = ground (arith, e) in rw none_held refl
escape-name n (c ∷ cs) plain e = elim (Bool-cases (c == 92)) [
  | inl slash ↦
      let more : (n + 1 == 0) ≡ false = ground arith in
      rw (slash, eq_of c 92 slash)
        (escape-name (n + 1) cs plain.1 (rw more (rw slash at e))
          ∙ repeat_n-suc 92 n (cs ++ (34 ∷ [])))
  | inr other ↦
      rw (other, plain.0)
        (ap (λ (x : List ℕ). repeat_n 92 n ++ (c ∷ x)) (escape-name 0 cs plain.1 (rw other at e)))
]

split_program-quoted :
    (cs rest : List ℕ)
    → All (λ c. c == 34 ≡ false) cs
    → split_program true (cs ++ (34 ∷ rest))
      ≡ (cs ++ (split_program false rest).0, (split_program false rest).1)
unfolding split_program
split_program-quoted [] rest plain = refl
split_program-quoted (c ∷ cs) rest plain =
    rw (plain.0, split_program-quoted cs rest plain.1) (ground arith)

split_program-Boundary : (rest : List ℕ) → Boundary rest → split_program false rest ≡ ([], rest)
unfolding split_program
split_program-Boundary rest (inl e) = rw e refl
split_program-Boundary rest (inr (more, e)) = rw e refl

split_program-bare :
    (cs rest : List ℕ)
    → any_special cs ≡ false
    → Boundary rest
    → split_program false (cs ++ rest) ≡ (cs, rest)
unfolding split_program any_special
split_program-bare [] rest bare b = split_program-Boundary rest b
split_program-bare (c ∷ cs) rest bare b =
    let unquoted : c == 34 ≡ false = ground (arith, bare) in
    let full : (c == 32 || c == 9) ≡ false = ground (arith, bare) in
    rw (unquoted, full, split_program-bare cs rest (ground (arith, bare)) b) refl

pub split_program-encoded :
    (program rest : List ℕ)
    → IsFileName program
    → Boundary rest
    → split_program false (encoded program ++ rest) ≡ (program, rest)
unfolding encoded split_program repeat_n
split_program-encoded program rest name b =
    elim (Bool-cases (is_empty program || any_special program)) [
      | inl quoted ↦
          rw (quoted, escape-name 0 program name.0 name.1, append_assoc program (34 ∷ []) rest)
            (split_program-quoted program rest name.0
              ∙ rw (split_program-Boundary rest b, append-nil program) refl)
      | inr bare ↦ rw bare (split_program-bare program rest (ground (arith, bare)) b)
    ]
