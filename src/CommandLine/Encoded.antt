-- ===== src/CommandLine/Encoded.antt =====
-- src/platform/windows/process_tree.rs: what is appended for the arguments, and how it is read.
use aku_supervisor.Base.{
  ℕ, ◌+◌, false, ◌||◌, none, some, List, [], ◌∷◌, ◌++◌, ◌==◌, Result, ok, and_then, if◌then◌else◌,
  is_empty, ◌≡◌, refl, sym, ap, ◌∙◌, arith, inl, inr, Bool-cases, eq_of, All,
}
use mathlib.Core.List.{append_assoc, append-nil}
use aku_supervisor.CommandLine.Quoting.{
  contains_nul, any_special, repeat_n, append_windows_argument, append_arguments, CommandLineError,
}
use aku_supervisor.CommandLine.Splitting.{outside, split}
use aku_supervisor.CommandLine.Escape.{
  escape, pushed, quote_from-escape, repeat_n-suc, split-escape, Boundary, reading,
}

split-Boundary :
    (n : ℕ) (cur rest : List ℕ)
    → Boundary rest
    → split outside n (some cur) rest ≡ reading rest (cur ++ (repeat_n 92 n ++ []))
unfolding split
split-Boundary n cur rest (inl e) =
    rw e (ap (λ (x : List ℕ). (cur ++ x) ∷ []) (sym (append-nil (repeat_n 92 n))))
split-Boundary n cur rest (inr (more, e)) =
    rw e (
      ap (λ (x : List ℕ). (cur ++ x) ∷ split outside 0 none more)
        (sym (append-nil (repeat_n 92 n))))

split-bare :
    (cs : List ℕ) (n : ℕ) (cur rest : List ℕ)
    → any_special cs ≡ false
    → Boundary rest
    → split outside n (some cur) (cs ++ rest) ≡ reading rest (cur ++ (repeat_n 92 n ++ cs))
unfolding split any_special repeat_n
split-bare [] n cur rest bare b = split-Boundary n cur rest b
split-bare (c ∷ cs) n cur rest bare b = elim (Bool-cases (c == 92)) [
  | inl slash ↦
      rw (slash, eq_of c 92 slash)
        (split-bare cs (n + 1) cur rest (ground (arith, bare)) b
          ∙ ap (λ (x : List ℕ). reading rest (cur ++ x)) (repeat_n-suc 92 n cs))
  | inr other ↦
      let unquoted : c == 34 ≡ false = ground (arith, bare) in
      let full : (c == 32 || c == 9) ≡ false = ground (arith, bare) in
      rw (other, unquoted, full)
        (split-bare cs 0 ((cur ++ repeat_n 92 n) ++ (c ∷ [])) rest (ground (arith, bare)) b
          ∙ ap (reading rest) (pushed cur (repeat_n 92 n) c cs))
]

split-first :
    (c : ℕ) (cs : List ℕ)
    → (c == 32 || c == 9) ≡ false
    → split outside 0 none (c ∷ cs) ≡ split outside 0 (some []) (c ∷ cs)
unfolding split
split-first c cs full = rw full refl

not_blank : (c : ℕ) (cs : List ℕ) → any_special (c ∷ cs) ≡ false → (c == 32 || c == 9) ≡ false
unfolding any_special
not_blank c cs bare = ground (arith, bare)

-- What is appended for an argument without NUL.
unfoldable pub encoded : List ℕ → List ℕ
encoded wide = if is_empty wide || any_special wide then 34 ∷ escape 0 wide else wide

pub append_windows_argument-encoded :
    (line wide : List ℕ)
    → contains_nul wide ≡ false
    → append_windows_argument line wide ≡ ok (line ++ encoded wide)
unfolding append_windows_argument encoded
append_windows_argument-encoded line wide fine =
    elim (Bool-cases (is_empty wide || any_special wide)) [
      | inl quoted ↦
          rw (fine, quoted)
            (ap ok (
              quote_from-escape (line ++ (34 ∷ [])) 0 wide
              ∙ append_assoc line (34 ∷ []) (escape 0 wide)))
      | inr bare ↦ rw (fine, bare) refl
    ]

pub split-encoded :
    (wide rest : List ℕ)
    → Boundary rest
    → split outside 0 none (encoded wide ++ rest) ≡ reading rest wide
unfolding encoded split repeat_n
split-encoded [] rest b = split-escape [] 0 [] rest b
split-encoded (c ∷ cs) rest b = elim (Bool-cases (any_special (c ∷ cs))) [
  | inl quoted ↦ rw quoted (split-escape (c ∷ cs) 0 [] rest b)
  | inr bare ↦
      rw bare
        (split-first c (cs ++ rest) (not_blank c cs bare) ∙ split-bare (c ∷ cs) 0 [] rest bare b)
]

-- The arguments on the line, each behind a blank.
unfoldable pub spaced : List (List ℕ) → List ℕ
spaced [] = []
spaced (a ∷ xs) = 32 ∷ (encoded a ++ spaced xs)

pub spaced-Boundary : (xs : List (List ℕ)) → Boundary (spaced xs)
unfolding spaced
spaced-Boundary [] = inl refl
spaced-Boundary (a ∷ xs) = inr (_, refl)

pub split-spaced : (xs : List (List ℕ)) → split outside 0 none (spaced xs) ≡ xs
unfolding spaced split
split-spaced [] = refl
split-spaced (a ∷ xs) =
    split-encoded a (spaced xs) (spaced-Boundary xs)
    ∙ ap (λ (x : List (List ℕ)). a ∷ x) (split-spaced xs)

pub append_arguments-spaced :
    (line : List ℕ) (xs : List (List ℕ))
    → All (λ a. contains_nul a ≡ false) xs
    → append_arguments line xs ≡ ok (line ++ spaced xs)
unfolding append_arguments spaced
append_arguments-spaced line [] fine = ap ok (sym (append-nil line))
append_arguments-spaced line (a ∷ xs) fine =
    ap (λ (r : Result CommandLineError (List ℕ)). and_then r (λ longer. append_arguments longer xs))
      (append_windows_argument-encoded (line ++ (32 ∷ [])) a fine.0)
    ∙ append_arguments-spaced ((line ++ (32 ∷ [])) ++ encoded a) xs fine.1
    ∙ ap ok (
        append_assoc (line ++ (32 ∷ [])) (encoded a) (spaced xs)
        ∙ append_assoc line (32 ∷ []) (encoded a ++ spaced xs))
