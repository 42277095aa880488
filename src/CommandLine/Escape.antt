-- ===== src/CommandLine/Escape.antt =====
-- src/platform/windows/process_tree.rs: a quoted argument is read back as it was.
use Prim.Native.Nat.{◌/◌, ◌%◌}
use aku_supervisor.Base.{
  ℕ, zero, suc, ◌+◌, ◌*◌, true, false, none, some, List, [], ◌∷◌, ◌++◌, ◌==◌, if◌then◌else◌, ◌≡◌,
  refl, sym, ap, ◌∙◌, arith, ◌⊎◌, inl, inr, Bool-cases, eq_of,
}
use mathlib.Core.List.{append_assoc, append-nil}
use aku_supervisor.CommandLine.Quoting.{repeat_n, quote_from}
use aku_supervisor.CommandLine.Splitting.{outside, inside, closed, split}

-- What the loop pushes after the opening quote.
unfoldable pub escape : ℕ → List ℕ → List ℕ
escape n [] = repeat_n 92 (n * 2) ++ (34 ∷ [])
escape n (c ∷ cs) =
    if c == 92
    then escape (n + 1) cs
    else (if c == 34
        then repeat_n 92 (n * 2 + 1) ++ (34 ∷ escape 0 cs)
        else repeat_n 92 n ++ (c ∷ escape 0 cs))

pub pushed :
    (line slashes : List ℕ) (c : ℕ) (rest : List ℕ)
    → ((line ++ slashes) ++ (c ∷ [])) ++ rest ≡ line ++ (slashes ++ (c ∷ rest))
pushed line slashes c rest =
    append_assoc (line ++ slashes) (c ∷ []) rest ∙ append_assoc line slashes (c ∷ rest)

pub quote_from-escape :
    (line : List ℕ) (n : ℕ) (cs : List ℕ) → quote_from line n cs ≡ line ++ escape n cs
unfolding quote_from escape
quote_from-escape line n [] = append_assoc line (repeat_n 92 (n * 2)) (34 ∷ [])
quote_from-escape line n (c ∷ cs) = elim (Bool-cases (c == 92)) [
  | inl slash ↦ rw slash (quote_from-escape line (n + 1) cs)
  | inr other ↦ elim (Bool-cases (c == 34)) [
    | inl mark ↦
        rw (other, mark)
          (quote_from-escape ((line ++ repeat_n 92 (n * 2 + 1)) ++ (c ∷ [])) 0 cs
            ∙ pushed line (repeat_n 92 (n * 2 + 1)) c (escape 0 cs)
            ∙ ap (λ (d : ℕ). line ++ (repeat_n 92 (n * 2 + 1) ++ (d ∷ escape 0 cs)))
                (eq_of c 34 mark))
    | inr plain ↦
        rw (other, plain)
          (quote_from-escape ((line ++ repeat_n 92 n) ++ (c ∷ [])) 0 cs
            ∙ pushed line (repeat_n 92 n) c (escape 0 cs))
  ]
]

split-repeat_n :
    (k m : ℕ) (cur cs : List ℕ)
    → split inside m (some cur) (repeat_n 92 k ++ cs) ≡ split inside (m + k) (some cur) cs
unfolding split repeat_n
split-repeat_n zero m cur cs = ap (λ (i : ℕ). split inside i (some cur) cs) (omega arith)
split-repeat_n (suc k) m cur cs =
    split-repeat_n k (m + 1) cur cs ∙ ap (λ (i : ℕ). split inside i (some cur) cs) (omega arith)

-- The line ends or a blank follows.
abbrev pub Boundary : List ℕ → Type 0
Boundary rest = (rest ≡ []) ⊎ (more : List ℕ) × (rest ≡ 32 ∷ more)

split-closed :
    (cur rest : List ℕ)
    → Boundary rest
    → split closed 0 (some cur) rest ≡ cur ∷ split outside 0 none rest
unfolding split repeat_n
split-closed cur rest (inl e) = rw e (ap (λ (x : List ℕ). x ∷ []) (append-nil cur))
split-closed cur rest (inr (more, e)) =
    rw e (ap (λ (x : List ℕ). x ∷ split outside 0 none more) (append-nil cur))

split-close :
    (m n : ℕ) (cur rest : List ℕ)
    → m ≡ n * 2
    → split inside m (some cur) (34 ∷ rest) ≡ split closed 0 (some (cur ++ repeat_n 92 n)) rest
unfolding split
split-close m n cur rest e =
    let even : (m % 2 == 1) ≡ false = ground arith in
    let half : m / 2 ≡ n = omega arith in
    rw (even, half)
      (ap (λ (x : List ℕ). split closed 0 (some x) rest) (append-nil (cur ++ repeat_n 92 n)))

split-mark :
    (m n : ℕ) (cur rest : List ℕ)
    → m ≡ n * 2 + 1
    → split inside m (some cur) (34 ∷ rest)
      ≡ split inside 0 (some ((cur ++ repeat_n 92 n) ++ (34 ∷ []))) rest
unfolding split
split-mark m n cur rest e =
    let odd : (m % 2 == 1) ≡ true = ground arith in
    let half : m / 2 ≡ n = omega arith in rw (odd, half) refl

split-plain :
    (c m : ℕ) (cur rest : List ℕ)
    → c == 92 ≡ false
    → c == 34 ≡ false
    → split inside m (some cur) (c ∷ rest)
      ≡ split inside 0 (some ((cur ++ repeat_n 92 m) ++ (c ∷ []))) rest
unfolding split
split-plain c m cur rest other plain = rw (other, plain) refl

pub repeat_n-suc : (c n : ℕ) (cs : List ℕ) → repeat_n c (n + 1) ++ cs ≡ repeat_n c n ++ (c ∷ cs)
unfolding repeat_n
repeat_n-suc c zero cs = refl
repeat_n-suc c (suc n) cs =
    let more : suc n + 1 ≡ suc (n + 1) = omega arith in
    rw more (ap (λ (x : List ℕ). c ∷ x) (repeat_n-suc c n cs))

-- What is read of an escaped text, as it grows.
abbrev pub reading : List ℕ → List ℕ → List (List ℕ)
reading rest x = x ∷ split outside 0 none rest

pub split-escape :
    (cs : List ℕ) (n : ℕ) (cur rest : List ℕ)
    → Boundary rest
    → split inside 0 (some cur) (escape n cs ++ rest) ≡ reading rest (cur ++ (repeat_n 92 n ++ cs))
unfolding escape repeat_n
split-escape [] n cur rest b =
    ap (split inside 0 (some cur)) (append_assoc (repeat_n 92 (n * 2)) (34 ∷ []) rest)
    ∙ split-repeat_n (n * 2) 0 cur (34 ∷ rest)
    ∙ split-close (0 + n * 2) n cur rest (omega arith)
    ∙ split-closed (cur ++ repeat_n 92 n) rest b
    ∙ ap (λ (x : List ℕ). reading rest (cur ++ x)) (sym (append-nil (repeat_n 92 n)))
split-escape (c ∷ cs) n cur rest b = elim (Bool-cases (c == 92)) [
  | inl slash ↦
      rw (slash, eq_of c 92 slash)
        (split-escape cs (n + 1) cur rest b
          ∙ ap (λ (x : List ℕ). reading rest (cur ++ x)) (repeat_n-suc 92 n cs))
  | inr other ↦ elim (Bool-cases (c == 34)) [
    | inl mark ↦
        rw (other, mark, eq_of c 34 mark)
          (ap (split inside 0 (some cur))
              (append_assoc (repeat_n 92 (n * 2 + 1)) (34 ∷ escape 0 cs) rest)
            ∙ split-repeat_n (n * 2 + 1) 0 cur (34 ∷ (escape 0 cs ++ rest))
            ∙ split-mark (0 + (n * 2 + 1)) n cur (escape 0 cs ++ rest) (omega arith)
            ∙ split-escape cs 0 ((cur ++ repeat_n 92 n) ++ (34 ∷ [])) rest b
            ∙ ap (reading rest) (pushed cur (repeat_n 92 n) 34 cs))
    | inr plain ↦
        rw (other, plain)
          (ap (split inside 0 (some cur)) (append_assoc (repeat_n 92 n) (c ∷ escape 0 cs) rest)
            ∙ split-repeat_n n 0 cur (c ∷ (escape 0 cs ++ rest))
            ∙ split-plain c (0 + n) cur (escape 0 cs ++ rest) other plain
            ∙ split-escape cs 0 ((cur ++ repeat_n 92 (0 + n)) ++ (c ∷ [])) rest b
            ∙ ap (reading rest) (pushed cur (repeat_n 92 (0 + n)) c cs)
            ∙ ap (λ (k : ℕ). reading rest (cur ++ (repeat_n 92 k ++ (c ∷ cs)))) (omega arith))
  ]
]
