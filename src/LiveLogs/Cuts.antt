-- ===== src/LiveLogs/Cuts.antt =====
-- src/adapters/service_logs.rs: the lines that `take_complete_lines` cuts off.
use aku_supervisor.Base.{
  ℕ, zero, suc, ◌-◌, ◌≤◌, ◌<◌, Option, none, some, List, [], ◌∷◌, ◌++◌, All, length, length-append,
  take, drop, leb, leb→le, ◌==◌, Bool-cases, Option-cases, ◌≡◌, inl, inr, refl, ap, sym, ◌∙◌, arith,
}
use mathlib.Core.List.{append_assoc}
use aku_supervisor.LiveLogs.Lines.{
  newline, max_partial, split_line, Piece, whole, truncated, source, cut_at, next_piece, pieces,
}

split_line-some :
    (bs before after : List ℕ)
    → split_line bs ≡ some (before, after)
    → (bs ≡ before ++ (newline ∷ after)) × (split_line before ≡ none)
unfolding split_line
split_line-some [] before after e = absurd (cc e)
split_line-some (b ∷ bs) before after e = elim (Bool-cases (b == newline)) [
  | inl hit ↦ ground (arith)
  | inr miss ↦ elim (Option-cases (split_line bs)) [
    | inl missing ↦ absurd (cc (rw (miss, missing) at e))
    | inr ((x, y), h) ↦
        let (split, clean) = split_line-some bs x y h in ground (arith, split, clean)
  ]
]

take-drop : (n : ℕ) (xs : List ℕ) → xs ≡ take n xs ++ drop n xs
take-drop zero xs = refl
take-drop (suc n) [] = refl
take-drop (suc n) (x ∷ xs) = ap (◌∷◌ x) (take-drop n xs)

length-take : (n : ℕ) (xs : List ℕ) → n ≤ length xs → length (take n xs) ≡ n
length-take zero xs h = refl
length-take (suc n) [] h = omega arith
length-take (suc n) (x ∷ xs) h = omega (arith, length-take n xs)

split_line-take : (n : ℕ) (xs : List ℕ) → split_line xs ≡ none → split_line (take n xs) ≡ none
unfolding split_line
split_line-take zero xs h = refl
split_line-take (suc n) [] h = refl
split_line-take (suc n) (x ∷ xs) h = elim (Option-cases (split_line xs)) [
  | inl missing ↦ ground (arith, split_line-take n xs missing)
  | inr (y, e) ↦ ground (arith, e)
]

length-drop : (n : ℕ) (xs : List ℕ) → length (drop n xs) ≡ length xs - n
length-drop zero xs = omega arith
length-drop (suc n) [] = omega arith
length-drop (suc n) (x ∷ xs) = omega (arith, length-drop n xs)

-- A whole line holds no line feed; a truncated one has `limit` bytes and holds none either.
abbrev pub IsLine : ℕ → Piece → Type 0
IsLine limit (whole bytes) = split_line bytes ≡ none
IsLine limit (truncated bytes) = (split_line bytes ≡ none) × (length bytes ≡ limit)

-- What a round of the loop does.
abbrev Round : ℕ → List ℕ → Option (Piece × List ℕ) → Type 0
Round limit bs none = (split_line bs ≡ none) × (length bs < limit)
Round limit bs (some (piece, rest)) =
    (bs ≡ source piece ++ rest) × IsLine limit piece × (length rest < length bs)

cut_at-Round :
    (limit : ℕ) (bs : List ℕ) → 0 < limit → split_line bs ≡ none → Round limit bs (cut_at limit bs)
unfolding cut_at
cut_at-Round limit bs pos n = elim (Bool-cases (leb limit (length bs))) [
  | inr short ↦ rw short (n, ground arith)
  | inl long ↦ rw long (
    take-drop limit bs,
    (split_line-take limit bs n, length-take limit bs (leb→le _ _ long)),
    omega (arith, length-drop limit bs, leb→le _ _ long),
  )
]

whole-shorter :
    (bs before after : List ℕ) → bs ≡ before ++ (newline ∷ after) → length after < length bs
whole-shorter bs before after e =
    omega (arith, ap (λ (xs : List ℕ). length xs) e, length-append before (newline ∷ after))

next_piece-Round : (bs : List ℕ) → Round max_partial bs (next_piece bs)
unfolding next_piece
next_piece-Round bs = elim (Option-cases (split_line bs)) [
  | inl missing ↦ rw missing (cut_at-Round max_partial bs (omega arith) missing)
  | inr ((before, after), h) ↦
      let (split, clean) = split_line-some bs before after h in
      rw h (
        split ∙ sym (append_assoc before (newline ∷ []) after),
        clean,
        whole-shorter bs before after split,
      )
]

abbrev pub sources : List Piece → List ℕ
sources [] = []
sources (p ∷ ps) = source p ++ sources ps

-- What the whole loop does to `bs`.
abbrev pub Cut : List ℕ → List Piece × List ℕ → Type 0
Cut bs cut =
    (bs ≡ sources cut.0 ++ cut.1)
    × All (IsLine max_partial) cut.0
    × (split_line cut.1 ≡ none)
    × (length cut.1 < max_partial)

Cut-cons :
    (bs rest : List ℕ) (p : Piece) (cut : List Piece × List ℕ)
    → bs ≡ source p ++ rest
    → IsLine max_partial p
    → Cut rest cut
    → Cut bs (p ∷ cut.0, cut.1)
Cut-cons bs rest p cut e l c = (
  e
      ∙ (ap (λ (xs : List ℕ). source p ++ xs) c.0
          ∙ sym (append_assoc (source p) (sources cut.0) cut.1)),
  (l, c.1),
  c.2,
  c.3,
)

-- With fuel for every byte, the lines that are cut off and the bytes that stay are all that there was,
-- in order; no line holds a line feed, and one that is truncated has 64 KiB; what stays holds none and
-- is shorter than 64 KiB.
pub pieces-Cut : (fuel : ℕ) (bs : List ℕ) → length bs ≤ fuel → Cut bs (pieces fuel bs)
unfolding pieces
pieces-Cut zero [] h = (refl, tt, unfold split_line in refl, omega arith)
pieces-Cut zero (b ∷ bs) h = absurd (omega arith)
pieces-Cut (suc fuel) bs h = elim (Option-cases (next_piece bs)) [
  | inl over ↦ let r = rw over at (next_piece-Round bs) in rw (over, pieces) (refl, tt, r.0, r.1)
  | inr ((p, rest), more) ↦
      let r = rw more at (next_piece-Round bs) in
      rw (more, pieces)
        (Cut-cons bs rest p (pieces fuel rest) r.0 r.1 (pieces-Cut fuel rest (omega arith)))
]
