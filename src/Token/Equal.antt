-- ===== src/Token/Equal.antt =====
-- src/adapters/runtime_token.rs: the comparison that reads every byte decides equality.
use Prim.Native.Nat.{bit_or, bit_xor}
use aku_supervisor.Base.{ℕ, true, List, [], ◌∷◌, ◌==◌, length, eq_of, ◌≡◌, ◌↔◌, refl, arith}
use aku_supervisor.Token.{differences, constant_time_equal, bearer_matches, RuntimeToken}
use aku_supervisor.Token.Bits.{bit_or-zero, bit_xor-zero, bit_xor_same}

differences-zero :
    (left right : List ℕ) (d : ℕ)
    → differences d left right ≡ 0
    → length left ≡ length right
    → (d ≡ 0) × (left ≡ right)
unfolding differences
differences-zero [] [] d e same = (e, refl)
differences-zero (l ∷ left) [] d e same = absurd (omega arith)
differences-zero [] (r ∷ right) d e same = absurd (omega arith)
differences-zero (l ∷ left) (r ∷ right) d e same =
    let (none_here, rest) = differences-zero left right (bit_or d (bit_xor l r)) e (omega arith) in
    let (before, here) = bit_or-zero d (bit_xor l r) none_here in
    (before, cc (bit_xor-zero l r here, rest))

differences_start : (left right : List ℕ) (d : ℕ) → differences d left right ≡ 0 → d ≡ 0
unfolding differences
differences_start [] [] d e = e
differences_start (l ∷ left) [] d e =
    (bit_or-zero d (bit_xor l 0) (differences_start left [] _ e)).0
differences_start [] (r ∷ right) d e =
    (bit_or-zero d (bit_xor 0 r) (differences_start [] right _ e)).0
differences_start (l ∷ left) (r ∷ right) d e =
    (bit_or-zero d (bit_xor l r) (differences_start left right _ e)).0

differences_same : (xs : List ℕ) → differences 0 xs xs ≡ 0
unfolding differences
differences_same [] = refl
differences_same (x ∷ xs) = rw (bit_xor_same x) (differences_same xs)

-- A bearer text is accepted exactly when it is the token.
pub bearer_matches_iff :
    (token : RuntimeToken) (candidate : List ℕ)
    → (bearer_matches token candidate ≡ true) ↔ (token.text ≡ candidate)
unfolding bearer_matches constant_time_equal
bearer_matches_iff token candidate = (there, back)
  where
    there :
        differences (bit_xor (length token.text) (length candidate)) token.text candidate == 0
          ≡ true
        → token.text ≡ candidate
    there h =
        let e = eq_of _ 0 h in
        let lengths = bit_xor-zero _ _ (differences_start token.text candidate _ e) in
        (differences-zero token.text candidate _ e lengths).1

    back :
        token.text ≡ candidate
        → differences (bit_xor (length token.text) (length candidate)) token.text candidate == 0
          ≡ true
    back e = rw (← e, bit_xor_same (length token.text), differences_same token.text) refl
