-- ===== src/Domain/Reasons.antt =====
-- src/domain/control.rs: what an accepted reason looks like.
use aku_supervisor.Base.{
  ℕ, ◌≤◌, true, false, List, [], ◌∷◌, ◌++◌, ok, is_empty, ◌≡◌, ◌⊎◌, inl, inr, refl, sym, ap, ◌∙◌,
  arith, Bool-cases,
}
use mathlib.Core.List.{reverse, reverse-append, reverse-reverse}
use aku_supervisor.Domain.Reason.{
  Reason, new, max_bytes, byte_len, trim, trim_start, is_whitespace, begins_visible,
}

-- The list is empty or begins with a visible character.
abbrev pub Clean : List ℕ → Type 0
Clean cs = (cs ≡ []) ⊎ (begins_visible cs ≡ true)

trim_start-Clean : (cs : List ℕ) → Clean (trim_start cs)
unfolding trim_start
trim_start-Clean [] = inl refl
trim_start-Clean (c ∷ cs) = elim (Bool-cases (is_whitespace c)) [
  | inl w ↦ rw w (trim_start-Clean cs)
  | inr v ↦ rw v (inr (rw v))
]

pub trim_start-fixed : (cs : List ℕ) → Clean cs → trim_start cs ≡ cs
unfolding trim_start
trim_start-fixed [] h = refl
trim_start-fixed (c ∷ cs) h = ground arith

-- What is cut off in front is white space.
abbrev Blank : List ℕ → Type 0
Blank [] = Unit
Blank (c ∷ cs) = (is_whitespace c ≡ true) × Blank cs

trim_start-split : (cs : List ℕ) → (front : List ℕ) × Blank front × (cs ≡ front ++ trim_start cs)
unfolding trim_start
trim_start-split [] = ([], tt, refl)
trim_start-split (c ∷ cs) = elim (Bool-cases (is_whitespace c)) [
  | inl w ↦ let (front, b, e) = trim_start-split cs in rw w (c ∷ front, (w, b), ap (◌∷◌ c) e)
  | inr v ↦ rw v ([], tt, refl)
]

-- Cutting at the end leaves a visible beginning visible.
begins-append : (xs ys : List ℕ) → begins_visible (xs ++ ys) ≡ true → Clean xs
begins-append [] ys h = inl refl
begins-append (x ∷ xs) ys h = inr h

-- The end that `trim` cuts off.
cut_end : (cs : List ℕ) → (back : List ℕ) × (cs ≡ reverse (trim_start (reverse cs)) ++ reverse back)
cut_end cs =
    let (front, b, e) = trim_start-split (reverse cs) in
    (
      front,
      sym (reverse-reverse cs) ∙ (ap reverse e ∙ reverse-append front (trim_start (reverse cs))),
    )

pub trim-Clean : (cs : List ℕ) → Clean (trim cs)
unfolding trim
trim-Clean cs = elim (trim_start-Clean cs) [
  | inl e ↦ rw e (inl (ground arith))
  | inr v ↦
      let (back, e) = cut_end (trim_start cs) in
      begins-append (reverse (trim_start (reverse (trim_start cs)))) (reverse back) (rw e at v)
]

pub trim-Clean_end : (cs : List ℕ) → Clean (reverse (trim cs))
unfolding trim
trim-Clean_end cs = rw reverse-reverse (trim_start-Clean (reverse (trim_start cs)))

trim-fixed : (cs : List ℕ) → Clean cs → Clean (reverse cs) → trim cs ≡ cs
unfolding trim
trim-fixed cs front back =
    rw (trim_start-fixed cs front, trim_start-fixed (reverse cs) back) (reverse-reverse cs)

empty_eq : (cs : List ℕ) → is_empty cs ≡ true → cs ≡ []
empty_eq [] h = refl
empty_eq (c ∷ cs) h = cc

visible : (cs : List ℕ) → Clean cs → is_empty cs ≡ false → begins_visible cs ≡ true
visible cs (inl e) h = ground arith
visible cs (inr v) h = v

is_empty-reverse : (cs : List ℕ) → is_empty cs ≡ false → is_empty (reverse cs) ≡ false
is_empty-reverse cs h = elim (Bool-cases (is_empty (reverse cs))) [
  | inl e ↦ cc (empty_eq (reverse cs) e, reverse-reverse cs, h)
  | inr n ↦ n
]

new_inv :
    (value : List ℕ) (r : Reason)
    → new value ≡ ok r
    → (r.text ≡ trim value) × (is_empty r.text ≡ false) × (byte_len r.text ≤ max_bytes)
unfolding new
new_inv value r h = ground arith

-- An accepted reason is not empty, neither begins nor ends with white space, and has at most 500
-- bytes; and given again it is accepted unchanged.
pub new-ok :
    (value : List ℕ) (r : Reason)
    → new value ≡ ok r
    → (begins_visible r.text ≡ true)
      × (begins_visible (reverse r.text) ≡ true)
      × (byte_len r.text ≤ max_bytes)
      × (new r.text ≡ ok r)
unfolding new
new-ok value r h =
    let (e, full, small) = new_inv value r h in
    let front = rw (← e) at (trim-Clean value) in
    let back = rw (← e) at (trim-Clean_end value) in
    (
      visible r.text front full,
      visible (reverse r.text) back (is_empty-reverse r.text full),
      small,
      rw (trim-fixed r.text front back) (ground arith),
    )
