-- ===== src/Domain/Reason.antt =====
-- src/domain/control.rs: the reason that goes with every lifecycle request, a trimmed text of at
-- most 500 bytes. A text is the list of its code points.
use aku_supervisor.Base.{
  ℕ, ◌+◌, Bool, true, false, not, ◌&&◌, ◌||◌, List, [], ◌∷◌, Result, ok, err, ltb, leb, ◌==◌,
  if◌then◌else◌, is_empty,
}
use mathlib.Core.List.{reverse}

-- `char::is_whitespace`: the Unicode property White_Space.
unfoldable pub is_whitespace : ℕ → Bool
is_whitespace c =
    (leb 0x9 c && leb c 0xd)
    || c == 0x20
    || c == 0x85
    || c == 0xa0
    || c == 0x1680
    || (leb 0x2000 c && leb c 0x200a)
    || c == 0x2028
    || c == 0x2029
    || c == 0x202f
    || c == 0x205f
    || c == 0x3000

-- The bytes of a code point in UTF-8, and `str::len`.
unfoldable pub len_utf8 : ℕ → ℕ
len_utf8 c = if ltb c 0x80 then 1 else (if ltb c 0x800 then 2 else (if ltb c 0x10000 then 3 else 4))

unfoldable pub byte_len : List ℕ → ℕ
unfolding len_utf8
byte_len [] = 0
byte_len (c ∷ cs) = len_utf8 c + byte_len cs

unfoldable pub trim_start : List ℕ → List ℕ
unfolding is_whitespace
trim_start [] = []
trim_start (c ∷ cs) = if is_whitespace c then trim_start cs else c ∷ cs

unfoldable pub trim : List ℕ → List ℕ
unfolding trim_start
trim value = reverse (trim_start (reverse (trim_start value)))

abbrev pub max_bytes : ℕ
max_bytes = 500

pub record Reason : Type 0 where
  pub text : List ℕ

abbrev pub same_text : List ℕ → List ℕ → Bool
same_text [] [] = true
same_text [] (y ∷ ys) = false
same_text (x ∷ xs) [] = false
same_text (x ∷ xs) (y ∷ ys) = x == y && same_text xs ys

-- The derived equality.
abbrev pub same_reason : Reason → Reason → Bool
same_reason r s = same_text r.text s.text

pub data ReasonError : Type 0 where
  empty : ReasonError
  too_long : (actual maximum : ℕ) → ReasonError

unfoldable pub new : List ℕ → Result ReasonError Reason
new value =
    let trimmed = trim value in
    if is_empty trimmed
    then err empty
    else (if ltb max_bytes (byte_len trimmed)
        then err (too_long (byte_len trimmed) max_bytes)
        else ok (record { text = trimmed }))

-- The text of a reason begins and ends with something other than white space.
abbrev pub begins_visible : List ℕ → Bool
begins_visible [] = false
begins_visible (c ∷ cs) = not (is_whitespace c)
