-- ===== src/Config/Texts.antt =====
-- src/adapters/config.rs: the texts that the validation reads by characters. A byte below 128 stands
-- in UTF-8 only for its own character, so a scan for such bytes is one of the code points.
use Prim.Native.Char.{code}
use aku_supervisor.Base.{
  ℕ, String, Bool, true, false, not, ◌&&◌, ◌||◌, Option, none, some, List, [], ◌∷◌, leb, ◌==◌,
  if◌then◌else◌, is_empty,
}
use aku_supervisor.Domain.Reason.{is_whitespace}

abbrev pub codes : String → List ℕ
codes String.[] = []
codes (String.◌∷◌ c s) = code c ∷ codes s

abbrev pub strip_prefix : String → String → Option String
strip_prefix String.[] s = some s
strip_prefix (String.◌∷◌ p ps) String.[] = none
strip_prefix (String.◌∷◌ p ps) (String.◌∷◌ c s) =
    let rest = strip_prefix ps s in if code p == code c then rest else none

abbrev pub contains_char : ℕ → String → Bool
contains_char x String.[] = false
contains_char x (String.◌∷◌ c s) = code c == x || contains_char x s

-- `split(x).next()`: what stands before the first separator.
abbrev pub first_part : ℕ → String → String
first_part x String.[] = String.[]
first_part x (String.◌∷◌ c s) =
    let rest = first_part x s in if code c == x then String.[] else String.◌∷◌ c rest

unfoldable pub all_whitespace : List ℕ → Bool
all_whitespace [] = true
all_whitespace (c ∷ cs) = is_whitespace c && all_whitespace cs

-- `trim().is_empty()`
abbrev pub is_blank : String → Bool
is_blank s = all_whitespace (codes s)

unfoldable pub all_id_bytes : List ℕ → Bool
all_id_bytes [] = true
all_id_bytes (c ∷ cs) =
    ((leb 97 c && leb c 122) || (leb 48 c && leb c 57) || c == 45) && all_id_bytes cs

unfoldable pub valid_service_id : String → Bool
valid_service_id value = not (is_empty (codes value)) && all_id_bytes (codes value)

-- The loop of `valid_json_pointer` from an index on.
unfoldable pub valid_escapes : List ℕ → Bool
valid_escapes [] = true
valid_escapes (c ∷ []) = not (c == 126)
valid_escapes (c ∷ d ∷ cs) =
    let past = valid_escapes cs in
    let next = valid_escapes (d ∷ cs) in if c == 126 then (d == 48 || d == 49) && past else next

unfoldable pub valid_pointer : List ℕ → Bool
valid_pointer [] = true
valid_pointer (c ∷ cs) = if c == 47 then valid_escapes (c ∷ cs) else false

unfoldable pub valid_json_pointer : String → Bool
valid_json_pointer pointer = valid_pointer (codes pointer)
