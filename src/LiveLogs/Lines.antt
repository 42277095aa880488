-- ===== src/LiveLogs/Lines.antt =====
-- src/adapters/service_logs.rs: `take_complete_lines`, which cuts a stream's bytes into lines. `lossy` is
-- `String::from_utf8_lossy`, of the standard library.
use aku_supervisor.Base.{
  ℕ, zero, suc, Bool, not, ◌&&◌, Option, none, some, List, [], ◌∷◌, ◌++◌, length, take, drop,
  is_empty, leb, ◌==◌, if◌then◌else◌,
}

abbrev pub newline : ℕ
newline = 10

abbrev pub carriage_return : ℕ
carriage_return = 13

abbrev pub max_partial : ℕ
max_partial = 65536

abbrev pub behind : ℕ → Option (List ℕ × List ℕ) → Option (List ℕ × List ℕ)
behind b none = none
behind b (some (before, after)) = some (b ∷ before, after)

-- `iter().position(|byte| *byte == b'\n')`, with the bytes before and after.
unfoldable pub split_line : List ℕ → Option (List ℕ × List ℕ)
split_line [] = none
split_line (b ∷ bs) =
    let rest = split_line bs in if b == newline then some ([], bs) else behind b rest

-- Drops one `\r` at the end.
unfoldable pub chomp : List ℕ → List ℕ
chomp [] = []
chomp (b ∷ bs) = if is_empty bs && b == carriage_return then [] else b ∷ chomp bs

-- " [line truncated]"
abbrev pub truncated_mark : List ℕ
truncated_mark =
    32 ∷ 91 ∷ 108 ∷ 105 ∷ 110 ∷ 101 ∷ 32 ∷ 116 ∷ 114 ∷ 117 ∷ 110 ∷ 99 ∷ 97 ∷ 116 ∷ 101 ∷ 100 ∷ 93
    ∷ []

-- One line that is taken off the front, before it is decoded, and the bytes that it came from.
pub data Piece : Type 0 where
  whole : List ℕ → Piece
  truncated : List ℕ → Piece

abbrev pub source : Piece → List ℕ
source (whole bytes) = bytes ++ (newline ∷ [])
source (truncated bytes) = bytes

-- Cuts off `limit` bytes where there are so many.
unfoldable pub cut_at : (limit : ℕ) → List ℕ → Option (Piece × List ℕ)
cut_at limit partial =
    if leb limit (length partial)
    then some (truncated (take limit partial), drop limit partial)
    else none

abbrev pub or_cut : List ℕ → Option (List ℕ × List ℕ) → Option (Piece × List ℕ)
or_cut partial (some (bytes, rest)) = some (whole bytes, rest)
or_cut partial none = cut_at max_partial partial

-- One round of the loop; `none` is its `break`.
unfoldable pub next_piece : List ℕ → Option (Piece × List ℕ)
next_piece partial = or_cut partial (split_line partial)

-- Every round takes at least one byte, so the bytes bound the rounds.
unfoldable pub pieces : ℕ → List ℕ → List Piece × List ℕ
pieces zero partial = ([], partial)
pieces (suc fuel) partial = elim (next_piece partial) [
  | none ↦ ([], partial)
  | some (piece, rest) ↦ let more = pieces fuel rest in (piece ∷ more.0, more.1)
]

module _ (lossy : List ℕ → List ℕ) where
  abbrev pub decode : Piece → List ℕ
  decode (whole bytes) = lossy (chomp bytes)
  decode (truncated bytes) = lossy bytes ++ truncated_mark

  abbrev pub decode_all : List Piece → List (List ℕ)
  decode_all [] = []
  decode_all (p ∷ ps) = decode p ∷ decode_all ps

  -- The lines, and the bytes that stay in the buffer.
  unfoldable pub take_complete_lines : List ℕ → (close : Bool) → List (List ℕ) × List ℕ
  take_complete_lines partial close =
      let cut = pieces (length partial) partial in
      if close && not (is_empty cut.1)
      then (decode_all cut.0 ++ (lossy cut.1 ∷ []), [])
      else (decode_all cut.0, cut.1)
