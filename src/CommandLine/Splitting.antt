-- ===== src/CommandLine/Splitting.antt =====
-- The documented rules by which a Windows program splits its command line into arguments: blanks
-- outside quotes separate; 2n backslashes and a quote are n backslashes and a delimiter; 2n + 1 and
-- a quote are n backslashes and the quote; other backslashes stand for themselves; a quote just
-- after a closing one is itself and quoting goes on. The program's name, which comes first, is read
-- by other rules: quotes only keep blanks in it, and a backslash is always itself.
use Prim.Native.Nat.{◌/◌, ◌%◌}
use aku_supervisor.Base.{
  ℕ, ◌+◌, Bool, true, false, not, ◌&&◌, Option, none, some, List, [], ◌∷◌, ◌++◌, ◌==◌,
  if◌then◌else◌,
}
use aku_supervisor.CommandLine.Quoting.{blank, repeat_n}

pub data Mode : Type 0 where
  outside inside closed : Mode

abbrev pub held : Option (List ℕ) → List ℕ
held none = []
held (some argument) = argument

abbrev pub emitted : Option (List ℕ) → ℕ → List (List ℕ) → List (List ℕ)
emitted none backslashes rest = rest
emitted (some argument) backslashes rest = (argument ++ repeat_n 92 backslashes) ∷ rest

abbrev pub in_quotes : Mode → Bool
in_quotes outside = false
in_quotes inside = true
in_quotes closed = false

-- After a backslash or another unit that is no delimiter.
abbrev pub opened : Mode → Mode
opened outside = outside
opened inside = inside
opened closed = outside

abbrev pub delimited : Mode → Mode
delimited outside = inside
delimited inside = closed
delimited closed = inside

abbrev pub delimiter_text : Mode → List ℕ
delimiter_text outside = []
delimiter_text inside = []
delimiter_text closed = 34 ∷ []

unfoldable pub split : Mode → ℕ → Option (List ℕ) → List ℕ → List (List ℕ)
split mode n argument [] = emitted argument n []
split mode n argument (c ∷ cs) =
    if c == 92
    then split (opened mode) (n + 1) (some (held argument)) cs
    else (if c == 34
        then (if n % 2 == 1
            then split (opened mode) 0 (some ((held argument ++ repeat_n 92 (n / 2)) ++ (34 ∷ [])))
                cs
            else split (delimited mode) 0
                (some ((held argument ++ repeat_n 92 (n / 2)) ++ delimiter_text mode)) cs)
        else (if in_quotes mode
            then split inside 0 (some ((held argument ++ repeat_n 92 n) ++ (c ∷ []))) cs
            else (if blank c
                then emitted argument n (split outside 0 none cs)
                else split outside 0 (some ((held argument ++ repeat_n 92 n) ++ (c ∷ []))) cs)))

-- The program's name, and what follows it.
unfoldable pub split_program : Bool → List ℕ → List ℕ × List ℕ
split_program quoted [] = ([], [])
split_program quoted (c ∷ cs) =
    let toggled = split_program (not quoted) cs in
    let more = split_program quoted cs in
    if c == 34
    then toggled
    else (if blank c && not quoted then ([], c ∷ cs) else (c ∷ more.0, more.1))

-- The whole line as a started program reads it.
abbrev pub split_line : List ℕ → List ℕ × List (List ℕ)
split_line line = let first = split_program false line in (first.0, split outside 0 none first.1)
