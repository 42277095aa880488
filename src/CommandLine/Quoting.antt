-- ===== src/CommandLine/Quoting.antt =====
-- src/platform/windows/process_tree.rs: `append_windows_argument` and `build_command_line`.
use aku_supervisor.Base.{
  ℕ, zero, suc, ◌+◌, ◌*◌, Bool, false, ◌||◌, List, [], ◌∷◌, ◌++◌, ◌==◌, Result, ok, err, and_then,
  if◌then◌else◌, is_empty,
}

abbrev pub blank : ℕ → Bool
blank c = c == 32 || c == 9

unfoldable pub contains_nul : List ℕ → Bool
contains_nul [] = false
contains_nul (c ∷ cs) = c == 0 || contains_nul cs

unfoldable pub any_special : List ℕ → Bool
any_special [] = false
any_special (c ∷ cs) = (c == 32 || c == 9 || c == 34) || any_special cs

unfoldable pub repeat_n : ℕ → ℕ → List ℕ
repeat_n c zero = []
repeat_n c (suc n) = c ∷ repeat_n c n

-- The loop over the argument and the two pushes after it.
unfoldable pub quote_from : List ℕ → ℕ → List ℕ → List ℕ
quote_from line backslashes [] = (line ++ repeat_n 92 (backslashes * 2)) ++ (34 ∷ [])
quote_from line backslashes (value ∷ wide) =
    if value == 92
    then quote_from line (backslashes + 1) wide
    else (if value == 34
        then quote_from ((line ++ repeat_n 92 (backslashes * 2 + 1)) ++ (value ∷ [])) 0 wide
        else quote_from ((line ++ repeat_n 92 backslashes) ++ (value ∷ [])) 0 wide)

pub data CommandLineError : Type 0 where
  contains_nul_unit : CommandLineError

unfoldable pub append_windows_argument : List ℕ → List ℕ → Result CommandLineError (List ℕ)
append_windows_argument line wide =
    if contains_nul wide
    then err contains_nul_unit
    else (if is_empty wide || any_special wide
        then ok (quote_from (line ++ (34 ∷ [])) 0 wide)
        else ok (line ++ wide))

unfoldable pub append_arguments : List ℕ → List (List ℕ) → Result CommandLineError (List ℕ)
append_arguments line [] = ok line
append_arguments line (argument ∷ arguments) =
    and_then (append_windows_argument (line ++ (32 ∷ [])) argument)
      (λ longer. append_arguments longer arguments)

unfoldable pub build_command_line : List ℕ → List (List ℕ) → Result CommandLineError (List ℕ)
build_command_line program arguments =
    and_then (append_windows_argument [] program)
      (λ line. and_then (append_arguments line arguments) (λ whole. ok (whole ++ (0 ∷ []))))
