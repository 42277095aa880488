-- ===== src/CommandLine/RoundTrip.antt =====
-- src/platform/windows/process_tree.rs: a program gets the arguments that it was started with.
use aku_supervisor.Base.{ℕ, false, none, List, [], ◌∷◌, ◌++◌, ok, ◌≡◌, refl, ap, ◌∙◌, All}
use aku_supervisor.CommandLine.Quoting.{contains_nul, build_command_line}
use aku_supervisor.CommandLine.Splitting.{outside, split, split_line}
use aku_supervisor.CommandLine.Encoded.{
  encoded, spaced, split-encoded, split-spaced, spaced-Boundary, append_windows_argument-encoded,
  append_arguments-spaced,
}
use aku_supervisor.CommandLine.ProgramName.{IsFileName, split_program-encoded}

build_command_line-spaced :
    (program : List ℕ) (arguments : List (List ℕ))
    → contains_nul program ≡ false
    → All (λ a. contains_nul a ≡ false) arguments
    → build_command_line program arguments ≡ ok ((encoded program ++ spaced arguments) ++ (0 ∷ []))
unfolding build_command_line
build_command_line-spaced program arguments fine all =
    rw
      (
        append_windows_argument-encoded [] program fine,
        append_arguments-spaced (encoded program) arguments all,
      )
      refl

-- For a program and arguments without NUL a command line is built, with a NUL at its end, and the
-- documented rules for arguments split the whole line before it into exactly the program and the
-- arguments.
pub build_command_line-split :
    (program : List ℕ) (arguments : List (List ℕ))
    → contains_nul program ≡ false
    → All (λ a. contains_nul a ≡ false) arguments
    → (line : List ℕ) × (build_command_line program arguments ≡ ok (line ++ (0 ∷ [])))
      × (split outside 0 none line ≡ program ∷ arguments)
build_command_line-split program arguments fine all = (
  encoded program ++ spaced arguments,
  build_command_line-spaced program arguments fine all,
  split-encoded program (spaced arguments) (spaced-Boundary arguments)
      ∙ ap (λ (xs : List (List ℕ)). program ∷ xs) (split-spaced arguments),
)

-- For a program that is a file's name and arguments, all without NUL, a command line is built, with a
-- NUL at its end, which a started program reads as the program's name and exactly the arguments.
pub build_command_line-split_line :
    (program : List ℕ) (arguments : List (List ℕ))
    → contains_nul program ≡ false
    → All (λ a. contains_nul a ≡ false) arguments
    → IsFileName program
    → (line : List ℕ) × (build_command_line program arguments ≡ ok (line ++ (0 ∷ [])))
      × (split_line line ≡ (program, arguments))
build_command_line-split_line program arguments fine all name = (
  encoded program ++ spaced arguments,
  build_command_line-spaced program arguments fine all,
  rw
      (
        split_program-encoded program (spaced arguments) name (spaced-Boundary arguments),
        split-spaced arguments,
      )
      refl,
)
