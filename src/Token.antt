-- ===== src/Token.antt =====
-- src/adapters/runtime_token.rs: the runtime token on disk and its comparison. A text is the list of
-- its code points; a token that is accepted is ASCII, so these are its bytes. The file and the
-- operating system behind it are the record `Files` of functions on their state.
mod Bits
pub mod Equal
pub mod Stored
use Prim.Native.Nat.{bit_or, bit_xor}
use aku_supervisor.Base.{
  ℕ, Bool, true, false, not, ◌&&◌, ◌||◌, List, [], ◌∷◌, ◌++◌, ◌==◌, leb, length, Result, ok, err,
  if◌then◌else◌,
}
use aku_supervisor.Domain.Reason.{trim, byte_len}

abbrev pub token_length : ℕ
token_length = 64

pub data IoError : Type 0 where
  not_found other : IoError

pub data RuntimeTokenError : Type 0 where
  read create_directory generate write : IoError → RuntimeTokenError
  invalid : RuntimeTokenError

-- How creating a new file and writing it ends.
pub data Written : Type 0 where
  created already_exists : Written
  failed : IoError → Written

pub record Files (F : Type 0) : Type 0 where
  pub read_to_string : F → Result IoError (List ℕ)
  pub create_dir_all : F → F × Result IoError (Unit {0})
  pub write_new : List ℕ → F → F × Written

pub record RuntimeToken : Type 0 where
  pub text : List ℕ

-- The loop over the indices of the longer text; a missing byte counts as 0.
unfoldable pub differences : ℕ → List ℕ → List ℕ → ℕ
differences difference [] [] = difference
differences difference (l ∷ left) [] = differences (bit_or difference (bit_xor l 0)) left []
differences difference [] (r ∷ right) = differences (bit_or difference (bit_xor 0 r)) [] right
differences difference (l ∷ left) (r ∷ right) =
    differences (bit_or difference (bit_xor l r)) left right

unfoldable pub constant_time_equal : List ℕ → List ℕ → Bool
constant_time_equal expected candidate =
    differences (bit_xor (length expected) (length candidate)) expected candidate == 0

unfoldable pub bearer_matches : RuntimeToken → List ℕ → Bool
bearer_matches token candidate = constant_time_equal token.text candidate

unfoldable pub all_hex : List ℕ → Bool
all_hex [] = true
all_hex (c ∷ cs) = ((leb 48 c && leb c 57) || (leb 97 c && leb c 102)) && all_hex cs

abbrev pub parse_trimmed : List ℕ → Result RuntimeTokenError RuntimeToken
parse_trimmed value =
    if not (byte_len value == token_length) || not (all_hex value)
    then err RuntimeTokenError.invalid
    else ok (record { text = value })

unfoldable pub parse : List ℕ → Result RuntimeTokenError RuntimeToken
parse value = parse_trimmed (trim value)

module _ {F : Type 0} (files : Files F) where
  abbrev pub loaded : Result IoError (List ℕ) → Result RuntimeTokenError RuntimeToken
  loaded (ok value) = parse value
  loaded (err source) = err (RuntimeTokenError.read source)

  unfoldable pub load : F → Result RuntimeTokenError RuntimeToken
  load fs = loaded (files.read_to_string fs)

  abbrev pub stored : RuntimeToken → F × Written → F × Result RuntimeTokenError RuntimeToken
  stored token (fs, Written.created) = (fs, ok token)
  stored token (fs, Written.already_exists) = (fs, load fs)
  stored token (fs, Written.failed source) = (fs, err (RuntimeTokenError.write source))

  abbrev pub store :
      Result RuntimeTokenError RuntimeToken → F → F × Result RuntimeTokenError RuntimeToken
  store (ok token) fs = stored token (files.write_new (token.text ++ (10 ∷ [])) fs)
  store (err error) fs = (fs, err error)

  abbrev pub generated : Result IoError (List ℕ) → F → F × Result RuntimeTokenError RuntimeToken
  generated (ok value) fs = store (parse value) fs
  generated (err source) fs = (fs, err (RuntimeTokenError.generate source))

  abbrev pub in_directory :
      Result IoError (List ℕ)
      → F × Result IoError (Unit {0})
      → F × Result RuntimeTokenError RuntimeToken
  in_directory value (fs, ok done) = generated value fs
  in_directory value (fs, err source) = (fs, err (RuntimeTokenError.create_directory source))

  abbrev pub create_after :
      Result IoError (List ℕ)
      → F
      → Result RuntimeTokenError RuntimeToken
      → F × Result RuntimeTokenError RuntimeToken
  create_after value fs (ok token) = (fs, ok token)
  create_after value fs (err (RuntimeTokenError.read IoError.not_found)) =
      in_directory value (files.create_dir_all fs)
  create_after value fs (err error) = (fs, err error)

  -- `value` is what the generator gives if it is called.
  unfoldable pub load_or_create :
      Result IoError (List ℕ) → F → F × Result RuntimeTokenError RuntimeToken
  load_or_create value fs = create_after value fs (load fs)
