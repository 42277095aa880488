-- ===== src/Tests/Tokens.antt =====
-- The theorems on the runtime token.
use aku_supervisor.Base.{
  ℕ, zero, suc, true, Option, none, some, List, [], ◌∷◌, ok, err, Result, ◌≡◌, ◌↔◌, refl,
}
use aku_supervisor.Token.{
  IoError, Written, created, already_exists, Files, RuntimeToken, bearer_matches, load,
  load_or_create, parse, all_hex,
}
use aku_supervisor.Domain.Reason.{byte_len, trim}
use aku_supervisor.Token.Equal.{bearer_matches_iff}
use aku_supervisor.Token.Stored.{load_or_create-load}

bearer_matches_iff_example :
    (bearer_matches (record { text = 97 ∷ 98 ∷ [] }) (97 ∷ 98 ∷ []) ≡ true)
    ↔ ◌≡◌ {A = List ℕ} (97 ∷ 98 ∷ []) (97 ∷ 98 ∷ [])
bearer_matches_iff_example = bearer_matches_iff (record { text = 97 ∷ 98 ∷ [] }) (97 ∷ 98 ∷ [])

abbrev read_file : Option (List ℕ) → Result IoError (List ℕ)
read_file none = err IoError.not_found
read_file (some bytes) = ok bytes

abbrev write_file : List ℕ → Option (List ℕ) → Option (List ℕ) × Written
write_file bytes none = (some bytes, created)
write_file bytes (some old) = (some old, already_exists)

-- A disk with at most one file.
abbrev disk : Files (Option (List ℕ))
disk = record {
  read_to_string = read_file;
  create_dir_all = λ fs. (fs, ok tt);
  write_new = write_file;
}

disk_durable :
    (bytes : List ℕ) (fs : Option (List ℕ))
    → (disk.write_new bytes fs).1 ≡ created
    → disk.read_to_string (disk.write_new bytes fs).0 ≡ ok bytes
disk_durable bytes none e = refl
disk_durable bytes (some old) e = absurd (cc e)

abbrev letters : ℕ → List ℕ
letters zero = []
letters (suc n) = 97 ∷ letters n

abbrev token : RuntimeToken
token = record { text = letters 64 }

load_or_create-load_example : load disk (load_or_create disk (ok (letters 64)) none).0 ≡ ok token
unfolding load_or_create load parse byte_len trim all_hex
load_or_create-load_example =
    load_or_create-load disk disk_durable (ok (letters 64)) none token refl
