-- ===== src/Token/Stored.antt =====
-- src/adapters/runtime_token.rs: the token that is returned is the one on disk.
use mathlib.Core.List.{reverse, reverse-append, reverse-reverse}
use aku_supervisor.Base.{
  ℕ, true, not, ◌||◌, List, [], ◌∷◌, ◌++◌, ◌==◌, Result, ok, err, ◌≡◌, refl, ap, subst, ◌∙◌, inl,
  inr, arith, Bool-cases, ok-injective,
}
use aku_supervisor.Domain.Reason.{trim, trim_start, byte_len, begins_visible, is_whitespace}
use aku_supervisor.Domain.Reasons.{Clean, trim-Clean, trim-Clean_end, trim_start-fixed}
use aku_supervisor.Token.{
  IoError, RuntimeTokenError, Written, created, Files, RuntimeToken, all_hex, parse_trimmed, parse,
  load, loaded, store, stored, in_directory, create_after, load_or_create, token_length,
}

-- A text between white space is found again behind a line feed.
trim-newline :
    (cs : List ℕ) → begins_visible cs ≡ true → Clean (reverse cs) → trim (cs ++ (10 ∷ [])) ≡ cs
unfolding trim trim_start is_whitespace
trim-newline [] front back = absurd (cc front)
trim-newline (c ∷ cs) front back =
    ap (λ (x : List ℕ). reverse (trim_start (reverse x)))
      (trim_start-fixed (c ∷ (cs ++ (10 ∷ []))) (inr front))
    ∙ ap (λ (x : List ℕ). reverse (trim_start x)) (reverse-append (c ∷ cs) (10 ∷ []))
    ∙ ap reverse (trim_start-fixed (reverse (c ∷ cs)) back)
    ∙ reverse-reverse (c ∷ cs)

long_visible :
    (cs : List ℕ) → Clean cs → byte_len cs == token_length ≡ true → begins_visible cs ≡ true
unfolding byte_len
long_visible [] (inl e) long = absurd (cc long)
long_visible (c ∷ cs) (inl e) long = absurd (cc e)
long_visible cs (inr v) long = v

parse-newline :
    (value : List ℕ) (token : RuntimeToken)
    → parse value ≡ ok token
    → parse (token.text ++ (10 ∷ [])) ≡ ok token
unfolding parse
parse-newline value token e =
    elim (Bool-cases (not (byte_len (trim value) == token_length) || not (all_hex (trim value)))) [
      | inl bad ↦ absurd (cc (rw bad at e))
      | inr good ↦
          let same : record { text = trim value } ≡ token = ok-injective (rw good at e) in
          subst (λ (t : RuntimeToken). parse_trimmed (trim (t.text ++ (10 ∷ []))) ≡ ok t) same
            (rw
              (
                trim-newline (trim value)
                    (long_visible (trim value) (trim-Clean value) (ground (arith, good)))
                    (trim-Clean_end value),
                good,
              )
              refl)
    ]

module _ {F : Type 0} (files : Files F)
    (durable : (bytes : List ℕ) (fs : F)
      → (files.write_new bytes fs).1 ≡ created
      → files.read_to_string (files.write_new bytes fs).0 ≡ ok bytes) where
  stored-load :
      (token : RuntimeToken) (w : F × Written) (t : RuntimeToken)
      → (w.1 ≡ created → load files w.0 ≡ ok token)
      → (stored files token w).1 ≡ ok t
      → load files (stored files token w).0 ≡ ok t
  stored-load token (fs, Written.created) t there e = there refl ∙ e
  stored-load token (fs, Written.already_exists) t there e = e
  stored-load token (fs, Written.failed source) t there e = absurd (cc e)

  readable :
      (value : List ℕ) (token : RuntimeToken) (fs : F)
      → parse value ≡ ok token
      → files.read_to_string (files.write_new (token.text ++ (10 ∷ [])) fs).0
        ≡ ok (token.text ++ (10 ∷ []))
      → load files (files.write_new (token.text ++ (10 ∷ [])) fs).0 ≡ ok token
  unfolding load
  readable value token fs from there = ap (loaded files) there ∙ parse-newline value token from

  store-load :
      (value : List ℕ) (r : Result RuntimeTokenError RuntimeToken) (fs : F) (t : RuntimeToken)
      → parse value ≡ r
      → (store files r fs).1 ≡ ok t
      → load files (store files r fs).0 ≡ ok t
  store-load value (err error) fs t from e = absurd (cc e)
  store-load value (ok token) fs t from e =
      stored-load token (files.write_new (token.text ++ (10 ∷ [])) fs) t
        (λ done. readable value token fs from (durable (token.text ++ (10 ∷ [])) fs done)) e

  in_directory-load :
      (value : Result IoError (List ℕ)) (p : F × Result IoError (Unit {0})) (t : RuntimeToken)
      → (in_directory files value p).1 ≡ ok t
      → load files (in_directory files value p).0 ≡ ok t
  in_directory-load value (fs, err source) t e = absurd (cc e)
  in_directory-load (err source) (fs, ok done) t e = absurd (cc e)
  in_directory-load (ok value) (fs, ok done) t e = store-load value (parse value) fs t refl e

  create_after-load :
      (value : Result IoError (List ℕ)) (fs : F) (r : Result RuntimeTokenError RuntimeToken)
      (t : RuntimeToken)
      → load files fs ≡ r
      → (create_after files value fs r).1 ≡ ok t
      → load files (create_after files value fs r).0 ≡ ok t
  create_after-load value fs (ok token) t from e = from ∙ e
  create_after-load value fs (err (RuntimeTokenError.read IoError.not_found)) t from e =
      in_directory-load value (files.create_dir_all fs) t e
  create_after-load value fs (err (RuntimeTokenError.read IoError.other)) t from e = absurd (cc e)
  create_after-load value fs (err (RuntimeTokenError.create_directory source)) t from e =
      absurd (cc e)
  create_after-load value fs (err (RuntimeTokenError.generate source)) t from e = absurd (cc e)
  create_after-load value fs (err (RuntimeTokenError.write source)) t from e = absurd (cc e)
  create_after-load value fs (err RuntimeTokenError.invalid) t from e = absurd (cc e)

  -- If a file that was created and written reads as it was written, then after `load_or_create`
  -- returned a token, loading gives that token, whether it was there before, was created, or another
  -- process created it first.
  pub load_or_create-load :
      (value : Result IoError (List ℕ)) (fs : F) (token : RuntimeToken)
      → (load_or_create files value fs).1 ≡ ok token
      → load files (load_or_create files value fs).0 ≡ ok token
  unfolding load_or_create
  load_or_create-load value fs token e = create_after-load value fs (load files fs) token refl e
