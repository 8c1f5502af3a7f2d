-- ===== src/Download/Md5Laws.antt =====
-- The check of a hash does not panic once a missing hash was refused at the start.
use axxx.Prelude.{◌≡◌, refl, Bool, true, false, ◌&&◌, arith, nat_beq, length, Bool-cases, inl, inr}
use axxx.Writer.{Bytes}
use axxx.Download.Md5.{
  HashValidationOption, no_check, fail_if_different, log_only, fail_if_different_or_missing,
  bytes_equal, check_hash, check, check_missing, check_match,
}
use axxx.Download.Epilogue.{Ending, md5_of_file_as_written}
use axxx.Download.Start.{is_if_different_or_missing}
use axxx.Download.Checks.{is_panic, hash_panics}

check_missing-calm :
    (option : HashValidationOption)
    → is_if_different_or_missing option ≡ false
    → is_panic (check_missing option) ≡ false
unfolding check_missing
check_missing-calm no_check h = refl
check_missing-calm fail_if_different h = refl
check_missing-calm log_only h = refl
check_missing-calm fail_if_different_or_missing h = h

check_match-calm :
    (option : HashValidationOption) (same : Bool) → is_panic (check_match option same) ≡ false
unfolding check_match
check_match-calm _ true = refl
check_match-calm no_check false = refl
check_match-calm fail_if_different false = refl
check_match-calm log_only false = refl
check_match-calm fail_if_different_or_missing false = refl

check_hash-calm :
    (option : HashValidationOption) (expected actual : Bytes)
    → (is_if_different_or_missing option && nat_beq (length expected) 0) ≡ false
    → is_panic (check_hash option expected actual) ≡ false
unfolding check_hash
check_hash-calm option expected actual h =
    let matched = check_match-calm option (bytes_equal expected actual) in
    elim (Bool-cases (nat_beq (length expected) 0)) [
      | inl missing ↦ rw missing (check_missing-calm option (ground (arith, missing, h)))
      | inr there ↦ elim (Bool-cases (nat_beq (length actual) 0)) [
        | inl not_computed ↦ rw (there, not_computed) refl
        | inr computed ↦ rw (there, computed) matched
      ]
    ]

check_calm :
    (option : HashValidationOption) (expected actual : Bytes)
    → (is_if_different_or_missing option && nat_beq (length expected) 0) ≡ false
    → is_panic (check option expected actual) ≡ false
unfolding check
check_calm no_check expected actual h = refl
check_calm fail_if_different expected actual h = check_hash-calm fail_if_different expected actual h
check_calm log_only expected actual h = check_hash-calm log_only expected actual h
check_calm fail_if_different_or_missing expected actual h =
    check_hash-calm fail_if_different_or_missing expected actual h

pub calm_unless_missing :
    (e : Ending)
    → (is_if_different_or_missing e.md5_validation_option && nat_beq (length e.expected_md5) 0)
      ≡ false
    → hash_panics e ≡ false
calm_unless_missing e h =
    check_calm e.md5_validation_option e.expected_md5 (md5_of_file_as_written e) h
