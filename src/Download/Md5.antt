-- ===== src/Download/Md5.antt =====
-- ste/md5Comparer.go: the check of a downloaded file's MD5. A hash is its bytes.
use axxx.Prelude.{Bool, true, false, [], ◌∷◌, nat_beq, ◌&&◌, if◌then◌else◌, length}
use axxx.Writer.{Bytes}

pub data HashValidationOption : Type 0 where
  fail_if_different no_check log_only fail_if_different_or_missing : HashValidationOption

pub data Md5Error : Type 0 where
  md5_mismatch actual_md5_not_computed : Md5Error

-- No error, an error, or the panic for a missing hash that should have failed the transfer earlier.
pub data Checked : Type 0 where
  passed : Checked
  error : Md5Error → Checked
  panic : Checked

unfoldable pub bytes_equal : Bytes → Bytes → Bool
bytes_equal [] [] = true
bytes_equal (a ∷ as') (b ∷ bs) = nat_beq a b && bytes_equal as' bs
bytes_equal _ _ = false

unfoldable pub check_missing : HashValidationOption → Checked
check_missing fail_if_different_or_missing = panic
check_missing _ = passed

unfoldable pub check_match : HashValidationOption → Bool → Checked
check_match _ true = passed
check_match log_only false = passed
check_match _ false = error md5_mismatch

-- `Check` behind its test of the option.
unfoldable pub check_hash : HashValidationOption → Bytes → Bytes → Checked
check_hash validation_option expected actual_as_saved =
    if nat_beq (length expected) 0
    then check_missing validation_option
    else if nat_beq (length actual_as_saved) 0
    then error actual_md5_not_computed
    else check_match validation_option (bytes_equal expected actual_as_saved)

-- `Check`, of the hash that the service has and the one of the file as it was written.
unfoldable pub check : HashValidationOption → Bytes → Bytes → Checked
check no_check expected actual_as_saved = passed
check validation_option expected actual_as_saved =
    check_hash validation_option expected actual_as_saved
