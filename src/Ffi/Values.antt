-- ===== src/Ffi/Values.antt =====
-- The numbers of the return codes of src/ffi.rs.
use null_path.Base.Int.{ℤ, pos, negsuc}
use null_path.Base.{◌≡◌, arith}
use null_path.Ffi.{ReturnCode}

-- the constants, as `i32`
unfoldable pub value : ReturnCode → ℤ
value ReturnCode.decoypath_ok = pos 0
value ReturnCode.decoypath_err_null_pointer = negsuc 0
value ReturnCode.decoypath_err_invalid_payload = negsuc 1
value ReturnCode.decoypath_err_authentication_failed = negsuc 2
value ReturnCode.decoypath_err_crypto_failure = negsuc 3
value ReturnCode.decoypath_err_buffer_too_small = negsuc 4
value ReturnCode.decoypath_err_invalid_sequence = negsuc 5
value ReturnCode.decoypath_err_replayed_sequence = negsuc 6
value ReturnCode.decoypath_err_skipped_key_expired = negsuc 7
value ReturnCode.decoypath_err_invalid_message_id = negsuc 8
value ReturnCode.decoypath_err_panic = negsuc 98

-- A caller reads the code off its number: no two codes have the same.
pub value-injective : (a b : ReturnCode) → value a ≡ value b → a ≡ b
unfolding value
value-injective a b h = ground arith
