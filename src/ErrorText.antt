-- ===== src/ErrorText.antt =====
-- The texts of the error codes (amp.c): amp_code_to_string and amp_strerror.
use libamp.Common.{List, [], ◌∷◌, if◌then◌else◌}
use libamp.Common.Int.{ℤ, pos, eqb_ℤ}
use libamp.CString.{Bytes, codes}
use libamp.Errors.{
  bad_key_size, bad_val_size, box_empty, req_key_missing, proto_error, key_not_found, decode_error,
  encode_error, out_of_range, internal_error, no_such_ask_key, enomem,
}

abbrev pub code_to_string : List (ℤ × Bytes)
code_to_string =
    (pos bad_key_size, codes "Invalid AMP key length")
    ∷ (pos bad_val_size, codes "Invalid AMP value length")
    ∷ (pos box_empty, codes "AMP box contains no key/value pairs")
    ∷ (
      pos req_key_missing,
      codes "AMP box did not contain a special key required by the wire-protocol",
    )
    ∷ (
      pos proto_error,
      codes "AMP_Proto object is in fatal error state due to previously encountered error",
    )
    ∷ (pos key_not_found, codes "The requested key was not found in the AMP box")
    ∷ (pos decode_error, codes "The value failed to decode to the requested type")
    ∷ (pos encode_error, codes "The value failed to encode as the specified type")
    ∷ (
      pos out_of_range,
      codes "The decoded value falls outside the representable range of the requested type",
    )
    ∷ (pos internal_error, codes "Libamp encountered an internal error. Please file a bug report.")
    ∷ (pos no_such_ask_key, codes "amp_cancel() could not find the ask_key you requested.")
    ∷ (pos enomem, codes "malloc() failed. Out Of Memory.")
    ∷ []

-- The first text with the code, or the one for codes that have none.
unfoldable pub strerror_loop : List (ℤ × Bytes) → ℤ → Bytes
strerror_loop [] amp_error_num = codes "Unknown libamp error code"
strerror_loop (item ∷ items) amp_error_num =
    let rest = strerror_loop items amp_error_num in
    if eqb_ℤ item.0 amp_error_num then item.1 else rest

unfoldable pub amp_strerror : ℤ → Bytes
amp_strerror amp_error_num = strerror_loop code_to_string amp_error_num
