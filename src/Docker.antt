-- ===== src/Docker.antt =====
-- src/docker.rs: the checks on names that reach a command line of `docker`.
pub mod Refs
pub mod Actions
pub mod Networks
pub mod Operands
pub mod Log
mod Tests
use shellfleet_agent.Common.{
  ℕ, Bool, true, false, not, ◌&&◌, ◌||◌, List, [], ◌∷◌, if◌then◌else◌, ◌==◌, ltb, within, is_empty,
  all, Text, Bytes, as_bytes, str_len, is_ascii_digit, is_ascii_alphanumeric, Result, ok, err,
  map_err,
}

pub data RefError : Type 0 where
  bad_length invalid_object invalid_image invalid_driver invalid_subnet : RefError

-- `.as_bytes().first().is_some_and(test)`
abbrev pub first_is : (ℕ → Bool) → Bytes → Bool
first_is test [] = false
first_is test (byte ∷ rest) = test byte

unfoldable pub object_byte : ℕ → Bool
object_byte b = is_ascii_alphanumeric b || (b == b'.' || b == b'_' || b == b'-' || b == b':')

unfoldable pub image_byte : ℕ → Bool
image_byte b =
    is_ascii_alphanumeric b
    || (b == b'.' || b == b'_' || b == b'-' || b == b':' || b == b'/' || b == b'@' || b == b'+')

-- `u8::is_ascii_hexdigit`
abbrev pub is_ascii_hexdigit : ℕ → Bool
is_ascii_hexdigit b = is_ascii_digit b || within b'a' b'f' b || within b'A' b'F' b

unfoldable pub subnet_byte : ℕ → Bool
subnet_byte b = is_ascii_hexdigit b || (b == b'.' || b == b':' || b == b'/')

unfoldable pub validate_object_ref : Text → Result RefError (Unit {0})
validate_object_ref value =
    if is_empty value || ltb 255 (str_len value)
    then err bad_length
    else if not (first_is is_ascii_alphanumeric (as_bytes value))
        || not (all object_byte (as_bytes value))
    then err invalid_object
    else ok tt

unfoldable pub validate_image_ref : Text → Result RefError (Unit {0})
validate_image_ref value =
    if is_empty value || ltb 512 (str_len value)
    then err bad_length
    else if not (first_is is_ascii_alphanumeric (as_bytes value))
        || not (all image_byte (as_bytes value))
    then err invalid_image
    else ok tt

unfoldable pub validate_network_driver : Text → Result RefError (Unit {0})
validate_network_driver value = map_err (λ _. invalid_driver) (validate_object_ref value)

unfoldable pub validate_subnet : Text → Result RefError (Unit {0})
validate_subnet value =
    if is_empty value
      || ltb 128 (str_len value)
      || not (first_is is_ascii_hexdigit (as_bytes value))
      || not (all subnet_byte (as_bytes value))
    then err invalid_subnet
    else ok tt
