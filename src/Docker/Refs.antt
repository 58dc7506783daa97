-- ===== src/Docker/Refs.antt =====
-- The checks on names against a description over characters.
use shellfleet_agent.Common.{
  ap, ◌⊎◌, inl, inr, length, if◌then◌else◌, is_empty, ℕ, ◌≤◌, ◌<◌, Bool, true, false, not, ◌&&◌,
  ◌||◌, [], ◌∷◌, all, ltb, Text, Bytes, as_bytes, encode_utf8, str_len, is_ascii_alphanumeric,
  Result, ok, err, ◌≡◌, ◌↔◌, refl, arith, sym, ◌∙◌, lit, contains_char,
}
use shellfleet_agent.Docker.{
  RefError, bad_length, invalid_object, invalid_image, first_is, object_byte, image_byte,
  subnet_byte, is_ascii_hexdigit, validate_object_ref, validate_image_ref,
}

-- One character, of one byte, that a test accepts.
abbrev pub Ascii : (ℕ → Bool) → Type 0
Ascii test = (c : ℕ) → test c ≡ true → c < 0x80

-- A character is its own byte, or starts with a byte that is not ASCII.
encode_utf8-cases :
    (c : ℕ)
    → ((c < 0x80) × (encode_utf8 c ≡ c ∷ []))
      ⊎ ((b : ℕ) × (bs : Bytes) × (0x80 ≤ c) × (0x80 ≤ b) × (encode_utf8 c ≡ b ∷ bs))
encode_utf8-cases c = ground arith

module _ (test : ℕ → Bool) (ascii : Ascii test) where
  beyond_ascii : (c : ℕ) → 0x80 ≤ c → test c ≡ false
  beyond_ascii c h = ground (arith, ascii c)

  all-as_bytes : (s : Text) → all test (as_bytes s) ≡ all test s
  all-as_bytes [] = refl
  all-as_bytes (c ∷ s) = elim (encode_utf8-cases c) [
    | inl (_, e) ↦ rw e (ap (◌&&◌ (test c)) (all-as_bytes s))
    | inr (b, bs, h, k, e) ↦ rw (e, beyond_ascii c h, beyond_ascii b k) refl
  ]

  pub first_is-as_bytes : (s : Text) → first_is test (as_bytes s) ≡ first_is test s
  first_is-as_bytes [] = refl
  first_is-as_bytes (c ∷ s) = elim (encode_utf8-cases c) [
    | inl (_, e) ↦ rw e refl
    | inr (b, bs, h, k, e) ↦ rw (e, beyond_ascii c h, beyond_ascii b k) refl
  ]

object_byte-Ascii : Ascii object_byte
unfolding object_byte
object_byte-Ascii c h = ground arith

image_byte-Ascii : Ascii image_byte
unfolding image_byte
image_byte-Ascii c h = ground arith

subnet_byte-Ascii : Ascii subnet_byte
unfolding subnet_byte
subnet_byte-Ascii c h = ground arith

is_ascii_alphanumeric-Ascii : Ascii is_ascii_alphanumeric
is_ascii_alphanumeric-Ascii c h = ground arith

pub is_ascii_hexdigit-Ascii : Ascii is_ascii_hexdigit
is_ascii_hexdigit-Ascii c h = ground arith

-- A name as the checks want it: a first character and further ones of given kinds, of at most
-- `bound` characters.
abbrev pub IsName : (ℕ → Bool) → (ℕ → Bool) → ℕ → Text → Type 0
IsName first further bound s =
    (first_is first s ≡ true) × (all further s ≡ true) × (length s ≤ bound)

-- A text of ASCII characters has as many bytes as characters.
str_len-length :
    (test : ℕ → Bool) → Ascii test → (s : Text) → all test s ≡ true → str_len s ≡ length s
str_len-length test ascii [] h = refl
str_len-length test ascii (c ∷ s) h = ground (arith, str_len-length test ascii s, ascii c)

abbrev checked :
    (ℕ → Bool) → (ℕ → Bool) → ℕ → Text → RefError → RefError → Result RefError (Unit {0})
checked first further bound value e₁ e₂ =
    if is_empty value || ltb bound (str_len value)
    then err e₁
    else if not (first_is first (as_bytes value)) || not (all further (as_bytes value))
    then err e₂
    else ok tt

check-IsName :
    (first further : ℕ → Bool)
    → Ascii first
    → Ascii further
    → (bound : ℕ) (value : Text) (e₁ e₂ : RefError)
    → (checked first further bound value e₁ e₂ ≡ ok tt) ↔ IsName first further bound value
check-IsName first further a b bound [] e₁ e₂ = ground arith
check-IsName first further a b bound (c ∷ s) e₁ e₂ = ground (
  arith,
  first_is-as_bytes first a (c ∷ s),
  all-as_bytes further b (c ∷ s),
  str_len-length further b (c ∷ s),
)

-- The characters of a name besides ASCII letters and digits, written out.
abbrev pub or_one_of : Text → ℕ → Bool
or_one_of others c = is_ascii_alphanumeric c || contains_char c others

object_byte-or_one_of : (c : ℕ) → object_byte c ≡ or_one_of (lit "._-:") c
unfolding object_byte
object_byte-or_one_of c = ground arith

image_byte-or_one_of : (c : ℕ) → image_byte c ≡ or_one_of (lit "._-:/@+") c
unfolding image_byte
image_byte-or_one_of c = ground arith

all-same : (f g : ℕ → Bool) → ((c : ℕ) → f c ≡ g c) → (s : Text) → all f s ≡ all g s
all-same f g h [] = refl
all-same f g h (c ∷ s) = ground (arith, h c, all-same f g h s)

-- The same names, by two tests that agree.
IsName-same :
    (first f g : ℕ → Bool)
    → ((c : ℕ) → f c ≡ g c)
    → (bound : ℕ) (s : Text) → IsName first f bound s ↔ IsName first g bound s
IsName-same first f g h bound s =
    (λ (a, b, c). (a, sym (all-same f g h s) ∙ b, c), λ (a, b, c). (a, all-same f g h s ∙ b, c))

-- `validate_object_ref` accepts the names of at most 255 characters that start with an ASCII
-- letter or digit and go on with such or `.`, `_`, `-` and `:`, and `validate_image_ref` those of
-- at most 512 characters with also `/`, `@` and `+`; no other text passes, however it is encoded.
pub validate-IsName :
    (value : Text)
    → ((validate_object_ref value ≡ ok tt)
        ↔ IsName is_ascii_alphanumeric (or_one_of (lit "._-:")) 255 value)
      × ((validate_image_ref value ≡ ok tt)
          ↔ IsName is_ascii_alphanumeric (or_one_of (lit "._-:/@+")) 512 value)
unfolding validate_object_ref validate_image_ref
validate-IsName value =
    let check = check-IsName is_ascii_alphanumeric in
    let first = is_ascii_alphanumeric-Ascii in
    let object = check object_byte first object_byte-Ascii 255 value bad_length invalid_object in
    let image = check image_byte first image_byte-Ascii 512 value bad_length invalid_image in
    let names =
      IsName-same is_ascii_alphanumeric object_byte (or_one_of (lit "._-:")) object_byte-or_one_of
        255 value in
    let images =
      IsName-same is_ascii_alphanumeric image_byte (or_one_of (lit "._-:/@+")) image_byte-or_one_of
        512 value in
    (
      (λ h. names.0 (object.0 h), λ h. object.1 (names.1 h)),
      (λ h. images.0 (image.0 h), λ h. image.1 (images.1 h)),
    )
