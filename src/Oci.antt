-- ===== src/Oci.antt =====
-- crates/visor-runtime/src/oci/reference.rs: references of container images. A text is the list of its
-- bytes: `validate_characters` refuses every byte of a character that is not ASCII, as the source refuses
-- the character. The contexts that wrap an error are left out.
pub mod Canonical
pub mod RoundTrip
mod Tests
use visor.Prelude.{
  ℕ, Bool, true, false, not, ◌&&◌, ◌||◌, [], ◌∷◌, ◌++◌, Option, none, some, Result, ok, err, ◌>>=◌,
  leb, ◌==◌, if◌then◌else◌,
}
use visor.Prelude.Texts.{Text, is_empty, same_text, has, split_first, split_last}

-- "docker.io"
abbrev pub default_registry : Text
default_registry = b'd' ∷ b'o' ∷ b'c' ∷ b'k' ∷ b'e' ∷ b'r' ∷ b'.' ∷ b'i' ∷ b'o' ∷ []

-- "latest"
abbrev pub default_tag : Text
default_tag = b'l' ∷ b'a' ∷ b't' ∷ b'e' ∷ b's' ∷ b't' ∷ []

-- "library", which a slash follows.
abbrev pub library : Text
library = b'l' ∷ b'i' ∷ b'b' ∷ b'r' ∷ b'a' ∷ b'r' ∷ b'y' ∷ []

-- "localhost"
abbrev pub localhost : Text
localhost = b'l' ∷ b'o' ∷ b'c' ∷ b'a' ∷ b'l' ∷ b'h' ∷ b'o' ∷ b's' ∷ b't' ∷ []

pub record ImageReference : Type 0 where
  pub registry : Text
  pub repository : Text
  pub tag : Option Text
  pub digest : Option Text

pub data ReferenceError : Type 0 where
  empty_reference : ReferenceError
  invalid_character : ReferenceError
  empty_digest : ReferenceError
  empty_tag : ReferenceError
  empty_repository : ReferenceError

-- `cond` or the error, as `ensure!` has it.
abbrev pub ensure : Bool → ReferenceError → Result Bool ReferenceError
ensure true e = ok true
ensure false e = err e

abbrev pub is_ascii_alphanumeric : ℕ → Bool
is_ascii_alphanumeric c =
    (leb b'0' c && leb c b'9') || (leb b'A' c && leb c b'Z') || (leb b'a' c && leb c b'z')

abbrev pub is_allowed : ℕ → Bool
is_allowed c =
    is_ascii_alphanumeric c
    || (c == b'.')
    || (c == b'-')
    || (c == b'_')
    || (c == b'/')
    || (c == b':')
    || (c == b'@')

unfoldable pub validate_characters : Text → Result Bool ReferenceError
validate_characters [] = ok true
validate_characters (c ∷ input) =
    let rest = validate_characters input in
    if is_allowed c then rest else err ReferenceError.invalid_character

abbrev pub is_registry : Text → Bool
is_registry component = has b'.' component || has b':' component || same_text component localhost

-- The tag after the last colon of the part that may have one; the rest of the name stands before.
unfoldable pub tag_of :
    Text → Text → Option (Text × Text) → Result (Text × Option Text) ReferenceError
tag_of input prefix none = ok (input, none)
tag_of input prefix (some (name, tag)) =
    ensure (not (is_empty tag)) ReferenceError.empty_tag >>= λ _. ok (prefix ++ name, some tag)

unfoldable pub after_slash :
    Text → Option (Text × Text) → Result (Text × Option Text) ReferenceError
after_slash input (some (before, last)) = tag_of input (before ++ b'/' ∷ []) (split_last b':' last)
after_slash input none = tag_of input [] (split_last b':' input)

unfoldable pub split_name_and_tag : Text → Result (Text × Option Text) ReferenceError
split_name_and_tag input = after_slash input (split_last b'/' input)

unfoldable pub name_and_tag_before :
    Text → Option Text → Result (Text × Option Text × Option Text) ReferenceError
name_and_tag_before before_digest digest =
    split_name_and_tag before_digest >>= λ split. ok (split.0, split.1, digest)

unfoldable pub digest_of :
    Text → Option (Text × Text) → Result (Text × Option Text × Option Text) ReferenceError
digest_of input none = name_and_tag_before input none
digest_of input (some (before_digest, digest)) =
    ensure (not (is_empty digest)) ReferenceError.empty_digest >>= λ _.
    name_and_tag_before before_digest (some digest)

unfoldable pub split_reference : Text → Result (Text × Option Text × Option Text) ReferenceError
split_reference input = digest_of input (split_last b'@' input)

unfoldable pub registry_of : Text → Option (Text × Text) → Result (Text × Text) ReferenceError
registry_of name none = ok (default_registry, library ++ b'/' ∷ name)
registry_of name (some (first_component, rest)) =
    if is_registry first_component
    then (ensure (not (is_empty rest)) ReferenceError.empty_repository >>= λ _.
        ok (first_component, rest))
    else ok (default_registry, name)

unfoldable pub split_name : Text → Result (Text × Text) ReferenceError
split_name name = registry_of name (split_first b'/' name)

-- The default tag when there is neither tag nor digest.
unfoldable pub tag_or_default : Option Text → Option Text → Option Text
tag_or_default none none = some default_tag
tag_or_default none (some digest) = none
tag_or_default (some tag) digest = some tag

unfoldable pub parse : Text → Result ImageReference ReferenceError
parse input = ensure (not (is_empty input)) ReferenceError.empty_reference >>= λ _.
    validate_characters input >>= λ _. split_reference input >>= λ parts.
    split_name parts.0 >>= λ names. ok (record {
      registry = names.0;
      repository = names.1;
      tag = tag_or_default parts.1 parts.2;
      digest = parts.2;
    })

-- A component with the sign that introduces it, if it is there.
abbrev pub suffix : ℕ → Option Text → Text
suffix sign none = []
suffix sign (some text) = sign ∷ text

-- `Display`.
unfoldable pub fmt : ImageReference → Text
fmt r = (r.registry ++ b'/' ∷ r.repository) ++ suffix b':' r.tag ++ suffix b'@' r.digest
