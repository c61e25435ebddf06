-- ===== src/Oci/Tests.antt =====
-- Runs of oci/reference.rs.
use visor.Prelude.{◌≡◌, refl, [], ◌∷◌, ◌++◌, none, some, ok, err}
use visor.Prelude.Texts.{Text, split_first, split_last}
use visor.Oci.{
  ImageReference, ReferenceError, parse, fmt, library, default_registry, default_tag,
  validate_characters, split_reference, digest_of, name_and_tag_before, split_name_and_tag,
  after_slash, tag_of, split_name, registry_of, tag_or_default,
}
use visor.Oci.RoundTrip.{parse-fmt}

-- "h:5/a:t@s"
abbrev with_port : Text
with_port = b'h' ∷ b':' ∷ b'5' ∷ b'/' ∷ b'a' ∷ b':' ∷ b't' ∷ b'@' ∷ b's' ∷ []

abbrev with_port_reference : ImageReference
with_port_reference = record {
  registry = b'h' ∷ b':' ∷ b'5' ∷ [];
  repository = b'a' ∷ [];
  tag = some (b't' ∷ []);
  digest = some (b's' ∷ []);
}

-- "a"
abbrev bare_name : Text
bare_name = b'a' ∷ []

with_port_parsed : parse with_port ≡ ok with_port_reference
unfolding parse validate_characters split_reference digest_of name_and_tag_before split_name_and_tag
    after_slash tag_of split_name registry_of tag_or_default split_first split_last
with_port_parsed = refl

bare_name_parsed :
    parse bare_name
    ≡ ok (record {
      registry = default_registry;
      repository = library ++ b'/' ∷ bare_name;
      tag = some default_tag;
      digest = none;
    })
unfolding parse validate_characters split_reference digest_of name_and_tag_before split_name_and_tag
    after_slash tag_of split_name registry_of tag_or_default split_first split_last
bare_name_parsed = refl

-- The name may be empty: the text ":t" is taken.
empty_name_parsed :
    parse (b':' ∷ b't' ∷ [])
    ≡ ok (record {
      registry = default_registry;
      repository = library ++ b'/' ∷ [];
      tag = some (b't' ∷ []);
      digest = none;
    })
unfolding parse validate_characters split_reference digest_of name_and_tag_before split_name_and_tag
    after_slash tag_of split_name registry_of tag_or_default split_first split_last
empty_name_parsed = refl

empty_tag_refused : parse (b'a' ∷ b':' ∷ []) ≡ err ReferenceError.empty_tag
unfolding parse validate_characters split_reference digest_of name_and_tag_before split_name_and_tag
    after_slash tag_of split_name registry_of tag_or_default split_first split_last
empty_tag_refused = refl

parse-fmt_example : parse (fmt with_port_reference) ≡ ok with_port_reference
parse-fmt_example = parse-fmt with_port with_port_reference with_port_parsed
