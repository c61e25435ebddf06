-- ===== src/Oci/RoundTrip.antt =====
-- Parsing what `Display` of oci/reference.rs prints.
use visor.Prelude.{
  ℕ, ◌≡◌, ◌≢◌, subst, inl, inr, refl, sym, ap, Bool, true, false, not, [], ◌∷◌, ◌++◌, Option, none,
  some, Result, ok, err, ◌>>=◌, All, arith,
}
use visor.Prelude.Texts.{
  Text, is_empty, Lacks, split_last, split_last-at, split_last-Lacks, split_last-LastAt, LastAt,
}
use visor.Oci.{
  ImageReference, ReferenceError, ensure, is_allowed, default_registry, default_tag, library,
  split_name_and_tag, split_name, suffix, validate_characters, split_reference, digest_of,
  name_and_tag_before, tag_or_default, parse, fmt,
}
use visor.Oci.Canonical.{
  All-append, All-left, All-right, Splits, split_name_and_tag-Splits, split_name_and_tag-tag,
  split_name_and_tag-untagged, Completes, Named, split_name-Named, is_empty-append,
}

-- What holds of the value, if there is one.
abbrev pub OnOk : {A : Type 0} → (A → Type 0) → Result A ReferenceError → Type 0
OnOk P (ok a) = P a
OnOk P (err e) = Unit

bind-OnOk :
    {A B : Type 0} (P : B → Type 0) (m : Result A ReferenceError) (f : A → Result B ReferenceError)
    → ((a : A) → m ≡ ok a → OnOk P (f a))
    → OnOk P (m >>= f)
bind-OnOk P (ok a) f h = h a refl
bind-OnOk P (err e) f h = tt

abbrev IsAllowed : ℕ → Type 0
IsAllowed c = is_allowed c ≡ true

validate-All : (input : Text) (v : Bool) → validate_characters input ≡ ok v → All IsAllowed input
unfolding validate_characters
validate-All [] v h = tt
validate-All (c ∷ input) v h =
    ground (arith, λ (g : validate_characters input ≡ ok v). validate-All input v g)

All-validate : (input : Text) → All IsAllowed input → validate_characters input ≡ ok true
unfolding validate_characters
All-validate [] h = refl
All-validate (c ∷ input) (hc, h) = rw hc (All-validate input h)

-- The digest has a byte and no `@`; without one there is no `@` at all.
abbrev IsDigest : Option Text → Text → Type 0
IsDigest none before = Lacks b'@' before
IsDigest (some digest) before = (is_empty digest ≡ false) × Lacks b'@' digest

-- What the split of a reference says.
abbrev Referenced : Text → Text × Option Text × Option Text → Type 0
Referenced input (name, tag, digest) =
    (before : Text) × (input ≡ before ++ suffix b'@' digest)
    × IsDigest digest before
    × (split_name_and_tag before ≡ ok (name, tag))

append-nil : (text : Text) → text ++ [] ≡ text
append-nil [] = refl
append-nil (c ∷ text) = ap (◌∷◌ c) (append-nil text)

before-Referenced :
    (input before : Text) (digest : Option Text)
    → input ≡ before ++ suffix b'@' digest
    → IsDigest digest before
    → OnOk (Referenced input) (name_and_tag_before before digest)
unfolding name_and_tag_before
before-Referenced input before digest e is =
    bind-OnOk (Referenced input) (split_name_and_tag before) _ (λ split h. (before, e, is, h))

digest_of-Referenced :
    (input : Text) (split : Option (Text × Text))
    → LastAt b'@' input split
    → OnOk (Referenced input) (digest_of input split)
unfolding digest_of
digest_of-Referenced input none lacks =
    before-Referenced input input none (sym (append-nil input)) lacks
digest_of-Referenced input (some (before, [])) at = tt
digest_of-Referenced input (some (before, c ∷ digest)) (lacks, e) =
    before-Referenced input before (some (c ∷ digest)) e (refl, lacks)

split_reference-Referenced : (input : Text) → OnOk (Referenced input) (split_reference input)
unfolding split_reference
split_reference-Referenced input =
    digest_of-Referenced input (split_last b'@' input) (split_last-LastAt b'@' input)

-- A reference that is put together in this way splits into its parts.
split_reference-again :
    (before name : Text) (tag digest : Option Text)
    → IsDigest digest before
    → split_name_and_tag before ≡ ok (name, tag)
    → split_reference (before ++ suffix b'@' digest) ≡ ok (name, tag, digest)
unfolding split_reference digest_of name_and_tag_before
split_reference-again before name tag none lacks h =
    rw (append-nil before, split_last-Lacks b'@' before lacks, h) refl
split_reference-again before name tag (some digest) (some_byte, lacks) h =
    rw (split_last-at b'@' before digest lacks, some_byte, h) refl

-- Bytes of a kind that takes those of the completions.
completed-All :
    (P : ℕ → Type 0) (name full : Text)
    → All P ((default_registry ++ b'/' ∷ library) ++ b'/' ∷ [])
    → Completes name full
    → All P name
    → All P full
completed-All P name full consts (inl same) h = rw same h
completed-All P name full consts (inr (inl user)) h = rw user (
    All-append P (default_registry ++ b'/' ∷ []) name
      (All-left P (default_registry ++ b'/' ∷ []) (library ++ b'/' ∷ []) consts) h)
completed-All P name full consts (inr (inr official)) h =
    rw official (All-append P ((default_registry ++ b'/' ∷ library) ++ b'/' ∷ []) name consts h)

completed-untagged :
    (name full : Text)
    → Completes name full
    → split_name_and_tag name ≡ ok (name, none)
    → split_name_and_tag full ≡ ok (full, none)
completed-untagged name full (inl same) h = rw same h
completed-untagged name full (inr (inl user)) h =
    rw user (split_name_and_tag-untagged default_registry name h)
completed-untagged name full (inr (inr official)) h =
    rw official (split_name_and_tag-untagged (default_registry ++ b'/' ∷ library) name h)

-- The name and the tag after completion split as before, and their bytes are of the kinds of the input's.
retagged :
    (before name full : Text) (tag digest : Option Text)
    → Completes name full
    → split_name_and_tag before ≡ ok (name, tag)
    → (split_name_and_tag (full ++ suffix b':' (tag_or_default tag digest))
        ≡ ok (full, tag_or_default tag digest))
unfolding tag_or_default
retagged before name full none none built h =
    split_name_and_tag-tag full default_tag (refl, ground arith, ground arith)
retagged before name full none (some digest) built h =
    let same : before ≡ name = subst (Splits before) h (split_name_and_tag-Splits before) in
    rw (append-nil full) (completed-untagged name full built (rw same at h))
retagged before name full (some tag) digest built h =
    let (e, is) = subst (Splits before) h (split_name_and_tag-Splits before) in
    split_name_and_tag-tag full tag is

kinds :
    (P : ℕ → Type 0) (before name full : Text) (tag digest : Option Text)
    → All P ((default_registry ++ b'/' ∷ library) ++ b'/' ∷ [])
    → All P (b':' ∷ default_tag)
    → Completes name full
    → split_name_and_tag before ≡ ok (name, tag)
    → All P before
    → All P (full ++ suffix b':' (tag_or_default tag digest))
unfolding tag_or_default
kinds P before name full none none consts latest built h all =
    let same : before ≡ name = subst (Splits before) h (split_name_and_tag-Splits before) in
    All-append P full (b':' ∷ default_tag)
      (completed-All P name full consts built (subst (All P) same all)) latest
kinds P before name full none (some digest) consts latest built h all =
    let same : before ≡ name = subst (Splits before) h (split_name_and_tag-Splits before) in
    All-append P full [] (completed-All P name full consts built (subst (All P) same all)) tt
kinds P before name full (some tag) digest consts latest built h all =
    let (e, is) = subst (Splits before) h (split_name_and_tag-Splits before) in
    let parts = subst (All P) e all in
    All-append P full (b':' ∷ tag)
      (completed-All P name full consts built (All-left P name (b':' ∷ tag) parts))
      (All-right P name (b':' ∷ tag) parts)

-- What is parsed from the printed reference.
abbrev Again : ImageReference → Type 0
Again r = parse (fmt r) ≡ ok r

filled : (xs ys : Text) → is_empty xs ≡ false → is_empty (xs ++ ys) ≡ false
filled [] ys h = absurd (ground (arith, h))
filled (x ∷ xs) ys h = refl

parsed-Again :
    (registry repository : Text) (tag digest : Option Text)
    → split_name (registry ++ b'/' ∷ repository) ≡ ok (registry, repository)
    → split_name_and_tag ((registry ++ b'/' ∷ repository) ++ suffix b':' tag)
      ≡ ok (registry ++ b'/' ∷ repository, tag)
    → IsDigest digest ((registry ++ b'/' ∷ repository) ++ suffix b':' tag)
    → tag_or_default tag digest ≡ tag
    → All IsAllowed (((registry ++ b'/' ∷ repository) ++ suffix b':' tag) ++ suffix b'@' digest)
    → Again (record { registry = registry; repository = repository; tag = tag; digest = digest })
unfolding parse fmt
parsed-Again registry repository tag digest named split is same allowed =
    let full = registry ++ b'/' ∷ repository in
    let body = full ++ suffix b':' tag in
    let some_byte : is_empty (body ++ suffix b'@' digest) ≡ false =
      filled body (suffix b'@' digest)
        (filled full (suffix b':' tag) (is_empty-append registry repository b'/')) in
    let valid = All-validate (body ++ suffix b'@' digest) allowed in
    rw (some_byte, valid, split_reference-again body full tag digest is split, named, same) refl

IsDigest-IsDigest :
    (before name full : Text) (tag digest : Option Text)
    → Completes name full
    → split_name_and_tag before ≡ ok (name, tag)
    → IsDigest digest before
    → IsDigest digest (full ++ suffix b':' (tag_or_default tag digest))
IsDigest-IsDigest before name full tag none built h lacks =
    kinds (λ c. c ≢ b'@') before name full tag none (ground arith) (ground arith) built h lacks
IsDigest-IsDigest before name full tag (some digest) built h is = is

digest-IsAllowed :
    (before body : Text) (digest : Option Text)
    → All IsAllowed (before ++ suffix b'@' digest)
    → All IsAllowed body
    → All IsAllowed (body ++ suffix b'@' digest)
digest-IsAllowed before body digest h hb =
    All-append IsAllowed body (suffix b'@' digest) hb
      (All-right IsAllowed before (suffix b'@' digest) h)

default_twice :
    (tag digest : Option Text)
    → tag_or_default (tag_or_default tag digest) digest ≡ tag_or_default tag digest
unfolding tag_or_default
default_twice none none = refl
default_twice none (some digest) = refl
default_twice (some tag) digest = refl

reference-Again :
    (input : Text) (parts : Text × Option Text × Option Text) (names : Text × Text)
    → All IsAllowed input
    → Referenced input parts
    → Named parts.0 (ok names)
    → Again (record {
      registry = names.0;
      repository = names.1;
      tag = tag_or_default parts.1 parts.2;
      digest = parts.2;
    })
reference-Again input (name, tag, digest) (registry, repository) allowed (before, e, is, split)
      (again, built) =
    let full = registry ++ b'/' ∷ repository in
    let body = full ++ suffix b':' (tag_or_default tag digest) in
    let before_allowed =
      All-left IsAllowed before (suffix b'@' digest) (subst (All IsAllowed) e allowed) in
    let body_allowed =
      kinds IsAllowed before name full tag digest (ground arith) (ground arith) built split
        before_allowed in
    parsed-Again registry repository (tag_or_default tag digest) digest again
      (retagged before name full tag digest built split)
      (IsDigest-IsDigest before name full tag digest built split is) (default_twice tag digest)
      (digest-IsAllowed before body digest (subst (All IsAllowed) e allowed) body_allowed)

-- Printing is a normal form: whatever text is parsed, the text that its reference prints parses to the same
-- reference.
pub parse-fmt : (input : Text) (r : ImageReference) → parse input ≡ ok r → parse (fmt r) ≡ ok r
unfolding parse
parse-fmt input r h = subst (OnOk Again) h (
    bind-OnOk Again (ensure (not (is_empty input)) ReferenceError.empty_reference) _ (λ v some_byte.
      bind-OnOk Again (validate_characters input) _ (λ w valid.
        bind-OnOk Again (split_reference input) _ (λ parts split.
          bind-OnOk Again (split_name parts.0) _ (λ names named.
            reference-Again input parts names (validate-All input w valid)
              (subst (OnOk (Referenced input)) split (split_reference-Referenced input))
              (subst (Named parts.0) named (split_name-Named parts.0)))))))
