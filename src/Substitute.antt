-- ===== src/Substitute.antt =====
-- crates/visor-build/src/substitute.rs: variables in the strings of a Dockerfile. A text is the list of its
-- bytes. The source copies a character of several bytes at once; its further bytes are no `$`, so that
-- copying byte by byte is the same. An index that jumps ahead is a number of bytes that are passed over.
-- The position in the error message is left out, and the depth of the braces is below 2 ^ 32.
pub mod Laws
mod Tests
use visor.Prelude.{
  ℕ, zero, suc, ◌+◌, ◌-◌, Bool, ◌&&◌, ◌||◌, [], ◌∷◌, ◌++◌, Option, none, some, Result, ok, err,
  ◌>>=◌, length, leb, ◌==◌, if◌then◌else◌,
}
use visor.Prelude.Texts.{Text, text_discrete, is_empty, kept}
use visor.Prelude.Maps.{Map, get}

pub data SubstituteError : Type 0 where
  unclosed : SubstituteError

abbrev pub is_ascii_alphabetic : ℕ → Bool
is_ascii_alphabetic b = (leb b'A' b && leb b b'Z') || (leb b'a' b && leb b b'z')

abbrev pub is_var_start : ℕ → Bool
is_var_start b = is_ascii_alphabetic b || b == b'_'

abbrev pub is_var_char : ℕ → Bool
is_var_char b = is_ascii_alphabetic b || (leb b'0' b && leb b b'9') || b == b'_'

-- The bytes of the name that a text begins with: `input[start..var_name_end(input, start)]`.
unfoldable pub var_name : Text → Text
var_name [] = []
var_name (b ∷ text) = let rest = var_name text in if is_var_char b then b ∷ rest else []

-- The text up to the matching brace, and the text behind it.
unfoldable pub find_closing_brace : ℕ → Text → Option (Text × Text)
find_closing_brace depth [] = none
find_closing_brace depth (b ∷ text) =
    let deeper = kept b (find_closing_brace (depth + 1) text) in
    let closed = kept b (find_closing_brace (depth - 1) text) in
    let same = kept b (find_closing_brace depth text) in
    if b == b'{'
    then deeper
    else (if b == b'}' then (if depth - 1 == 0 then some ([], text) else closed) else same)

-- `find` of a text of two bytes, with the slices before and behind it.
unfoldable pub split_pair : ℕ → ℕ → Text → Option (Text × Text)
split_pair c d [] = none
split_pair c d (a ∷ []) = none
split_pair c d (a ∷ b ∷ text) =
    let later = kept a (split_pair c d (b ∷ text)) in
    if (a == c) && (b == d) then some ([], text) else later

abbrev pub Vars : Type 0
Vars = Map Text Text

unfoldable pub lookup : Vars → Text → Option Text
lookup vars name = get text_discrete name vars

abbrev pub value_or_nothing : Option Text → Text
value_or_nothing none = []
value_or_nothing (some val) = val

unfoldable pub with_default : Text → Option Text → Text
with_default default none = default
with_default default (some val) = if is_empty val then default else val

unfoldable pub with_alternative : Text → Option Text → Text
with_alternative alt none = []
with_alternative alt (some val) = if is_empty val then [] else alt

unfoldable pub expand_plain : Vars → Text → Option (Text × Text) → Text
expand_plain vars inner none = value_or_nothing (lookup vars inner)
expand_plain vars inner (some (name, alt)) = with_alternative alt (lookup vars name)

unfoldable pub expand_default : Vars → Text → Option (Text × Text) → Text
expand_default vars inner none = expand_plain vars inner (split_pair b':' b'+' inner)
expand_default vars inner (some (name, default)) = with_default default (lookup vars name)

-- What a braced expression adds to the output.
unfoldable pub expand_braced : Vars → Text → Text
expand_braced vars inner = expand_default vars inner (split_pair b':' b'-' inner)

-- The output at a braced expression, and how many bytes behind the `$` it takes.
unfoldable pub braced : Vars → Option (Text × Text) → Result (Text × ℕ) SubstituteError
braced vars none = err SubstituteError.unclosed
braced vars (some (inner, behind)) = ok (expand_braced vars inner, length inner + 2)

-- The output at a `$`, by what follows, and how many bytes behind the `$` it takes.
unfoldable pub at_dollar : Vars → Text → Result (Text × ℕ) SubstituteError
at_dollar vars [] = ok (b'$' ∷ [], 0)
at_dollar vars (b ∷ text) =
    if b == b'$'
    then ok (b'$' ∷ [], 1)
    else (if b == b'{'
        then braced vars (find_closing_brace 1 text)
        else (if is_var_start b
            then (let name = var_name (b ∷ text) in
                ok (value_or_nothing (lookup vars name), length name))
            else ok (b'$' ∷ [], 0)))

unfoldable pub at_byte : Vars → ℕ → Text → Result (Text × ℕ) SubstituteError
at_byte vars b text = if b == b'$' then at_dollar vars text else ok (b ∷ [], 0)

-- The loop: the number of bytes to pass over before the next step.
unfoldable pub substitute_from : Vars → ℕ → Text → Result Text SubstituteError
substitute_from vars skip [] = ok []
substitute_from vars (suc skip) (b ∷ text) = substitute_from vars skip text
substitute_from vars zero (b ∷ text) =
    at_byte vars b text >>= λ step. substitute_from vars step.1 text >>= λ rest. ok (step.0 ++ rest)

unfoldable pub substitute_vars : Text → Vars → Result Text SubstituteError
substitute_vars input vars = substitute_from vars 0 input
