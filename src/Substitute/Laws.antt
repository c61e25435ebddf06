-- ===== src/Substitute/Laws.antt =====
-- What substitute.rs makes of texts of a known shape.
use visor.Prelude.{
  ℕ, ◌+◌, ◌≡◌, ◌≢◌, refl, sym, ap, ◌∙◌, Bool, true, false, not, Option, [], ◌∷◌, ◌++◌, none, some,
  Result, ok, err, ◌>>=◌, length, length-append, All, arith, ◌==◌, if◌then◌else◌, append_assoc,
}
use visor.Prelude.Texts.{Text, is_empty, Lacks}
use visor.Substitute.{
  SubstituteError, Vars, lookup, value_or_nothing, with_default, with_alternative, is_var_start,
  is_var_char, var_name, find_closing_brace, split_pair, expand_plain, expand_default,
  expand_braced, braced, at_dollar, at_byte, substitute_from, substitute_vars,
}

-- Every `$` twice.
abbrev pub escape : Text → Text
escape [] = []
escape (b ∷ text) = if b == b'$' then b'$' ∷ b'$' ∷ escape text else b ∷ escape text

-- Every text can be written so that substitution gives it, whatever the variables: with `$$` for `$`.
pub substitute_vars-escape :
    (text : Text) (vars : Vars) → substitute_vars (escape text) vars ≡ ok text
unfolding substitute_vars substitute_from at_byte at_dollar
substitute_vars-escape [] vars = refl
substitute_vars-escape (b ∷ text) vars = ground (arith, substitute_vars-escape text vars)

-- What is put before the rest of the output.
abbrev pub before : Text → Result Text SubstituteError → Result Text SubstituteError
before out (ok rest) = ok (out ++ rest)
before out (err e) = err e

passed_over :
    (vars : Vars) (text rest : Text)
    → substitute_from vars (length text) (text ++ rest) ≡ substitute_from vars 0 rest
unfolding substitute_from
passed_over vars [] rest = refl
passed_over vars (b ∷ text) rest = passed_over vars text rest

bind_before :
    (out : Text) (r : Result Text SubstituteError) → (r >>= λ rest. ok (out ++ rest)) ≡ before out r
bind_before out (ok rest) = refl
bind_before out (err e) = refl

abbrev pub IsName : Text → Type 0
IsName name = All (λ b. is_var_char b ≡ true) name

abbrev pub Ends : Text → Type 0
Ends [] = Unit
Ends (b ∷ text) = is_var_char b ≡ false

var_name_lem : (name rest : Text) → IsName name → Ends rest → var_name (name ++ rest) ≡ name
unfolding var_name
var_name_lem [] [] h e = refl
var_name_lem [] (b ∷ rest) h e = rw e refl
var_name_lem (b ∷ name) rest (hb, h) e = rw (hb, var_name_lem name rest h e) refl

-- A text without braces is closed by the first brace behind it.
closed_at :
    (inner rest : Text)
    → Lacks b'{' inner
    → Lacks b'}' inner
    → find_closing_brace 1 (inner ++ b'}' ∷ rest) ≡ some (inner, rest)
unfolding find_closing_brace
closed_at [] rest o c = refl
closed_at (b ∷ inner) rest (ob, o) (cb, c) = ground (arith, closed_at inner rest o c)

never_closed : (depth : ℕ) (inner : Text) → Lacks b'}' inner → find_closing_brace depth inner ≡ none
unfolding find_closing_brace
never_closed depth [] c = refl
never_closed depth (b ∷ inner) (cb, c) =
    ground (arith, never_closed (depth + 1) inner c, never_closed depth inner c)

passed_brace :
    (vars : Vars) (inner rest : Text)
    → substitute_from vars (length inner + 2) (b'{' ∷ inner ++ b'}' ∷ rest)
      ≡ substitute_from vars 0 rest
passed_brace vars inner rest =
    let whole = b'{' ∷ inner ++ b'}' ∷ [] in
    let count : length inner + 2 ≡ length whole = omega (arith, length-append inner (b'}' ∷ [])) in
    let text : b'{' ∷ inner ++ b'}' ∷ rest ≡ whole ++ rest =
      ap (◌∷◌ b'{') (sym (append_assoc inner (b'}' ∷ []) rest)) in
    rw (count, text) (passed_over vars whole rest)

-- A braced expression gives its expansion before the rest.
substitute_vars-braced :
    (inner rest : Text) (vars : Vars)
    → Lacks b'{' inner
    → Lacks b'}' inner
    → substitute_vars (b'$' ∷ b'{' ∷ inner ++ b'}' ∷ rest) vars
      ≡ before (expand_braced vars inner) (substitute_vars rest vars)
unfolding substitute_vars substitute_from at_byte at_dollar braced
substitute_vars-braced inner rest vars o c =
    rw (closed_at inner rest o c, passed_brace vars inner rest)
      (bind_before (expand_braced vars inner) (substitute_from vars 0 rest))

-- A name ends where a byte follows that cannot go on with it; the variable gives its value there, and
-- nothing when it is not set.
substitute_vars-name :
    (first : ℕ) (name rest : Text) (vars : Vars)
    → is_var_start first ≡ true
    → IsName (first ∷ name)
    → Ends rest
    → substitute_vars (b'$' ∷ first ∷ name ++ rest) vars
      ≡ before (value_or_nothing (lookup vars (first ∷ name))) (substitute_vars rest vars)
unfolding substitute_vars substitute_from at_byte at_dollar
substitute_vars-name first name rest vars start h e =
    let dollar : (first == b'$') ≡ false = ground (arith, start) in
    let brace : (first == b'{') ≡ false = ground (arith, start) in
    rw
      (
        dollar,
        brace,
        start,
        var_name_lem (first ∷ name) rest h e,
        passed_over vars (first ∷ name) rest,
      )
      (bind_before (value_or_nothing (lookup vars (first ∷ name))) (substitute_from vars 0 rest))

pair_at :
    (c d : ℕ) (name text : Text)
    → Lacks c name
    → split_pair c d (name ++ c ∷ d ∷ text) ≡ some (name, text)
unfolding split_pair
pair_at c d [] text h = ground arith
pair_at c d (a ∷ []) text (ha, h) = ground (arith, pair_at c d [] text tt)
pair_at c d (a ∷ b ∷ name) text (ha, h) = ground (arith, pair_at c d (b ∷ name) text h)

no_pair : (c d : ℕ) (text : Text) → Lacks c text → split_pair c d text ≡ none
unfolding split_pair
no_pair c d [] h = refl
no_pair c d (a ∷ []) h = refl
no_pair c d (a ∷ b ∷ text) (ha, h) = ground (arith, no_pair c d (b ∷ text) h)

other_pair :
    (c d e : ℕ) (name text : Text)
    → d ≢ e
    → Lacks c name
    → Lacks c (e ∷ text)
    → split_pair c d (name ++ c ∷ e ∷ text) ≡ none
unfolding split_pair
other_pair c d e [] text other h later = ground (arith, no_pair c d (e ∷ text) later)
other_pair c d e (a ∷ []) text other (ha, h) later =
    ground (arith, other_pair c d e [] text other tt later)
other_pair c d e (a ∷ b ∷ name) text other (ha, h) later =
    ground (arith, other_pair c d e (b ∷ name) text other h later)

-- A name has none of the signs of a braced expression.
name-Lacks : (sign : ℕ) (name : Text) → is_var_char sign ≡ false → IsName name → Lacks sign name
name-Lacks sign [] s h = tt
name-Lacks sign (b ∷ name) s (hb, h) =
    (λ (e : b ≡ sign). ground (arith, s, hb, e), name-Lacks sign name s h)

-- The text of a default or an alternative has no brace and no colon.
abbrev pub IsPlain : Text → Type 0
IsPlain text = Lacks b'{' text × Lacks b'}' text × Lacks b':' text

Lacks-form :
    (sign kind : ℕ) (name text : Text)
    → is_var_char sign ≡ false
    → sign ≢ b':'
    → kind ≢ sign
    → IsName name
    → Lacks sign text
    → Lacks sign (name ++ b':' ∷ kind ∷ text)
Lacks-form sign kind [] text s colon k h l = (λ (e : b':' ≡ sign). colon (sym e), (k, l))
Lacks-form sign kind (b ∷ name) text s colon k (hb, h) l =
    (λ (e : b ≡ sign). ground (arith, s, hb, e), Lacks-form sign kind name text s colon k h l)

-- Whether a variable has a value that is not empty.
abbrev pub is_set : Option Text → Bool
is_set none = false
is_set (some val) = not (is_empty val)

default-is_set :
    (text : Text) (o : Option Text)
    → with_default text o ≡ (if is_set o then value_or_nothing o else text)
unfolding with_default
default-is_set text none = refl
default-is_set text (some val) = ground arith

alternative-is_set :
    (text : Text) (o : Option Text) → with_alternative text o ≡ (if is_set o then text else [])
unfolding with_alternative
alternative-is_set text none = refl
alternative-is_set text (some val) = ground arith

-- The three braced forms of a variable: `${name}` gives its value, `${name:-text}` its value or the text if
-- it is unset or empty, and `${name:+text}` the text if it is set and not empty. The name has the bytes of
-- names, and the text no brace and no colon.
pub substitute_vars-forms :
    (name text rest : Text) (vars : Vars)
    → IsName name
    → IsPlain text
    → (substitute_vars (b'$' ∷ b'{' ∷ name ++ b'}' ∷ rest) vars
        ≡ before (value_or_nothing (lookup vars name)) (substitute_vars rest vars))
      × (substitute_vars (b'$' ∷ b'{' ∷ (name ++ b':' ∷ b'-' ∷ text) ++ b'}' ∷ rest) vars
          ≡ before
              (if is_set (lookup vars name) then value_or_nothing (lookup vars name) else text)
              (substitute_vars rest vars))
      × (substitute_vars (b'$' ∷ b'{' ∷ (name ++ b':' ∷ b'+' ∷ text) ++ b'}' ∷ rest) vars
          ≡ before (if is_set (lookup vars name) then text else []) (substitute_vars rest vars))
unfolding expand_braced expand_default expand_plain
substitute_vars-forms name text rest vars h (o, c, colons) =
    let no_colon = name-Lacks b':' name refl h in
    let out = λ (inner : Text) (po : Lacks b'{' inner) (pc : Lacks b'}' inner).
      substitute_vars-braced inner rest vars po pc in
    (
      rw (no_pair b':' b'-' name no_colon, no_pair b':' b'+' name no_colon) at
          (out name (name-Lacks b'{' name refl h) (name-Lacks b'}' name refl h)),
      rw (pair_at b':' b'-' name text no_colon, default-is_set text (lookup vars name)) at
          (out (name ++ b':' ∷ b'-' ∷ text)
            (Lacks-form b'{' b'-' name text refl (ground arith) (ground arith) h o)
            (Lacks-form b'}' b'-' name text refl (ground arith) (ground arith) h c)),
      rw
          (
            other_pair b':' b'-' b'+' name text (ground arith) no_colon (ground arith, colons),
            pair_at b':' b'+' name text no_colon,
            alternative-is_set text (lookup vars name),
          )
          at
          (out (name ++ b':' ∷ b'+' ∷ text)
            (Lacks-form b'{' b'+' name text refl (ground arith) (ground arith) h o)
            (Lacks-form b'}' b'+' name text refl (ground arith) (ground arith) h c)),
    )

-- A name behind a `$` is the same as the name in braces, where the name ends: before a byte that is not of
-- a name, or at the end.
pub substitute_vars-braces_optional :
    (first : ℕ) (name rest : Text) (vars : Vars)
    → is_var_start first ≡ true
    → IsName (first ∷ name)
    → Ends rest
    → substitute_vars (b'$' ∷ first ∷ name ++ rest) vars
      ≡ substitute_vars (b'$' ∷ b'{' ∷ (first ∷ name) ++ b'}' ∷ rest) vars
substitute_vars-braces_optional first name rest vars start h e =
    let forms = substitute_vars-forms (first ∷ name) [] rest vars h (tt, tt, tt) in
    substitute_vars-name first name rest vars start h e ∙ sym forms.0

before_nil : (r : Result Text SubstituteError) → r ≡ before [] r
before_nil (ok rest) = refl
before_nil (err e) = refl

before_cons :
    (b : ℕ) (front : Text) (r : Result Text SubstituteError)
    → (before front r >>= λ rest. ok (b ∷ rest)) ≡ before (b ∷ front) r
before_cons b front (ok rest) = refl
before_cons b front (err e) = refl

-- Text without `$` is copied.
copied :
    (front rest : Text) (vars : Vars)
    → Lacks b'$' front
    → substitute_vars (front ++ rest) vars ≡ before front (substitute_vars rest vars)
unfolding substitute_vars substitute_from at_byte
copied [] rest vars h = before_nil (substitute_from vars 0 rest)
copied (b ∷ front) rest vars (hb, h) =
    let other : (b == b'$') ≡ false = ground (arith, hb) in
    rw (other, copied front rest vars h) (before_cons b front (substitute_from vars 0 rest))

unclosed_here :
    (inner : Text) (vars : Vars)
    → Lacks b'}' inner
    → substitute_vars (b'$' ∷ b'{' ∷ inner) vars ≡ err SubstituteError.unclosed
unfolding at_dollar braced at_byte substitute_vars substitute_from
unclosed_here inner vars c = rw (never_closed 1 inner c) refl

-- A brace that is not closed is an error, whatever stands before it without a `$`.
pub substitute_vars-unclosed :
    (front inner : Text) (vars : Vars)
    → Lacks b'$' front
    → Lacks b'}' inner
    → substitute_vars (front ++ b'$' ∷ b'{' ∷ inner) vars ≡ err SubstituteError.unclosed
substitute_vars-unclosed front inner vars h c =
    copied front (b'$' ∷ b'{' ∷ inner) vars h ∙ ap (before front) (unclosed_here inner vars c)
