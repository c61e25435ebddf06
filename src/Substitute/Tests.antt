-- ===== src/Substitute/Tests.antt =====
-- Runs of substitute.rs.
use visor.Prelude.{◌≡◌, refl, [], ◌∷◌, if◌then◌else◌, ok, arith}
use native.Mathlib.Decide.{ℕ_discrete}
use visor.Prelude.Texts.{text_discrete}
use visor.Prelude.Maps.{get}
use visor.Substitute.{
  Vars, substitute_vars, substitute_from, at_byte, at_dollar, braced, find_closing_brace,
  expand_braced, expand_default, with_default, split_pair, lookup, var_name, value_or_nothing,
}
use visor.Substitute.Laws.{before, is_set, substitute_vars-forms}

-- "X" is "v".
abbrev one_var : Vars
one_var = (b'X' ∷ [], b'v' ∷ []) ∷ []

-- "$X/"
name_before_slash : substitute_vars (b'$' ∷ b'X' ∷ b'/' ∷ []) one_var ≡ ok (b'v' ∷ b'/' ∷ [])
unfolding substitute_vars substitute_from at_byte at_dollar var_name lookup get text_discrete
    ℕ_discrete
name_before_slash = refl

-- The alternative of "${X:+a:-b}" is read as a default of the variable "X:+a".
default_in_alternative :
    substitute_vars
      (b'$' ∷ b'{' ∷ b'X' ∷ b':' ∷ b'+' ∷ b'a' ∷ b':' ∷ b'-' ∷ b'b' ∷ b'}' ∷ [])
      one_var
    ≡ ok (b'b' ∷ [])
unfolding substitute_vars substitute_from at_byte at_dollar braced find_closing_brace expand_braced
    expand_default with_default split_pair lookup get text_discrete ℕ_discrete
default_in_alternative = refl

substitute_vars-forms_example :
    (substitute_vars (b'$' ∷ b'{' ∷ b'X' ∷ b'}' ∷ b'/' ∷ []) one_var
      ≡ before
          (value_or_nothing (lookup one_var (b'X' ∷ [])))
          (substitute_vars (b'/' ∷ []) one_var))
    × (substitute_vars (b'$' ∷ b'{' ∷ b'X' ∷ b':' ∷ b'-' ∷ b'd' ∷ b'}' ∷ b'/' ∷ []) one_var
        ≡ before
            (if is_set (lookup one_var (b'X' ∷ []))
              then value_or_nothing (lookup one_var (b'X' ∷ []))
              else b'd' ∷ [])
            (substitute_vars (b'/' ∷ []) one_var))
    × (substitute_vars (b'$' ∷ b'{' ∷ b'X' ∷ b':' ∷ b'+' ∷ b'd' ∷ b'}' ∷ b'/' ∷ []) one_var
        ≡ before
            (if is_set (lookup one_var (b'X' ∷ [])) then b'd' ∷ [] else [])
            (substitute_vars (b'/' ∷ []) one_var))
substitute_vars-forms_example =
    substitute_vars-forms (b'X' ∷ []) (b'd' ∷ []) (b'/' ∷ []) one_var (ground arith)
      (ground arith, ground arith, ground arith)
