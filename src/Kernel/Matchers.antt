-- ===== src/Kernel/Matchers.antt =====
-- The step patterns of crates/cannon/src/kernel.rs.
use cannon_rs.Prelude.{
  ℕ, ◌%◌, ◌==◌, if◌then◌else◌, Bool, true, false, Option, none, some, [], ◌∷◌, Result, ok, err,
  panic, invalid_pattern,
}
use cannon_rs.Vm.{bytes_eq}
use cannon_rs.Kernel.Decimal.{Text, codes, parse_u64}

-- `Matcher`.
pub data Matcher : Type 0 where
  never always : Matcher
  equal multiple_of : ℕ → Matcher

-- `Matcher::matches`. The remainder by zero panics.
unfoldable pub matches : Matcher → ℕ → Result Bool
matches Matcher.never value = ok false
matches Matcher.always value = ok true
matches (Matcher.equal step) value = ok (value == step)
matches (Matcher.multiple_of steps) value = if steps == 0 then panic else ok (value % steps == 0)

-- A parsed number, or the error of the pattern.
unfoldable pub of_number : (ℕ → Matcher) → Option ℕ → Result Matcher
of_number matcher none = err invalid_pattern
of_number matcher (some n) = ok (matcher n)

-- The patterns that start with a sign: `=` (61) and `%` (37).
unfoldable pub create_signed : Text → Result Matcher
unfolding of_number
create_signed [] = err invalid_pattern
create_signed (c ∷ text) =
    if c == 61
    then of_number Matcher.equal (parse_u64 text)
    else if c == 37
    then of_number Matcher.multiple_of (parse_u64 text)
    else err invalid_pattern

-- `create_matcher`.
unfoldable pub create_matcher : Option Text → Result Matcher
unfolding bytes_eq create_signed
create_matcher none = ok Matcher.never
create_matcher (some pattern) =
    if bytes_eq pattern (codes "never")
    then ok Matcher.never
    else if bytes_eq pattern (codes "always")
    then ok Matcher.always
    else create_signed pattern
