-- ===== src/Kernel/Decimal.antt =====
-- Texts as the lists of their bytes, with the decimal form of a u64 that `format!` writes and
-- `parse::<u64>` reads, for crates/cannon/src/kernel.rs.
use cannon_rs.Prelude.{
  ℕ, zero, suc, ◌+◌, ◌-◌, ◌*◌, ◌/◌, ◌%◌, ◌^◌, ◌<◌, ◌≤◌, ◌≡◌, refl, ◌∙◌, ltb, leb, ◌==◌, ◌&&◌,
  if◌then◌else◌, Option, none, some, List, [], ◌∷◌, ◌++◌, get_or, arith,
}
use Prim.Native.Char.{code}
use Prim.Native.String.{String}

abbrev pub Text : Type 0
Text = List ℕ

abbrev pub codes : String → Text
codes String.[] = []
codes (String.◌∷◌ c s) = code c ∷ codes s

-- The digits of a number in front of a text; 20 rounds are enough for a u64.
unfoldable pub write_digits : ℕ → ℕ → Text → Text
write_digits zero n text = text
write_digits (suc fuel) n text =
    let digit = 48 + n % 10 in
    let more = write_digits fuel (n / 10) (digit ∷ text) in
    if n / 10 == 0 then digit ∷ text else more

unfoldable pub decimal : ℕ → Text
decimal n = write_digits 20 n []

-- The digits of a number whose digits so far are `n`.
unfoldable pub parse_digits : ℕ → Text → Option ℕ
parse_digits n [] = some n
parse_digits n (c ∷ text) =
    let next = n * 10 + (c - 48) in
    let rest = parse_digits next text in
    if (leb 48 c && leb c 57) && ltb next (2 ^ 64) then rest else none

-- `text.parse::<u64>()`: digits, perhaps after a plus sign.
unfoldable pub parse_u64 : Text → Option ℕ
unfolding parse_digits
parse_u64 [] = none
parse_u64 (c ∷ []) = parse_digits 0 (c ∷ [])
parse_u64 (c ∷ d ∷ text) =
    if c == 43 then parse_digits 0 (d ∷ text) else parse_digits 0 (c ∷ d ∷ text)

-- `format.replace("%d", &format!("{}", step))`.
unfoldable pub replace_step : Text → ℕ → Text
replace_step [] step = []
replace_step (c ∷ []) step = c ∷ []
replace_step (c ∷ d ∷ text) step =
    let after = replace_step text step in
    let kept = replace_step (d ∷ text) step in
    if (c == 37) && (d == 100) then decimal step ++ after else c ∷ kept

parse-write_digits :
    (fuel n : ℕ) (text : Text)
    → n < 10 ^ suc fuel
    → n < 2 ^ 64
    → parse_digits 0 (write_digits (suc fuel) n text) ≡ parse_digits n text
unfolding parse_digits write_digits
parse-write_digits zero n text h fits = ground (arith)
parse-write_digits (suc fuel) n text h fits =
    ground
      (arith, parse-write_digits fuel (n / 10) ((48 + n % 10) ∷ text) (omega arith) (omega arith))

starts_with_digit :
    (fuel n : ℕ) (text : Text) → 48 ≤ get_or text 0 0 → 48 ≤ get_or (write_digits fuel n text) 0 0
unfolding write_digits
starts_with_digit zero n text h = h
starts_with_digit (suc fuel) n text h =
    ground (arith, starts_with_digit fuel (n / 10) ((48 + n % 10) ∷ text) (omega arith))

decimal_digit : (n : ℕ) → 48 ≤ get_or (decimal n) 0 0
unfolding decimal write_digits
decimal_digit n = ground (arith, starts_with_digit 19 (n / 10) ((48 + n % 10) ∷ []) (omega arith))

no_sign : (text : Text) → 48 ≤ get_or text 0 0 → parse_u64 text ≡ parse_digits 0 text
unfolding parse_u64
no_sign [] h = ground (arith, h)
no_sign (c ∷ []) h = refl
no_sign (c ∷ d ∷ text) h = ground arith

pub parse-decimal : (n : ℕ) → n < 2 ^ 64 → parse_u64 (decimal n) ≡ some n
unfolding parse_digits
parse-decimal n fits =
    no_sign (decimal n) (decimal_digit n)
    ∙ unfold decimal in parse-write_digits 19 n [] (omega arith) fits
