-- ===== src/Kernel/Patterns.antt =====
-- What the patterns of crates/cannon/src/kernel.rs mean.
use cannon_rs.Prelude.{
  ℕ, ◌%◌, ◌^◌, ◌<◌, ◌≡◌, ◌==◌, if◌then◌else◌, ◌>>=◌, refl, some, ◌∷◌, ok, panic,
}
use cannon_rs.Vm.{bytes_eq}
use cannon_rs.Kernel.Decimal.{decimal, parse-decimal}
use cannon_rs.Kernel.Matchers.{matches, of_number, create_signed, create_matcher}

-- The pattern of a sign and the decimal form of a u64 is read back: `=n` matches the step `n`
-- alone, and `%n` the multiples of `n`, if `n` is not zero. `%0` is accepted, and every step on it
-- panics.
pub create_matcher-decimal :
    (n step : ℕ)
    → n < 2 ^ 64
    → ((create_matcher (some (61 ∷ decimal n)) >>= λ m. matches m step) ≡ ok (step == n))
      × ((create_matcher (some (37 ∷ decimal n)) >>= λ m. matches m step)
          ≡ (if n == 0 then panic else ok (step % n == 0)))
unfolding create_matcher create_signed of_number bytes_eq matches
create_matcher-decimal n step fits = rw (parse-decimal n fits) (refl, refl)
