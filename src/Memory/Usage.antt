-- ===== src/Memory/Usage.antt =====
-- `Memory::usage` of crates/mipsevm/src/memory.rs, up to the text that the numbers are put into.
use cannon_rs.Prelude.{
  ℕ, zero, suc, ◌+◌, ◌*◌, ◌/◌, ◌^◌, ◌<◌, ◌≤◌, ◌≡◌, ltb, if◌then◌else◌, length, Result, ok, panic,
  diverge, Succeeds, ◌>>=◌, arith,
}
use cannon_rs.Word.{u64}
use cannon_rs.Page.{page_size}
use cannon_rs.Memory.{Memory}

-- A number of bytes, or one with the unit that it is divided by and the place of the unit's name.
pub data Usage : Type 0 where
  bytes : ℕ → Usage
  scaled : ℕ → ℕ → ℕ → Usage

-- The loop: `div *= UNIT`, `exp += 1`, `n /= UNIT`, while `n` is a unit or more.
unfoldable pub usage_loop : ℕ → ℕ → ℕ → ℕ → Result (ℕ × ℕ)
usage_loop zero n div exp = diverge
usage_loop (suc fuel) n div exp =
    let rest = usage_loop fuel (n / 1024) (u64 (div * 1024)) (exp + 1) in
    if ltb n 1024 then ok (div, exp) else rest

-- `usage` of a number of pages. An index past the six names of units panics.
unfoldable pub usage_of : ℕ → Result Usage
unfolding usage_loop
usage_of pages =
    let total = u64 (pages * page_size) in
    if ltb total 1024
    then ok (bytes total)
    else (usage_loop 7 (total / 1024) 1024 0 >>= λ (div, exp).
        if ltb exp 6 then ok (scaled total div exp) else panic)

-- `Memory::usage`.
unfoldable pub usage : Memory → Result Usage
unfolding usage_of
usage m = usage_of (length m.pages)

-- Either there is nothing, which is no bytes, or the number is below 1024 and at least 1 in its unit,
-- which is a power of 1024.
abbrev pub Readable : ℕ → Usage → Type 0
Readable total (bytes n) = (n ≡ total) × (total ≡ 0)
Readable total (scaled n div exp) =
    (n ≡ total) × (div ≡ 1024 ^ suc exp) × (div ≤ n) × (n < div * 1024) × (exp < 6)

-- `usage` of fewer than 2 ^ 52 pages, whose bytes are a u64, returns: the loop ends, and the
-- result is no bytes for no page, and otherwise the number of bytes with a unit that is a power of 1024 with a
-- name, in which it is at least 1 and below 1024.
pub usage-Readable :
    (m : Memory) → length m.pages < 2 ^ 52 → Succeeds (Readable (length m.pages * 4096)) (usage m)
unfolding usage
usage-Readable m fits = ground arith
