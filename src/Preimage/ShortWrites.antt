-- ===== src/Preimage/ShortWrites.antt =====
-- A hint whose one write is cut short, crates/preimage/src/hints.rs.
use cannon_rs.Prelude.{
  ℕ, zero, suc, ◌+◌, ◌-◌, ◌^◌, ◌%◌, ◌<◌, ◌≤◌, ◌≡◌, refl, true, false, leb, ltb, ◌==◌, if◌then◌else◌,
  Bool, List, [], ◌∷◌, ◌++◌, length, take, ok, arith,
}
use cannon_rs.Word.Bytes.{u32_to_be_bytes, u32_from-to}
use cannon_rs.Preimage.Hints.{HintHandler, hint, payload, unblock, next_hint}
use cannon_rs.Preimage.Channel.{
  Io, finished, reading_exact, and_then, filled, turn, Connected, Side, connect, take_turn,
  run_turns,
}
use cannon_rs.Preimage.Turns.{run_turns-ending, last_stage}

-- One turn of each side.
abbrev pub two_turns : List Side
two_turns = Side.client_side ∷ Side.server_side ∷ []

data Stage : Type 0 where
  start sent stuck : Stage

next : Side → Stage → Stage
next Side.client_side Stage.start = Stage.sent
next Side.client_side Stage.sent = Stage.sent
next Side.client_side Stage.stuck = Stage.stuck
next Side.server_side Stage.start = Stage.start
next Side.server_side Stage.sent = Stage.stuck
next Side.server_side Stage.stuck = Stage.stuck

stays : (more : List Side) → last_stage next more Stage.stuck ≡ Stage.stuck
unfolding last_stage next
stays [] = refl
stays (Side.client_side ∷ more) = stays more
stays (Side.server_side ∷ more) = stays more

ends : (more : List Side) (stage : Stage) → last_stage next (two_turns ++ more) stage ≡ Stage.stuck
unfolding last_stage next
ends more Stage.start = stays more
ends more Stage.sent = stays more
ends more Stage.stuck = stays more

pub length-take-le : (n : ℕ) (xs : List ℕ) → length (take n xs) ≤ n
length-take-le zero xs = omega arith
length-take-le (suc n) [] = omega arith
length-take-le (suc n) (x ∷ xs) = omega (arith, length-take-le n xs)

module _ (extra : ℕ) (router : HintHandler) (bytes : List ℕ) where
  abbrev awaiting : Io (Unit {0})
  awaiting = reading_exact 1 λ byte. finished (ok tt)

  -- The exchange at a standstill. With fewer than four bytes of the frame the reader is over, as at the end of
  -- the pipe, and the bytes are lost; with more it waits for bytes that were never sent.
  abbrev pub standstill : Connected (Unit {0}) Bool
  standstill =
      if ltb (suc extra) 4
      then connect extra awaiting (finished (ok true))
      else record (connect extra awaiting
          (and_then (payload (length bytes)) λ b. unblock (router b))) {
            requests = filled extra (take (suc extra - 4) bytes);
          }

  at : Stage → Connected (Unit {0}) Bool
  at Stage.start = connect extra (hint bytes) (next_hint router)
  at Stage.sent = record (connect extra awaiting (next_hint router)) {
    requests = filled extra (take (suc extra) (u32_to_be_bytes (length bytes) ++ bytes));
  }
  at Stage.stuck = standstill

long_write : (more : ℕ) → ltb (suc (suc (suc (suc more)))) 4 ≡ false
long_write more = ground arith

after_prefix : (more : ℕ) → suc (suc (suc (suc more))) - 4 ≡ more
after_prefix more = omega arith

-- The reader at a pipe with the part of the frame that was sent.
receives :
    (extra : ℕ) (router : HintHandler) (bytes : List ℕ)
    → length bytes < 2 ^ 32
    → suc extra < 4 + length bytes
    → take_turn Side.server_side (at extra router bytes Stage.sent) ≡ standstill extra router bytes
unfolding at take_turn connect turn next_hint
receives zero router bytes fits short = refl
receives (suc zero) router bytes fits short = refl
receives (suc (suc zero)) router bytes fits short = refl
receives (suc (suc (suc more))) router bytes fits short =
    let some_left : (length (u32_to_be_bytes (length bytes) ++ take more bytes) == 0) ≡ false =
      ground arith in
    rw (long_write more, after_prefix more, some_left, u32_from-to (length bytes) fits) refl

waits :
    (extra : ℕ) (router : HintHandler) (bytes : List ℕ)
    → suc extra < 4 + length bytes
    → take_turn Side.server_side (standstill extra router bytes) ≡ standstill extra router bytes
unfolding take_turn connect turn payload and_then
waits zero router bytes short = refl
waits (suc zero) router bytes short = refl
waits (suc (suc zero)) router bytes short = refl
waits (suc (suc (suc more))) router bytes short =
    let few : more < length bytes = omega (arith, short) in
    let not_empty : (length bytes == 0) ≡ false = ground (arith, few) in
    let too_few : leb (length bytes) (length (take more bytes)) ≡ false =
      ground (arith, length-take-le more bytes, few) in
    rw (long_write more, after_prefix more, not_empty, too_few) refl

-- The writer waits at an empty pipe whatever the reader does.
awaits :
    (extra : ℕ) (router : HintHandler) (bytes : List ℕ)
    → take_turn Side.client_side (standstill extra router bytes) ≡ standstill extra router bytes
unfolding take_turn connect turn
awaits zero router bytes = refl
awaits (suc zero) router bytes = refl
awaits (suc (suc zero)) router bytes = refl
awaits (suc (suc (suc more))) router bytes = rw (long_write more) refl

moves :
    (extra : ℕ) (router : HintHandler) (bytes : List ℕ)
    → length bytes < 2 ^ 32
    → suc extra < 4 + length bytes
    → (side : Side) (stage : Stage)
    → take_turn side (at extra router bytes stage) ≡ at extra router bytes (next side stage)
unfolding at next take_turn connect turn hint next_hint
moves extra router bytes fits short Side.client_side Stage.start =
    let same : length bytes % 2 ^ 32 ≡ length bytes = omega arith in rw same refl
moves extra router bytes fits short Side.client_side Stage.sent = refl
moves extra router bytes fits short Side.client_side Stage.stuck = awaits extra router bytes
moves extra router bytes fits short Side.server_side Stage.start = refl
moves extra router bytes fits short Side.server_side Stage.sent =
    receives extra router bytes fits short
moves extra router bytes fits short Side.server_side Stage.stuck = waits extra router bytes short

-- If the one write of a hint of a length below 2 ^ 32 takes one byte or more of its frame, but not all, the
-- exchange comes to a standstill: after any turns of the two sides, one turn of each and any turns
-- more, the writer waits for its byte on an empty pipe. With fewer than four bytes the reader has
-- returned true, as at the end of the pipe, and dropped them; with four or more it waits for the whole
-- hint on a pipe that has only a part of it.
pub hint_short_write :
    (extra : ℕ) (router : HintHandler) (bytes : List ℕ) (sides more : List Side)
    → length bytes < 2 ^ 32
    → suc extra < 4 + length bytes
    → run_turns (sides ++ (two_turns ++ more)) (connect extra (hint bytes) (next_hint router))
      ≡ standstill extra router bytes
unfolding at
hint_short_write extra router bytes sides more fits short =
    run_turns-ending (at extra router bytes) next (moves extra router bytes fits short) sides
      (two_turns ++ more) Stage.start Stage.stuck (ends more)
