-- ===== src/Preimage/Delivery.antt =====
-- The exchange of a hint under every schedule, crates/preimage/src/hints.rs.
use cannon_rs.Prelude.{
  ℕ, zero, suc, ap, ◌+◌, ◌≤◌, take, ◌^◌, ◌%◌, ◌<◌, ◌≡◌, refl, true, false, leb, ◌==◌, Bool, Option,
  none, some, List, [], ◌∷◌, ◌++◌, length, take_all, drop_all, Result, ok, err, Error, hint_failed,
  arith,
}
use cannon_rs.Word.Bytes.{u32_to_be_bytes, u32_from-to}
use cannon_rs.Preimage.Channel.{
  Io, finished, reading_exact, and_then, filled, empty_pipe, turn, Connected, Side, connect,
  take_turn, run_turns,
}
use cannon_rs.Preimage.Hints.{HintHandler, hint, payload, unblock, next_hint}
use cannon_rs.Preimage.Turns.{run_turns-ending, last_stage}

-- Five turns that end an exchange at whatever point it is.
abbrev pub ending : List Side
ending =
    Side.client_side ∷ Side.server_side ∷ Side.server_side ∷ Side.server_side ∷ Side.client_side
    ∷ []

pub take_enough : (n : ℕ) (xs : List ℕ) → length xs ≤ n → take n xs ≡ xs
take_enough zero [] h = refl
take_enough zero (x ∷ xs) h = absurd (omega (arith, h))
take_enough (suc n) [] h = refl
take_enough (suc n) (x ∷ xs) h = ap (λ ys. x ∷ ys) (take_enough n xs (omega (arith, h)))

-- What `next_hint` returns once the handler is done.
abbrev pub outcome : Option Error → Result Bool
outcome none = ok false
outcome (some e) = err hint_failed

-- How far an exchange is: nothing was sent; the frame was; the reader has the length; it has the
-- hint; it has written back; both are over.
data Stage : Type 0 where
  start sent length_read routed answered over : Stage

-- An empty hint is routed as soon as its length is read.
next : List ℕ → Side → Stage → Stage
next bytes Side.client_side Stage.start = Stage.sent
next bytes Side.client_side Stage.sent = Stage.sent
next bytes Side.client_side Stage.length_read = Stage.length_read
next bytes Side.client_side Stage.routed = Stage.routed
next bytes Side.client_side Stage.answered = Stage.over
next bytes Side.client_side Stage.over = Stage.over
next bytes Side.server_side Stage.start = Stage.start
next bytes Side.server_side Stage.sent = Stage.length_read
next [] Side.server_side Stage.length_read = Stage.answered
next (b ∷ bs) Side.server_side Stage.length_read = Stage.routed
next bytes Side.server_side Stage.routed = Stage.answered
next bytes Side.server_side Stage.answered = Stage.answered
next bytes Side.server_side Stage.over = Stage.over

ends : (bytes : List ℕ) (stage : Stage) → last_stage (next bytes) ending stage ≡ Stage.over
unfolding last_stage next
ends [] Stage.start = refl
ends (b ∷ bs) Stage.start = refl
ends [] Stage.sent = refl
ends (b ∷ bs) Stage.sent = refl
ends [] Stage.length_read = refl
ends (b ∷ bs) Stage.length_read = refl
ends bytes Stage.routed = refl
ends bytes Stage.answered = refl
ends bytes Stage.over = refl

unblocks :
    (handled : Option Error) (extra : ℕ)
    → turn (unblock handled) (empty_pipe extra) (empty_pipe extra)
      ≡ (finished (outcome handled), empty_pipe extra, filled extra (0 ∷ []))
unfolding turn unblock
unblocks none extra = rw (take_enough extra [] (omega arith)) refl
unblocks (some e) extra = rw (take_enough extra [] (omega arith)) refl

module _ (extra : ℕ) (router : HintHandler) where
  abbrev awaiting : Io (Unit {0})
  awaiting = reading_exact 1 λ byte. finished (ok tt)

  abbrev before : List ℕ → Connected (Unit {0}) Bool
  before bytes = connect extra (hint bytes) (next_hint router)

  at : List ℕ → Stage → Connected (Unit {0}) Bool
  at bytes Stage.start = before bytes
  at bytes Stage.sent = record (before bytes) {
    client = awaiting;
    requests = filled extra (u32_to_be_bytes (length bytes) ++ bytes);
  }
  at bytes Stage.length_read = record (before bytes) {
    client = awaiting;
    server = and_then (payload (length bytes)) λ b. unblock (router b);
    requests = filled extra bytes;
  }
  at bytes Stage.routed = record (before bytes) {
    client = awaiting;
    server = unblock (router bytes);
  }
  at bytes Stage.answered = record (before bytes) {
    client = awaiting;
    server = finished (outcome (router bytes));
    responses = filled extra (0 ∷ []);
  }
  at bytes Stage.over = connect extra (finished (ok tt)) (finished (outcome (router bytes)))

  answers :
      (bytes : List ℕ)
      → take_turn Side.server_side (at bytes Stage.routed) ≡ at bytes Stage.answered
  unfolding at take_turn connect
  answers bytes = rw (unblocks (router bytes) extra) refl

  routes :
      (bytes : List ℕ)
      → take_turn Side.server_side (at bytes Stage.length_read)
        ≡ at bytes (next bytes Side.server_side Stage.length_read)
  unfolding at take_turn connect turn payload next and_then
  routes [] = answers []
  routes (b ∷ bs) =
      let some_left : (length (b ∷ bs) == 0) ≡ false = ground arith in
      let enough : leb (length (b ∷ bs)) (length (b ∷ bs)) ≡ true = ground arith in
      rw (some_left, enough, take_all (b ∷ bs), drop_all (b ∷ bs)) refl

  moves :
      (bytes : List ℕ)
      → length bytes < 2 ^ 32
      → 4 + length bytes ≤ suc extra
      → (side : Side) (stage : Stage)
      → take_turn side (at bytes stage) ≡ at bytes (next bytes side stage)
  unfolding at next take_turn connect hint turn next_hint
  moves bytes fits whole Side.client_side Stage.start =
      let same : length bytes % 2 ^ 32 ≡ length bytes = omega arith in
      let all_taken : take (suc extra) (u32_to_be_bytes (length bytes) ++ bytes)
          ≡ u32_to_be_bytes (length bytes) ++ bytes =
        take_enough (suc extra) (u32_to_be_bytes (length bytes) ++ bytes) (ground (arith, whole)) in
      rw (same, all_taken) refl
  moves bytes fits whole Side.client_side Stage.sent = refl
  moves bytes fits whole Side.client_side Stage.length_read = refl
  moves bytes fits whole Side.client_side Stage.routed = refl
  moves bytes fits whole Side.client_side Stage.answered = refl
  moves bytes fits whole Side.client_side Stage.over = refl
  moves bytes fits whole Side.server_side Stage.start = refl
  moves bytes fits whole Side.server_side Stage.sent =
      let some_left : (length (u32_to_be_bytes (length bytes) ++ bytes) == 0) ≡ false =
        ground arith in
      rw (some_left, u32_from-to (length bytes) fits) refl
  moves bytes fits whole Side.server_side Stage.length_read = routes bytes
  moves bytes fits whole Side.server_side Stage.routed = answers bytes
  moves bytes fits whole Side.server_side Stage.answered = refl
  moves bytes fits whole Side.server_side Stage.over = refl

  -- The exchange of a hint of a length below 2 ^ 32 cannot get stuck if a single write to the pipe can
  -- take the whole frame: after any turns of the two sides, in any order, five turns end it. The handler was given the hint itself, the writer is
  -- unblocked whether the handler failed or not, and both pipes are empty.
  pub hint-next_hint :
      (bytes : List ℕ) (sides : List Side)
      → length bytes < 2 ^ 32
      → 4 + length bytes ≤ suc extra
      → run_turns (sides ++ ending) (connect extra (hint bytes) (next_hint router))
        ≡ connect extra (finished (ok tt)) (finished (outcome (router bytes)))
  unfolding at
  hint-next_hint bytes sides fits whole =
      run_turns-ending (at bytes) (next bytes) (moves bytes fits whole) sides ending Stage.start
        Stage.over (ends bytes)
