-- ===== src/Preimage/Failures.antt =====
-- Requests that fail, crates/preimage/src/oracle.rs.
use cannon_rs.Prelude.{
  ℕ, ◌≡◌, refl, sym, true, false, leb, List, [], ◌∷◌, ◌++◌, length, take, drop, take_all, drop_all,
  err, Error, io_error, arith,
}
use cannon_rs.Word.Bytes.{from_be_bytes}
use cannon_rs.Preimage.Keys.{Key, preimage_key}
use cannon_rs.Preimage.Hints.{payload}
use cannon_rs.Preimage.Oracle.{PreimageGetter, get, new_preimage_request}
use cannon_rs.Preimage.Channel.{
  Io, finished, reading_exact, and_then, Pipe, filled, turn, Connected, Side, connect, take_turn,
  run_turns,
}
use cannon_rs.Preimage.Turns.{run_turns-ending, last_stage}

data Stage : Type 0 where
  start asked failed : Stage

next : Side → Stage → Stage
next Side.client_side Stage.start = Stage.asked
next Side.client_side Stage.asked = Stage.asked
next Side.client_side Stage.failed = Stage.failed
next Side.server_side Stage.start = Stage.start
next Side.server_side Stage.asked = Stage.failed
next Side.server_side Stage.failed = Stage.failed

abbrev pub two_turns : List Side
two_turns = Side.client_side ∷ Side.server_side ∷ []

stays : (more : List Side) → last_stage next more Stage.failed ≡ Stage.failed
unfolding last_stage next
stays [] = refl
stays (Side.client_side ∷ more) = stays more
stays (Side.server_side ∷ more) = stays more

ends : (more : List Side) (stage : Stage) → last_stage next (two_turns ++ more) stage ≡ Stage.failed
unfolding last_stage next
ends more Stage.start = stays more
ends more Stage.asked = stays more
ends more Stage.failed = stays more

-- The client after it has sent the key.
abbrev pub awaiting_length : Io (List ℕ)
awaiting_length = reading_exact 8 λ prefix. payload (from_be_bytes prefix)

module _ (extra : ℕ) (getter : PreimageGetter) (key : Key) (e : Error) where
  at : Stage → Connected (List ℕ) (Unit {0})
  at Stage.start = connect extra (get key) (new_preimage_request getter)
  at Stage.asked = record (connect extra awaiting_length (new_preimage_request getter)) {
    requests = filled extra (preimage_key key);
  }
  at Stage.failed = connect extra awaiting_length (finished (err e))

  moves :
      length (preimage_key key) ≡ 32
      → getter (preimage_key key) ≡ err e
      → (side : Side) (stage : Stage) → take_turn side (at stage) ≡ at (next side stage)
  unfolding at next take_turn connect get turn new_preimage_request and_then
  moves h fails Side.client_side Stage.start = refl
  moves h fails Side.client_side Stage.asked = refl
  moves h fails Side.client_side Stage.failed = refl
  moves h fails Side.server_side Stage.start = refl
  moves h fails Side.server_side Stage.asked =
      let fits : leb 32 (length (preimage_key key)) ≡ true = ground arith in
      let whole : take 32 (preimage_key key) ≡ preimage_key key =
        rw (sym h) (take_all (preimage_key key)) in
      let none_left : drop 32 (preimage_key key) ≡ [] = rw (sym h) (drop_all (preimage_key key)) in
      rw (fits, whole, none_left, fails) refl
  moves h fails Side.server_side Stage.failed = refl

  -- A request whose key has 32 bytes and for which the getter fails: after any turns and then one of
  -- each side, the server has the getter's error and the client waits for a length on empty pipes,
  -- whatever turns follow. Once the writing end of the responses is closed, the client's next turn
  -- ends it with an error.
  pub get_failure :
      (sides more : List Side) (output : Pipe)
      → length (preimage_key key) ≡ 32
      → getter (preimage_key key) ≡ err e
      → (run_turns
            (sides ++ (two_turns ++ more))
            (connect extra (get key) (new_preimage_request getter))
          ≡ connect extra awaiting_length (finished (err e)))
        × ((turn awaiting_length
              (record { bytes = []; writer_open = false; extra = extra })
              output).0
            ≡ finished (err io_error))
  unfolding at turn
  get_failure sides more output h fails = (
    run_turns-ending at next (moves h fails) sides (two_turns ++ more) Stage.start Stage.failed
        (ends more),
    refl,
  )
