-- ===== src/Preimage/Requests.antt =====
-- A request for a preimage under every schedule, crates/preimage/src/oracle.rs.
use cannon_rs.Prelude.{
  ℕ, ◌^◌, ◌<◌, ◌≡◌, refl, true, false, leb, ◌==◌, if◌then◌else◌, List, [], ◌∷◌, ◌++◌, length, take,
  drop, take_all, drop_all, sym, ok, arith,
}
use cannon_rs.Word.Bytes.{u64_to_be_bytes, u64_from-to, from_be_bytes}
use cannon_rs.Preimage.Keys.{Key, preimage_key}
use cannon_rs.Preimage.Hints.{payload}
use cannon_rs.Preimage.Oracle.{PreimageGetter, get, answer, new_preimage_request}
use cannon_rs.Preimage.Channel.{
  Io, finished, reading_exact, writing, and_then, filled, turn, Connected, Side, connect, take_turn,
  run_turns,
}
use cannon_rs.Preimage.Turns.{run_turns-ending, last_stage}

-- Six turns that end a request at whatever point it is.
abbrev pub ending : List Side
ending =
    Side.client_side ∷ Side.server_side ∷ Side.server_side ∷ Side.server_side ∷ Side.client_side
    ∷ Side.client_side ∷ []

-- How far a request is: nothing was sent; the key was; the server has it; the server has sent the
-- length, or all; the client has the length while the server sends the rest, or when it has; both are
-- over.
data Stage : Type 0 where
  start asked received length_sent all_sent length_read all_left over : Stage

next : Side → Stage → Stage
next Side.client_side Stage.start = Stage.asked
next Side.client_side Stage.asked = Stage.asked
next Side.client_side Stage.received = Stage.received
next Side.client_side Stage.length_sent = Stage.length_read
next Side.client_side Stage.all_sent = Stage.all_left
next Side.client_side Stage.length_read = Stage.length_read
next Side.client_side Stage.all_left = Stage.over
next Side.client_side Stage.over = Stage.over
next Side.server_side Stage.start = Stage.start
next Side.server_side Stage.asked = Stage.received
next Side.server_side Stage.received = Stage.length_sent
next Side.server_side Stage.length_sent = Stage.all_sent
next Side.server_side Stage.all_sent = Stage.all_sent
next Side.server_side Stage.length_read = Stage.all_left
next Side.server_side Stage.all_left = Stage.all_left
next Side.server_side Stage.over = Stage.over

ends : (stage : Stage) → last_stage next ending stage ≡ Stage.over
unfolding last_stage next
ends Stage.start = refl
ends Stage.asked = refl
ends Stage.received = refl
ends Stage.length_sent = refl
ends Stage.all_sent = refl
ends Stage.length_read = refl
ends Stage.all_left = refl
ends Stage.over = refl

module _ (extra : ℕ) (getter : PreimageGetter) (key : Key) (value : List ℕ) where
  abbrev waiting : Io (List ℕ)
  waiting = reading_exact 8 λ prefix. payload (from_be_bytes prefix)

  -- The server after the length.
  abbrev rest : Io (Unit {0})
  rest = if length value == 0 then finished (ok tt) else writing value (finished (ok tt))

  abbrev before : Connected (List ℕ) (Unit {0})
  before = connect extra (get key) (new_preimage_request getter)

  abbrev pub completed : Connected (List ℕ) (Unit {0})
  completed = connect extra (finished (ok value)) (finished (ok tt))

  at : Stage → Connected (List ℕ) (Unit {0})
  at Stage.start = before
  at Stage.asked = record before { client = waiting; requests = filled extra (preimage_key key) }
  at Stage.received = record before { client = waiting; server = answer value }
  at Stage.length_sent = record before {
    client = waiting;
    server = rest;
    responses = filled extra (u64_to_be_bytes (length value));
  }
  at Stage.all_sent = record before {
    client = waiting;
    server = finished (ok tt);
    responses = filled extra (u64_to_be_bytes (length value) ++ value);
  }
  at Stage.length_read = record before { client = payload (length value); server = rest }
  at Stage.all_left = record before {
    client = payload (length value);
    server = finished (ok tt);
    responses = filled extra value;
  }
  at Stage.over = completed

module _ (extra : ℕ) (getter : PreimageGetter) (key : Key) where
  -- The client reads what is left.
  takes :
      (value : List ℕ)
      → take_turn Side.client_side (at extra getter key value Stage.all_left)
        ≡ completed extra getter key value
  unfolding at take_turn connect turn payload
  takes [] = refl
  takes (b ∷ bs) =
      let some_left : (length (b ∷ bs) == 0) ≡ false = ground arith in
      let enough : leb (length (b ∷ bs)) (length (b ∷ bs)) ≡ true = ground arith in
      rw (some_left, enough, take_all (b ∷ bs), drop_all (b ∷ bs)) refl

  -- The client has the length and nothing else came.
  awaits :
      (value : List ℕ)
      → take_turn Side.client_side (at extra getter key value Stage.length_read)
        ≡ at extra getter key value Stage.length_read
  unfolding at take_turn connect turn payload
  awaits [] = refl
  awaits (b ∷ bs) =
      let some_left : (length (b ∷ bs) == 0) ≡ false = ground arith in
      let too_few : leb (length (b ∷ bs)) 0 ≡ false = ground arith in rw (some_left, too_few) refl

  sends_after_length :
      (value : List ℕ)
      → take_turn Side.server_side (at extra getter key value Stage.length_read)
        ≡ at extra getter key value Stage.all_left
  unfolding at take_turn connect turn payload
  sends_after_length [] = refl
  sends_after_length (b ∷ bs) =
      let some_left : (length (b ∷ bs) == 0) ≡ false = ground arith in rw some_left refl

  sends :
      (value : List ℕ)
      → take_turn Side.server_side (at extra getter key value Stage.length_sent)
        ≡ at extra getter key value Stage.all_sent
  unfolding at take_turn connect turn payload
  sends [] = refl
  sends (b ∷ bs) =
      let some_left : (length (b ∷ bs) == 0) ≡ false = ground arith in rw some_left refl

  reads_key :
      (value : List ℕ)
      → length (preimage_key key) ≡ 32
      → getter (preimage_key key) ≡ ok value
      → take_turn Side.server_side (at extra getter key value Stage.asked)
        ≡ at extra getter key value Stage.received
  unfolding at take_turn connect new_preimage_request and_then turn
  reads_key value h known =
      let fits : leb 32 (length (preimage_key key)) ≡ true = ground arith in
      let whole : take 32 (preimage_key key) ≡ preimage_key key =
        rw (sym h) (take_all (preimage_key key)) in
      let none_left : drop 32 (preimage_key key) ≡ [] = rw (sym h) (drop_all (preimage_key key)) in
      rw (fits, whole, none_left, known) refl

  moves :
      (value : List ℕ)
      → length (preimage_key key) ≡ 32
      → length value < 2 ^ 64
      → getter (preimage_key key) ≡ ok value
      → (side : Side) (stage : Stage)
      → take_turn side (at extra getter key value stage)
        ≡ at extra getter key value (next side stage)
  unfolding at next take_turn connect get turn answer payload new_preimage_request
  moves value h fits known Side.client_side Stage.start = refl
  moves value h fits known Side.client_side Stage.asked = refl
  moves value h fits known Side.client_side Stage.received = refl
  moves value h fits known Side.client_side Stage.length_sent =
      rw (u64_from-to (length value) fits) refl
  moves value h fits known Side.client_side Stage.all_sent =
      let enough : leb 8 (length (u64_to_be_bytes (length value) ++ value)) ≡ true = ground arith in
      rw (enough, u64_from-to (length value) fits) refl
  moves value h fits known Side.client_side Stage.length_read = awaits value
  moves value h fits known Side.client_side Stage.all_left = takes value
  moves value h fits known Side.client_side Stage.over = refl
  moves value h fits known Side.server_side Stage.start = refl
  moves value h fits known Side.server_side Stage.asked = reads_key value h known
  moves value h fits known Side.server_side Stage.received = refl
  moves value h fits known Side.server_side Stage.length_sent = sends value
  moves value h fits known Side.server_side Stage.all_sent = refl
  moves value h fits known Side.server_side Stage.length_read = sends_after_length value
  moves value h fits known Side.server_side Stage.all_left = refl
  moves value h fits known Side.server_side Stage.over = refl

  -- A request for a key of 32 bytes whose preimage has a length below 2 ^ 64 cannot get stuck: after
  -- any turns of the two sides, in any order, six turns end it. The client then has the preimage that
  -- the getter gives for the key, the server is over, and both pipes are empty.
  pub get-completes :
      (value : List ℕ) (sides : List Side)
      → length (preimage_key key) ≡ 32
      → length value < 2 ^ 64
      → getter (preimage_key key) ≡ ok value
      → run_turns (sides ++ ending) (connect extra (get key) (new_preimage_request getter))
        ≡ connect extra (finished (ok value)) (finished (ok tt))
  unfolding at
  get-completes value sides h fits known =
      run_turns-ending (at extra getter key value) next (moves value h fits known) sides ending
        Stage.start Stage.over ends
