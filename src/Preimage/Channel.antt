-- ===== src/Preimage/Channel.antt =====
-- The channels of crates/preimage/src/file_chan.rs: two pipes between a client and a server, and the
-- programs at their ends.
use cannon_rs.Prelude.{
  ℕ, suc, leb, ◌==◌, ◌&&◌, if◌then◌else◌, Bool, true, List, [], ◌∷◌, ◌++◌, length, take, drop,
  Result, ok, err, panic, diverge, io_error,
}

-- A program at one end of a channel: it is over, or it waits for one `read` of at most so many
-- bytes, or for a `read_exact`, or it is about to `write_all`, or to make one `write` whose count it
-- does not look at.
pub data Io (A : Type 0) : Type 0 where
  finished : Result A → Io A
  reading : ℕ → (List ℕ → Io A) → Io A
  reading_exact : ℕ → (List ℕ → Io A) → Io A
  writing : List ℕ → Io A → Io A
  writing_once : List ℕ → Io A → Io A

-- `?`.
unfoldable pub and_then : {A B : Type 0} → Io A → (A → Io B) → Io B
and_then (finished (ok a)) f = f a
and_then (finished (err e)) f = finished (err e)
and_then (finished panic) f = finished panic
and_then (finished diverge) f = finished diverge
and_then (reading n k) f = reading n λ bytes. and_then (k bytes) f
and_then (reading_exact n k) f = reading_exact n λ bytes. and_then (k bytes) f
and_then (writing bytes k) f = writing bytes (and_then k f)
and_then (writing_once bytes k) f = writing_once bytes (and_then k f)

-- A pipe: the bytes written to it and not yet read, whether its writing end is open, and how many
-- bytes a single `write` to it may take after the first one. The operating system decides the last.
pub record Pipe : Type 0 where
  pub bytes : List ℕ
  pub writer_open : Bool
  pub extra : ℕ

abbrev pub empty_pipe : ℕ → Pipe
empty_pipe extra = record { bytes = []; writer_open = true; extra = extra }

abbrev pub filled : ℕ → List ℕ → Pipe
filled extra bytes = record { bytes = bytes; writer_open = true; extra = extra }

-- One turn of a program on the pipe it reads and the pipe it writes, `ReadWritePair`. A read of an
-- empty pipe waits while the writing end is open, and gives no byte after that; a `read_exact` waits
-- for all its bytes, and fails at the end of the pipe. A `write_all` goes on until all its bytes are
-- taken; a single `write` may be cut short.
unfoldable pub turn : {A : Type 0} → Io A → Pipe → Pipe → Io A × Pipe × Pipe
turn (finished r) input output = (finished r, input, output)
turn (reading n k) input output =
    if (length input.bytes == 0) && input.writer_open
    then (reading n k, input, output)
    else (k (take n input.bytes), record input { bytes = drop n input.bytes }, output)
turn (reading_exact n k) input output =
    if leb n (length input.bytes)
    then (k (take n input.bytes), record input { bytes = drop n input.bytes }, output)
    else if input.writer_open
    then (reading_exact n k, input, output)
    else (finished (err io_error), record input { bytes = [] }, output)
turn (writing bytes k) input output = (k, input, record output { bytes = output.bytes ++ bytes })
turn (writing_once bytes k) input output =
    (k, input, record output { bytes = output.bytes ++ take (suc output.extra) bytes })

-- `create_bidirectional_channel` with a program at each end, and what a single write to its pipes may
-- take.
pub record Connected (A B : Type 0) : Type 0 where
  pub client : Io A
  pub server : Io B
  pub requests : Pipe
  pub responses : Pipe

unfoldable pub connect : {A B : Type 0} → ℕ → Io A → Io B → Connected A B
connect extra client server = record {
  client = client;
  server = server;
  requests = empty_pipe extra;
  responses = empty_pipe extra;
}

pub data Side : Type 0 where
  client_side server_side : Side

unfoldable pub take_turn : {A B : Type 0} → Side → Connected A B → Connected A B
unfolding turn
take_turn Side.client_side c =
    let (client, responses, requests) = turn c.client c.responses c.requests in
    record c { client = client; responses = responses; requests = requests }
take_turn Side.server_side c =
    let (server, requests, responses) = turn c.server c.requests c.responses in
    record c { server = server; responses = responses; requests = requests }

-- The turns of a schedule, in its order.
unfoldable pub run_turns : {A B : Type 0} → List Side → Connected A B → Connected A B
run_turns [] c = c
run_turns (side ∷ sides) c = run_turns sides (take_turn side c)
