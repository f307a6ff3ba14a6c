-- ===== src/Preimage/Hints.antt =====
-- crates/preimage/src/hints.rs: the writer of hints and the reader that routes them.
use cannon_rs.Prelude.{
  ℕ, ltb, ◌==◌, if◌then◌else◌, Bool, true, false, Option, none, some, List, [], ◌∷◌, ◌++◌, length,
  ok, err, Error, hint_failed,
}
use cannon_rs.Word.{u32}
use cannon_rs.Word.Bytes.{u32_to_be_bytes, from_be_bytes}
use cannon_rs.Preimage.Channel.{Io, finished, reading, reading_exact, writing_once, and_then}

-- `HintHandler`: none for `Ok(())`, and some error otherwise.
abbrev pub HintHandler : Type 0
HintHandler = List ℕ → Option Error

-- `HintWriter::hint`: one write of the length in four bytes and the hint, whose count is discarded, and
-- then one byte is awaited.
unfoldable pub hint : List ℕ → Io (Unit {0})
hint bytes =
    writing_once (u32_to_be_bytes (u32 (length bytes)) ++ bytes)
      (reading_exact 1 λ byte. finished (ok tt))

-- The bytes of a frame after its length. No read is made for none.
unfoldable pub payload : ℕ → Io (List ℕ)
payload length =
    if length == 0 then finished (ok []) else reading_exact length λ bytes. finished (ok bytes)

-- The end of `next_hint`: the writer is unblocked, also if the handler failed.
unfoldable pub unblock : Option Error → Io Bool
unblock none = writing_once (0 ∷ []) (finished (ok false))
unblock (some e) = writing_once (0 ∷ []) (finished (err hint_failed))

-- `HintReader::next_hint`: true at the end of the pipe.
unfoldable pub next_hint : HintHandler → Io Bool
unfolding and_then payload unblock
next_hint router = reading 4 λ prefix.
    if ltb (length prefix) 4
    then finished (ok true)
    else and_then (payload (from_be_bytes prefix)) λ bytes. unblock (router bytes)
