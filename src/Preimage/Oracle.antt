-- ===== src/Preimage/Oracle.antt =====
-- crates/preimage/src/oracle.rs: the client that asks for preimages and the server that answers.
use cannon_rs.Prelude.{ℕ, ◌==◌, if◌then◌else◌, List, length, Result, ok}
use cannon_rs.Word.Bytes.{u64_to_be_bytes, from_be_bytes}
use cannon_rs.Preimage.Channel.{Io, finished, reading_exact, writing, and_then}
use cannon_rs.Preimage.Keys.{Key, preimage_key}
use cannon_rs.Preimage.Hints.{payload}

-- `PreimageGetter`.
abbrev pub PreimageGetter : Type 0
PreimageGetter = List ℕ → Result (List ℕ)

-- `OracleClient::get`: the key, then the length in eight bytes, then the preimage.
unfoldable pub get : Key → Io (List ℕ)
unfolding payload
get key = writing (preimage_key key) (reading_exact 8 λ prefix. payload (from_be_bytes prefix))

-- The answer: the length, and the preimage if it has a byte.
unfoldable pub answer : List ℕ → Io (Unit {0})
answer value =
    writing (u64_to_be_bytes (length value))
      (if length value == 0 then finished (ok tt) else writing value (finished (ok tt)))

-- `OracleServer::new_preimage_request`.
unfoldable pub new_preimage_request : PreimageGetter → Io (Unit {0})
unfolding and_then answer
new_preimage_request getter = reading_exact 32 λ key. and_then (finished (getter key)) answer
