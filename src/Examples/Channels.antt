-- ===== src/Examples/Channels.antt =====
-- Concrete runs of the theorems on crates/preimage.
use cannon_rs.Prelude.{
  ◌≡◌, refl, false, none, List, [], ◌∷◌, ◌++◌, length, drop, get_or, replicate, ok, err, io_error,
  arith,
}
use cannon_rs.Word.Bytes.{from_be_bytes}
use cannon_rs.Preimage.Keys.{Key, KeyType, key_type_from, preimage_key, preimage_key-type}
use cannon_rs.Preimage.Channel.{finished, Side, connect, run_turns, turn, empty_pipe}
use cannon_rs.Preimage.Hints.{HintHandler, hint, next_hint}
use cannon_rs.Preimage.Oracle.{PreimageGetter, get, new_preimage_request}
use cannon_rs.Preimage.Requests
use cannon_rs.Preimage.Requests.{get-completes}
use cannon_rs.Preimage.Delivery
use cannon_rs.Preimage.Delivery.{hint-next_hint, outcome}
use cannon_rs.Preimage.Failures.{two_turns, awaiting_length, get_failure}
use cannon_rs.Preimage.ShortWrites
use cannon_rs.Preimage.ShortWrites.{standstill, hint_short_write}

abbrev example_key : Key
example_key = Key.raw (replicate 32 1)

abbrev known : PreimageGetter
known key = ok (1 ∷ 2 ∷ 3 ∷ [])

abbrev unknown : PreimageGetter
unknown key = err io_error

abbrev some_turns : List Side
some_turns = Side.server_side ∷ Side.client_side ∷ Side.server_side ∷ []

abbrev accepting : HintHandler
accepting bytes = none

get-completes_example :
    run_turns
      (some_turns ++ Requests.ending)
      (connect 9 (get example_key) (new_preimage_request known))
    ≡ connect 9 (finished (ok (1 ∷ 2 ∷ 3 ∷ []))) (finished (ok tt))
unfolding preimage_key
get-completes_example =
    get-completes 9 known example_key (1 ∷ 2 ∷ 3 ∷ []) some_turns refl (omega arith) refl

hint-next_hint_example :
    run_turns (some_turns ++ Delivery.ending) (connect 9 (hint (5 ∷ 6 ∷ [])) (next_hint accepting))
    ≡ connect 9 (finished (ok tt)) (finished (outcome none))
hint-next_hint_example =
    hint-next_hint 9 accepting (5 ∷ 6 ∷ []) some_turns (omega arith) (omega arith)

get_failure_example :
    (run_turns
        (some_turns ++ (two_turns ++ some_turns))
        (connect 9 (get example_key) (new_preimage_request unknown))
      ≡ connect 9 awaiting_length (finished (err io_error)))
    × ((turn awaiting_length
          (record { bytes = []; writer_open = false; extra = 9 })
          (empty_pipe 9)).0
        ≡ finished (err io_error))
unfolding preimage_key
get_failure_example =
    get_failure 9 unknown example_key io_error some_turns some_turns (empty_pipe 9) refl refl

hint_short_write_example :
    run_turns
      (some_turns ++ (ShortWrites.two_turns ++ some_turns))
      (connect 4 (hint (5 ∷ 6 ∷ [])) (next_hint accepting))
    ≡ standstill 4 accepting (5 ∷ 6 ∷ [])
hint_short_write_example =
    hint_short_write 4 accepting (5 ∷ 6 ∷ []) some_turns some_turns (omega arith) (omega arith)

preimage_key-type_example :
    (key_type_from (get_or (preimage_key (Key.local_index 7)) 0 0) ≡ KeyType.local)
    × (key_type_from (get_or (preimage_key (Key.keccak256_key (replicate 32 9))) 0 0)
        ≡ KeyType.global_keccak)
    × (from_be_bytes (drop 24 (preimage_key (Key.local_index 7))) ≡ 7)
    × (length (preimage_key (Key.local_index 7)) ≡ 32)
    × (length (preimage_key (Key.keccak256_key (replicate 32 9))) ≡ 32)
preimage_key-type_example = preimage_key-type 7 (replicate 32 9) (omega arith) refl
