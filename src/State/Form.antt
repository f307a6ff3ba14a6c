-- ===== src/State/Form.antt =====
-- What the serializer derived for `State`, crates/mipsevm/src/state.rs, gives to a format: the memory as
-- its pages, the key and the hint as text, and the numbers.
use cannon_rs.Prelude.{ℕ, ◌<◌, ◌≡◌, refl, Bool, List, length, Result, ok, ◌>>=◌, ==_iff}
use cannon_rs.Hash.{Keccak}
use cannon_rs.Hex.{
  HexCodec, Decodes, AreBytes, serialize_bytes, deserialize_vec, deserialize_fixed,
  deserialize-serialize_bytes,
}
use cannon_rs.Memory.{Memory}
use cannon_rs.Memory.Invariant.{IsValid, byte_at}
use cannon_rs.Memory.Serial.{EntryForm, serialize, deserialize}
use cannon_rs.Memory.Sound.{IsSound}
use cannon_rs.Memory.Restored.{deserialize-serialize}
use cannon_rs.State.{State}

pub record StateForm : Type 0 where
  pub memory : List EntryForm
  pub preimage_key : List ℕ
  pub preimage_offset : ℕ
  pub pc : ℕ
  pub next_pc : ℕ
  pub lo : ℕ
  pub hi : ℕ
  pub heap : ℕ
  pub exit_code : ℕ
  pub exited : Bool
  pub step : ℕ
  pub registers : ℕ → ℕ
  pub last_hint : List ℕ

-- `State::serialize`, with `page_hex`, `fixed_32_hex` and `vec_u8_hex` for the pages, the key and the hint.
unfoldable pub serialize_state : HexCodec → State → StateForm
serialize_state hex s = record {
  memory = serialize hex s.memory;
  preimage_key = serialize_bytes hex s.preimage_key;
  preimage_offset = s.preimage_offset;
  pc = s.pc;
  next_pc = s.next_pc;
  lo = s.lo;
  hi = s.hi;
  heap = s.heap;
  exit_code = s.exit_code;
  exited = s.exited;
  step = s.step;
  registers = s.registers;
  last_hint = serialize_bytes hex s.last_hint;
}

-- `State::deserialize`.
unfoldable pub deserialize_state : Keccak → HexCodec → StateForm → Result State
deserialize_state keccak256 hex form = do
  memory ← deserialize keccak256 hex form.memory
  preimage_key ← deserialize_fixed hex 32 form.preimage_key
  last_hint ← deserialize_vec hex form.last_hint
  ok (record {
    memory = memory;
    preimage_key = preimage_key;
    preimage_offset = form.preimage_offset;
    pc = form.pc;
    next_pc = form.next_pc;
    lo = form.lo;
    hi = form.hi;
    heap = form.heap;
    exit_code = form.exit_code;
    exited = form.exited;
    step = form.step;
    registers = form.registers;
    last_hint = last_hint;
  })

-- A state that can be saved: its memory is valid and holds bytes, its key has 32 bytes, and its hint is bytes.
pub record IsSavable (s : State) : Type 0 where
  pub valid : IsValid s.memory
  pub memory_bytes : (a : ℕ) → byte_at s.memory a < 256
  pub key_length : length s.preimage_key ≡ 32
  pub key_bytes : AreBytes s.preimage_key
  pub hint_bytes : AreBytes s.last_hint

-- A state that is saved and loaded is the same but for the caches of its memory.
pub deserialize-serialize_state :
    (keccak256 : Keccak) (hex : HexCodec) (s : State)
    → Decodes hex
    → IsSavable s
    → (m : Memory) × (deserialize_state keccak256 hex (serialize_state hex s)
        ≡ ok (record s { memory = m }))
      × IsSound keccak256 m
      × (byte_at m ≡ byte_at s.memory)
unfolding serialize_state deserialize_state
deserialize-serialize_state keccak256 hex s law savable =
    let (m, returns, sound, view) =
      deserialize-serialize keccak256 hex s.memory law savable.valid savable.memory_bytes in
    let key = deserialize-serialize_bytes hex 32 s.preimage_key law savable.key_bytes in
    let hint = deserialize-serialize_bytes hex 32 s.last_hint law savable.hint_bytes in
    (
      m,
      rw (returns, key.1, (==_iff (length s.preimage_key) 32).1 savable.key_length, hint.0) refl,
      sound,
      view,
    )
