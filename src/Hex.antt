-- ===== src/Hex.antt =====
-- crates/mipsevm/src/ser.rs: byte strings as hexadecimal text in the serialized forms. The digits are
-- those of the crate hex, so its two functions are parameters.
use cannon_rs.Prelude.{
  refl, ℕ, ◌<◌, ◌≡◌, ◌==◌, not, if◌then◌else◌, Option, none, some, List, [], ◌∷◌, length, Result,
  ok, err, ◌>>=◌, ◌>>◌, panic, panic_if, invalid_hex, Bool-cases, inl, inr,
}

-- `hex::encode` and `hex::decode`; `decode` takes texts with and without `0x`.
pub record HexCodec : Type 0 where
  pub encode : List ℕ → List ℕ
  pub decode : List ℕ → Option (List ℕ)

abbrev pub AreBytes : List ℕ → Type 0
AreBytes [] = Unit
AreBytes (b ∷ bs) = (b < 256) × AreBytes bs

-- `0x`.
abbrev pub hex_prefix : List ℕ → List ℕ
hex_prefix text = 48 ∷ 120 ∷ text

-- What the crate documents: the text of bytes, with `0x` in front, is decoded into these bytes.
abbrev pub Decodes : HexCodec → Type 0
Decodes hex =
    (bytes : List ℕ) → AreBytes bytes → hex.decode (hex_prefix (hex.encode bytes)) ≡ some bytes

-- `serialize` of both modules.
unfoldable pub serialize_bytes : HexCodec → List ℕ → List ℕ
serialize_bytes hex bytes = hex_prefix (hex.encode bytes)

abbrev pub decoded : Option (List ℕ) → Result (List ℕ)
decoded none = err invalid_hex
decoded (some bytes) = ok bytes

-- `vec_u8_hex::deserialize`.
unfoldable pub deserialize_vec : HexCodec → List ℕ → Result (List ℕ)
deserialize_vec hex text = decoded (hex.decode text)

-- `deserialize` of a module made by `fixed_hex_ser!`: `copy_from_slice` panics on another length.
unfoldable pub deserialize_fixed : HexCodec → ℕ → List ℕ → Result (List ℕ)
deserialize_fixed hex size text =
    decoded (hex.decode text) >>= λ bytes. panic_if (not (length bytes == size)) >> ok bytes

-- With a codec that decodes what it encodes, the text of bytes reads back as these bytes, as a vector of any length and as an array of their own
-- number; as an array of another number it panics, where a text that is not hexadecimal is an error.
pub deserialize-serialize_bytes :
    (hex : HexCodec) (size : ℕ) (bytes : List ℕ)
    → Decodes hex
    → AreBytes bytes
    → (deserialize_vec hex (serialize_bytes hex bytes) ≡ ok bytes)
      × (deserialize_fixed hex size (serialize_bytes hex bytes)
          ≡ (if length bytes == size then ok bytes else panic))
      × ((text : List ℕ)
          → hex.decode text ≡ none
          → deserialize_fixed hex size text ≡ err invalid_hex)
unfolding deserialize_vec deserialize_fixed serialize_bytes
deserialize-serialize_bytes hex size bytes law small = (
  rw (law bytes small) refl,
  rw (law bytes small)
      (elim (Bool-cases (length bytes == size)) [ inl e ↦ rw e refl | inr e ↦ rw e refl ]),
  λ text e. rw e refl,
)
