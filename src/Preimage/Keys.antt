-- ===== src/Preimage/Keys.antt =====
-- crates/preimage/src/types.rs: the types of keys, the keys and the file descriptors.
use cannon_rs.Prelude.{
  ℕ, ◌^◌, ◌<◌, ◌≡◌, List, [], ◌∷◌, ◌++◌, length, drop, replicate, get_or, refl, ◌==◌, if◌then◌else◌,
  arith,
}
use cannon_rs.Word.Bytes.{u64_to_be_bytes, from_be_bytes, u64_from-to}

-- `KeyType`, and its `as u8`.
pub data KeyType : Type 0 where
  illegal local global_keccak : KeyType

unfoldable pub key_type_as_u8 : KeyType → ℕ
key_type_as_u8 KeyType.illegal = 0
key_type_as_u8 KeyType.local = 1
key_type_as_u8 KeyType.global_keccak = 2

-- `KeyType::from(n: u8)`.
unfoldable pub key_type_from : ℕ → KeyType
key_type_from n =
    if n == 1 then KeyType.local else if n == 2 then KeyType.global_keccak else KeyType.illegal

-- The three keys that the code has: `LocalIndexKey`, `Keccak256Key` and `RawKey`.
pub data Key : Type 0 where
  local_index : ℕ → Key
  keccak256_key : List ℕ → Key
  raw : List ℕ → Key

-- `Key::preimage_key`. An array of 32 bytes is never empty.
unfoldable pub preimage_key : Key → List ℕ
unfolding key_type_as_u8
preimage_key (Key.local_index n) =
    key_type_as_u8 KeyType.local ∷ (replicate 23 0 ++ u64_to_be_bytes n)
preimage_key (Key.keccak256_key []) = []
preimage_key (Key.keccak256_key (b ∷ bs)) = key_type_as_u8 KeyType.global_keccak ∷ bs
preimage_key (Key.raw bytes) = bytes

-- `PreimageFds`, and its `as i32`.
pub data PreimageFds : Type 0 where
  hint_client_read hint_client_write preimage_client_read preimage_client_write : PreimageFds

unfoldable pub preimage_fd : PreimageFds → ℕ
preimage_fd PreimageFds.hint_client_read = 3
preimage_fd PreimageFds.hint_client_write = 4
preimage_fd PreimageFds.preimage_client_read = 5
preimage_fd PreimageFds.preimage_client_write = 6

-- The byte at the front of a local key and of a key of a hash tells its type, both keys have 32
-- bytes, and the index of a local key, if it is a u64, can be read back from its last eight bytes.
pub preimage_key-type :
    (n : ℕ) (hash : List ℕ)
    → n < 2 ^ 64
    → length hash ≡ 32
    → (key_type_from (get_or (preimage_key (Key.local_index n)) 0 0) ≡ KeyType.local)
      × (key_type_from (get_or (preimage_key (Key.keccak256_key hash)) 0 0) ≡ KeyType.global_keccak)
      × (from_be_bytes (drop 24 (preimage_key (Key.local_index n))) ≡ n)
      × (length (preimage_key (Key.local_index n)) ≡ 32)
      × (length (preimage_key (Key.keccak256_key hash)) ≡ 32)
unfolding key_type_from preimage_key key_type_as_u8
preimage_key-type n (b ∷ bs) fits whole = (refl, refl, u64_from-to n fits, refl, whole)
preimage_key-type n [] fits whole = ground (arith, whole)
