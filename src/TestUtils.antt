-- ===== src/TestUtils.antt =====
-- crates/mipsevm/src/test_utils/mod.rs: the two preimage oracles of the tests.
pub mod Honest
use cannon_rs.Prelude.{
  ℕ, ◌+◌, ◌*◌, ◌==◌, not, if◌then◌else◌, Option, none, some, List, [], ◌∷◌, ◌++◌, length, Result,
  ok, err, panic, ◌>>=◌, ◌>>◌, bail_if, panic_if, invalid_preimage, no_image,
}
use cannon_rs.Word.Bytes.{u64_to_be_bytes}
use cannon_rs.Hash.{Digest, Keccak}
use cannon_rs.Hex.{HexCodec}
use cannon_rs.Preimage.Keys.{Key, preimage_key}
use cannon_rs.Vm.{PreimageOracle, bytes_eq}
use cannon_rs.Kernel.Decimal.{Text, codes}
use cannon_rs.Kernel.Builder.{split_spaces}

-- `FxHashMap<[u8; 32], Vec<u8>>`.
abbrev pub Images : Type 0
Images = List (List ℕ × List ℕ)

unfoldable pub find_image : List ℕ → Images → Option (List ℕ)
unfolding bytes_eq
find_image key [] = none
find_image key (entry ∷ images) =
    if bytes_eq entry.0 key then some entry.1 else find_image key images

unfoldable pub insert_image : List ℕ → List ℕ → Images → Images
unfolding bytes_eq
insert_image key value [] = (key, value) ∷ []
insert_image key value (entry ∷ images) =
    if bytes_eq entry.0 key then (key, value) ∷ images else entry ∷ insert_image key value images

-- `StaticOracle`: one preimage, for the keys that have the form of a hash.
unfoldable pub static_get : List ℕ → List ℕ → Result (List ℕ × List ℕ)
unfolding bytes_eq preimage_key
static_get key preimage_data =
    bail_if (not (bytes_eq key (preimage_key (Key.keccak256_key key)))) invalid_preimage
    >> ok (preimage_data, preimage_data)

abbrev pub static_oracle : PreimageOracle (List ℕ)
static_oracle = record { hint = λ value server. ok server; get = static_get }

-- `ClaimTestOracle::S`, `A` and `B`.
abbrev pub claim_s : ℕ
claim_s = 1000

abbrev pub claim_a : ℕ
claim_a = 3

abbrev pub claim_b : ℕ
claim_b = 4

-- The two parts of a text that has one space; `assert_eq!(parts.len(), 2)` panics on another.
unfoldable pub two_parts : Text → Result (Text × Text)
unfolding split_spaces
two_parts text =
    let (first, others) = split_spaces text in
    elim others [
      | [] ↦ panic
      | second ∷ more ↦ (panic_if (not (length more == 0)) >> ok (first, second))
    ]

-- `hex::decode(parts[1]).unwrap()`.
abbrev pub unwrapped : Option (List ℕ) → Result (List ℕ)
unwrapped none = panic
unwrapped (some bytes) = ok bytes

module _ (keccak256 : Keccak) where
  abbrev pub diff : List ℕ
  diff = keccak256 (u64_to_be_bytes claim_a) ++ keccak256 (u64_to_be_bytes claim_b)

  abbrev pub pre_hash : Digest
  pre_hash = keccak256 (u64_to_be_bytes claim_s)

  abbrev pub diff_hash : Digest
  diff_hash = keccak256 diff

  -- `ClaimTestOracle::default`.
  unfoldable pub claim_default : Images
  unfolding insert_image preimage_key
  claim_default =
      insert_image (preimage_key (Key.local_index 2))
        (u64_to_be_bytes (claim_s * claim_a + claim_b))
        (insert_image (preimage_key (Key.local_index 1)) diff_hash
          (insert_image (preimage_key (Key.local_index 0)) pre_hash []))

  -- An image under the key of its hash.
  abbrev pub insert_hashed : Digest → List ℕ → Images → Images
  insert_hashed hash value images =
      insert_image (preimage_key (Key.keccak256_key hash)) value images

  -- The match on `parts[0]`.
  unfoldable pub claim_fetch : Text → List ℕ → Images → Result Images
  unfolding insert_image bytes_eq preimage_key
  claim_fetch kind hash images =
      if bytes_eq kind (codes "fetch-state")
      then (panic_if (not (bytes_eq hash pre_hash))
          >> ok (insert_hashed pre_hash (u64_to_be_bytes claim_s) images))
      else if bytes_eq kind (codes "fetch-diff")
      then (panic_if (not (bytes_eq hash diff_hash))
          >> ok (
              insert_hashed (keccak256 (u64_to_be_bytes claim_b)) (u64_to_be_bytes claim_b) (
                insert_hashed (keccak256 (u64_to_be_bytes claim_a)) (u64_to_be_bytes claim_a)
                  (insert_hashed diff_hash diff images))))
      else panic

  -- `ClaimTestOracle::hint`. A hint that is not UTF-8 panics in the code before it is split, and one
  -- that is not one of the two known forms after; both are a panic here.
  unfoldable pub claim_hint : HexCodec → List ℕ → Images → Result Images
  unfolding two_parts claim_fetch
  claim_hint hex value images = two_parts value >>= λ (kind, text).
      unwrapped (hex.decode text) >>= λ hash.
      panic_if (not (length hash == 32)) >> claim_fetch kind hash images

  -- Hints in a row.
  unfoldable pub claim_hints : HexCodec → List (List ℕ) → Images → Result Images
  unfolding claim_hint
  claim_hints hex [] images = ok images
  claim_hints hex (value ∷ values) images =
      claim_hint hex value images >>= λ images'. claim_hints hex values images'

  -- `ClaimTestOracle::get`.
  unfoldable pub claim_get : List ℕ → Images → Result (List ℕ × Images)
  unfolding find_image
  claim_get key images = elim (find_image key images) [
    | none ↦ err no_image
    | some image ↦ ok (image, images)
  ]

  abbrev pub claim_oracle : HexCodec → PreimageOracle Images
  claim_oracle hex = record { hint = claim_hint hex; get = claim_get }
