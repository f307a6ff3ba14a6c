-- ===== src/Page.antt =====
-- crates/mipsevm/src/page.rs: a page of 4096 bytes with a cache of its Merkle nodes.
-- An array of fixed length is a function of the index; every index that the code uses is in range.
pub mod Coherent
pub mod Writes
pub mod Default
use cannon_rs.Prelude.{
  ℕ, zero, suc, ◌+◌, ◌-◌, ◌*◌, ◌/◌, ◌^◌, ◌&&◌, Bool, true, false, ltb, leb, if◌then◌else◌, update,
  slice, bit_and, bit_or, Result, ok, err, diverge, ◌>>=◌, gindex_too_deep, invalid_page_address,
}
use cannon_rs.Hash.{Digest, Keccak, keccak_concat_hashes, zero_digest}

abbrev pub page_address_size : ℕ
page_address_size = 12

abbrev pub page_key_size : ℕ
page_key_size = 20

abbrev pub page_size : ℕ
page_size = 4096

abbrev pub page_size_words : ℕ
page_size_words = 128

abbrev pub page_address_mask : ℕ
page_address_mask = 4095

abbrev pub page_key_mask : ℕ
page_key_mask = 0xFFFFF

pub record CachedPage : Type 0 where
  pub bytes : ℕ → ℕ
  pub cache : ℕ → Digest
  pub valid : ℕ → Bool

-- `CachedPage::invalidate`: all keys up to that of the parent of the word's leaf.
unfoldable pub invalidate : ℕ → CachedPage → Result CachedPage
invalidate page_addr page =
    if leb page_size page_addr
    then err (invalid_page_address page_addr)
    else (let key = bit_or page_size page_addr / 2 ^ 6 in
        ok (record page { valid = λ i. if leb i key then false else page.valid i }))

-- `CachedPage::invalidate_full`.
unfoldable pub invalidate_full : CachedPage → CachedPage
invalidate_full page = record page { valid = λ _. false }

-- The page that `DEFAULT_CACHE` is computed from.
abbrev pub blank_page : CachedPage
blank_page = record { bytes = λ _. 0; cache = λ _. zero_digest; valid = λ _. false }

module _ (keccak256 : Keccak) where
  -- The end of `merkleize_subtree`: the hash of a node is cached and returned.
  unfoldable pub store_hash : ℕ → Digest → CachedPage → Digest × CachedPage
  store_hash g hash page =
      (hash, record page { cache = update page.cache g hash; valid = update page.valid g true })

  -- `CachedPage::merkleize_subtree`, with fuel for the levels that are left.
  unfoldable pub merkleize_subtree : ℕ → ℕ → CachedPage → Result (Digest × CachedPage)
  merkleize_subtree zero g page = diverge
  merkleize_subtree (suc fuel) g page =
      let node_index = bit_and g (page_address_mask / 2 ^ 5) * 2 ^ 5 in
      let data_idx = (g - page_size_words / 2) * 2 ^ 6 in
      let internal = merkleize_subtree fuel (2 * g) page >>= λ left.
      merkleize_subtree fuel (2 * g + 1) left.1 >>= λ right.
      ok (store_hash g (keccak_concat_hashes keccak256 left.0 right.0) right.1) in
      if leb page_size_words g && ltb g (page_size_words * 2)
      then ok (slice page.bytes node_index 32, page)
      else if leb (page_size_words * 2) g
      then err gindex_too_deep
      else if page.valid g
      then ok (page.cache g, page)
      else if leb (page_size_words / 2) g
      then ok (store_hash g (keccak256 (slice page.bytes data_idx 64)) page)
      else internal

  -- `CachedPage::merkle_root`. Eight levels are all that a page has.
  unfoldable pub merkle_root : CachedPage → Result (Digest × CachedPage)
  merkle_root page = merkleize_subtree 8 1 page

  -- `DEFAULT_CACHE`; its `unwrap` never panics, see Page/Coherent.
  unfoldable pub default_cache : ℕ → Digest
  default_cache = elim (merkle_root blank_page) [ ok (_, page) ↦ page.cache | _ ↦ λ _. zero_digest ]

  -- `CachedPage::default`.
  unfoldable pub default_page : CachedPage
  default_page = record { bytes = λ _. 0; cache = default_cache; valid = λ _. true }
