-- ===== src/TestUtils/Honest.antt =====
-- The oracle of the claim tests, crates/mipsevm/src/test_utils/mod.rs: what it serves under the key of a
-- hash has that hash.
use cannon_rs.Prelude.{
  ℕ, ◌≡◌, refl, sym, ap, ◌∙◌, ◌==◌, true, false, if◌then◌else◌, some, List, [], ◌∷◌, length, get_or,
  Bool-cases, inl, inr, Holds, Holds-bind, Holds-then, panic_if, not, Holds-if, arith,
}
use cannon_rs.Hash.{Keccak}
use cannon_rs.Hex.{HexCodec}
use cannon_rs.Preimage.Keys.{Key, preimage_key}
use cannon_rs.Vm.{bytes_eq}
use cannon_rs.Kernel.Decimal.{codes}
use cannon_rs.Word.Bytes.{u64_to_be_bytes}
use cannon_rs.TestUtils.{
  two_parts, unwrapped, pre_hash, diff_hash, diff, claim_s, claim_a, claim_b, Images, find_image,
  insert_image, claim_default, claim_fetch, claim_hint, claim_hints,
}

pub bytes_eq_sound : (xs ys : List ℕ) → bytes_eq xs ys ≡ true → xs ≡ ys
unfolding bytes_eq
bytes_eq_sound [] [] h = refl
bytes_eq_sound [] (y ∷ ys) h = cc
bytes_eq_sound (x ∷ xs) [] h = cc
bytes_eq_sound (x ∷ xs) (y ∷ ys) h = ground (arith, bytes_eq_sound xs ys)

pub bytes_eq_refl : (xs : List ℕ) → bytes_eq xs xs ≡ true
unfolding bytes_eq
bytes_eq_refl [] = refl
bytes_eq_refl (x ∷ xs) = ground (arith, bytes_eq_refl xs)

find-insert_image :
    (key k v : List ℕ) (images : Images)
    → find_image key (insert_image k v images)
      ≡ (if bytes_eq k key then some v else find_image key images)
unfolding find_image insert_image
find-insert_image key k v [] = refl
find-insert_image key k v (entry ∷ images) = elim (Bool-cases (bytes_eq entry.0 k)) [
  | inl e ↦
      rw (e, bytes_eq_sound entry.0 k e, find_image)
        (elim (Bool-cases (bytes_eq k key)) [ inl b ↦ rw b refl | inr b ↦ rw b refl ])
  | inr e ↦
      rw (e, find_image)
        (elim (Bool-cases (bytes_eq entry.0 key)) [
          | inl b ↦
              let apart : bytes_eq k key ≡ false = elim (Bool-cases (bytes_eq k key)) [
                | inl c ↦
                    cc (bytes_eq_sound entry.0 key b, bytes_eq_sound k key c, bytes_eq_refl key, e)
                | inr c ↦ c
              ] in
              rw (b, apart) refl
          | inr b ↦ rw b (find-insert_image key k v images)
        ])
]

module _ (keccak256 : Keccak) where
  -- An image whose key has the form of the key of a hash has that hash.
  abbrev pub IsHonest : Images → Type 0
  IsHonest images =
      (key image : List ℕ)
      → find_image key images ≡ some image
      → get_or key 0 0 ≡ 2
      → key ≡ preimage_key (Key.keccak256_key (keccak256 image))

  -- The answers for local keys are those of the new oracle.
  abbrev pub SameLocals : Images → Type 0
  SameLocals images =
      (key : List ℕ)
      → get_or key 0 0 ≡ 1
      → find_image key images ≡ find_image key (claim_default keccak256)

  insert-IsHonest :
      (k v : List ℕ) (images : Images)
      → (get_or k 0 0 ≡ 2 → k ≡ preimage_key (Key.keccak256_key (keccak256 v)))
      → IsHonest images
      → IsHonest (insert_image k v images)
  insert-IsHonest k v images new old key image found global = elim (Bool-cases (bytes_eq k key)) [
    | inl e ↦
        let same : k ≡ key = bytes_eq_sound k key e in
        let value : v ≡ image = ground (arith, find-insert_image key k v images, found, e) in
        sym same
        ∙ new (ap (λ t. get_or t 0 0) same ∙ global)
        ∙ ap (λ t. preimage_key (Key.keccak256_key (keccak256 t))) value
    | inr e ↦ old key image (ground (arith, find-insert_image key k v images, found, e)) global
  ]

  no_images-IsHonest : IsHonest []
  unfolding find_image
  no_images-IsHonest key image found h = cc

  insert_local-IsHonest :
      (n : ℕ) (v : List ℕ) (images : Images)
      → IsHonest images
      → IsHonest (insert_image (preimage_key (Key.local_index n)) v images)
  unfolding preimage_key
  insert_local-IsHonest n v images h =
      insert-IsHonest (preimage_key (Key.local_index n)) v images (λ g. absurd (omega (arith, g))) h

  default-IsHonest : IsHonest (claim_default keccak256)
  unfolding claim_default
  default-IsHonest =
      insert_local-IsHonest 2 _ _
        (insert_local-IsHonest 1 _ _ (insert_local-IsHonest 0 _ [] no_images-IsHonest))

  module _ (digest_length : (bytes : List ℕ) → length (keccak256 bytes) ≡ 32) where
    hashed_key :
        (v key : List ℕ)
        → length v ≡ 32
        → get_or key 0 0 ≡ 1
        → bytes_eq (preimage_key (Key.keccak256_key v)) key ≡ false
    unfolding preimage_key bytes_eq
    hashed_key [] key h local = absurd (omega (arith, h))
    hashed_key (b ∷ bs) [] h local = refl
    hashed_key (b ∷ bs) (c ∷ cs) h local = ground arith

    abbrev Kept : Images → Type 0
    Kept images = IsHonest images × SameLocals images

    insert_hashed-Kept :
        (v : List ℕ) (images : Images)
        → Kept images
        → Kept (insert_image (preimage_key (Key.keccak256_key (keccak256 v))) v images)
    insert_hashed-Kept v images h = (
      insert-IsHonest _ v images (λ _. refl) h.0,
      λ key local.
          find-insert_image key (preimage_key (Key.keccak256_key (keccak256 v))) v images
          ∙ rw (hashed_key (keccak256 v) key (digest_length v) local) (h.1 key local),
    )

    claim_fetch-Kept :
        (kind hash : List ℕ) (images : Images)
        → Kept images
        → Holds Kept (claim_fetch keccak256 kind hash images)
    unfolding claim_fetch
    claim_fetch-Kept kind hash images h =
        Holds-if Kept (bytes_eq kind (codes "fetch-state")) _ _
          (Holds-then Kept (panic_if (not (bytes_eq hash (pre_hash keccak256)))) _
            λ _. insert_hashed-Kept (u64_to_be_bytes claim_s) images h)
          (Holds-if Kept (bytes_eq kind (codes "fetch-diff")) _ _
            (Holds-then Kept (panic_if (not (bytes_eq hash (diff_hash keccak256)))) _ λ _.
              insert_hashed-Kept (u64_to_be_bytes claim_b) _ (
                insert_hashed-Kept (u64_to_be_bytes claim_a) _
                  (insert_hashed-Kept (diff keccak256) images h)))
            tt)

    claim_hint-Kept :
        (hex : HexCodec) (value : List ℕ) (images : Images)
        → Kept images
        → Holds Kept (claim_hint keccak256 hex value images)
    unfolding claim_hint
    claim_hint-Kept hex value images h = Holds-then Kept (two_parts value) _ λ p.
        Holds-then Kept (unwrapped (hex.decode p.1)) _ λ hash.
          Holds-then Kept (panic_if (not (length hash == 32))) _
            λ _. claim_fetch-Kept p.0 hash images h

    claim_hints-Kept :
        (hex : HexCodec) (values : List (List ℕ)) (images : Images)
        → Kept images
        → Holds Kept (claim_hints keccak256 hex values images)
    unfolding claim_hints
    claim_hints-Kept hex [] images h = h
    claim_hints-Kept hex (value ∷ values) images h =
        Holds-bind Kept Kept (claim_hint keccak256 hex value images) _
          (claim_hint-Kept hex value images h) λ images' h'. claim_hints-Kept hex values images' h'

    -- After any hints that a new `ClaimTestOracle` accepts, with digests of 32 bytes, what it serves
    -- under the key of a hash has that hash, and its answers for local keys are those it began with.
    pub claim_hints-IsHonest :
        (hex : HexCodec) (values : List (List ℕ))
        → Holds
            (λ images. IsHonest images × SameLocals images)
            (claim_hints keccak256 hex values (claim_default keccak256))
    claim_hints-IsHonest hex values =
        claim_hints-Kept hex values (claim_default keccak256) (default-IsHonest, λ key local. refl)
