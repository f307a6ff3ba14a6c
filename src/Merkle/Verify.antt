-- ===== src/Merkle/Verify.antt =====
-- Checking a Merkle proof the way the contract and the tests of crates/mipsevm/src/memory.rs do:
-- from a leaf and the siblings on its way up, the root is computed again.
use native.Mathlib.Nat.{pow-suc, div-add-mod', div-div-eq-div-mul, pow-succ'}
use cannon_rs.Prelude.{
  ℕ, zero, suc, ◌+◌, ◌-◌, ◌*◌, ◌/◌, ◌%◌, ◌^◌, ◌<◌, ◌≡◌, refl, sym, ap, ◌∙◌, ◌==◌, if◌then◌else◌,
  List, [], ◌∷◌, ◌++◌, length, length-append, arith,
}
use cannon_rs.Hash.{Digest, Keccak, keccak_concat_hashes}
use cannon_rs.Merkle.{subtree}

half_div : (path j : ℕ) → path / 2 ^ suc j ≡ path / 2 ^ j / 2
half_div path j = ap (λ (t : ℕ). path / t) (pow-suc 2 j) ∙ sym (div-div-eq-div-mul path (2 ^ j) 2)

module _ (keccak256 : Keccak) where
  -- One level: the bit says on which side the sibling stands.
  unfoldable pub join : ℕ → Digest → Digest → Digest
  join bit node sibling =
      if bit == 0
      then keccak_concat_hashes keccak256 node sibling
      else keccak_concat_hashes keccak256 sibling node

  -- The root that a leaf and its siblings lead to; `path` is the position of the leaf.
  unfoldable pub verify : ℕ → Digest → List Digest → Digest
  verify path node [] = node
  verify path node (s ∷ ss) = verify (path / 2) (join (path % 2) node s) ss

  module _ (leaf : ℕ → Digest) (path : ℕ) where
    -- Where the path leads from a node of height `j`, and the siblings on the way.
    unfoldable pub descend : ℕ → ℕ → ℕ
    descend zero g = g
    descend (suc j) g = descend j (2 * g + path / 2 ^ j % 2)

    unfoldable pub siblings : ℕ → ℕ → List Digest
    siblings zero g = []
    siblings (suc j) g =
        let bit = path / 2 ^ j % 2 in
        siblings j (2 * g + bit) ++ (subtree keccak256 leaf j (2 * g + (1 - bit)) ∷ [])

    pub length-siblings : (j g : ℕ) → length (siblings j g) ≡ j
    unfolding siblings
    length-siblings zero g = refl
    length-siblings (suc j) g = omega (
      arith,
      length-append (siblings j (2 * g + path / 2 ^ j % 2))
          (subtree keccak256 leaf j (2 * g + (1 - path / 2 ^ j % 2)) ∷ []),
      length-siblings j (2 * g + path / 2 ^ j % 2),
    )

    pub descend_lem : (j g : ℕ) → descend j g ≡ g * 2 ^ j + path % 2 ^ j
    unfolding descend
    descend_lem zero g = omega arith
    descend_lem (suc j) g =
        let q = path / 2 ^ j in
        let half : path / 2 ^ suc j ≡ q / 2 = half_div path j in
        let digit : q ≡ q / 2 * 2 + q % 2 = omega arith in
        omega (
          arith,
          descend_lem j (2 * g + q % 2),
          div-add-mod' path (2 ^ j),
          div-add-mod' path (2 ^ suc j),
          ap (λ (t : ℕ). t * 2 ^ suc j) half,
          ap (λ (t : ℕ). q / 2 * t) (pow-suc 2 j),
          ap (λ (t : ℕ). t * 2 ^ j) digit,
          ap (λ (t : ℕ). g * t) (pow-suc 2 j),
        )

  verify-append :
      (path : ℕ) (node s : Digest) (ss : List Digest)
      → verify path node (ss ++ (s ∷ [])) ≡ join (path / 2 ^ length ss % 2) (verify path node ss) s
  unfolding verify
  verify-append path node s [] = ap (λ (t : ℕ). join (t % 2) node s) (omega arith)
  verify-append path node s (t ∷ ss) =
      let e : path / 2 / 2 ^ length ss ≡ path / 2 ^ suc (length ss) =
        div-div-eq-div-mul path 2 (2 ^ length ss)
        ∙ ap (λ (t : ℕ). path / t) (sym (pow-succ' 2 (length ss))) in
      rw (← e) (verify-append (path / 2) (join (path % 2) node t) s ss)

  join_children :
      (leaf : ℕ → Digest) (j g bit : ℕ)
      → bit < 2
      → join bit
          (subtree keccak256 leaf j (2 * g + bit))
          (subtree keccak256 leaf j (2 * g + (1 - bit)))
        ≡ subtree keccak256 leaf (suc j) g
  unfolding join subtree
  join_children leaf j g zero h = let e : 2 * g + 0 ≡ 2 * g = omega arith in rw e refl
  join_children leaf j g (suc zero) h = let e : 2 * g + (1 - 1) ≡ 2 * g = omega arith in rw e refl
  join_children leaf j g (suc (suc bit)) h = absurd (omega arith)

  -- A leaf and its siblings lead to the digest of the node that they were taken from.
  pub verify-siblings :
      (leaf : ℕ → Digest) (path j g : ℕ)
      → verify path (leaf (descend leaf path j g)) (siblings leaf path j g)
        ≡ subtree keccak256 leaf j g
  unfolding siblings descend
  verify-siblings leaf path zero g = unfold verify subtree in refl
  verify-siblings leaf path (suc j) g =
      let child = 2 * g + path / 2 ^ j % 2 in
      verify-append path _ _ (siblings leaf path j child)
      ∙ rw (length-siblings leaf path j child, verify-siblings leaf path j child)
          (join_children leaf j g (path / 2 ^ j % 2) (omega arith))
