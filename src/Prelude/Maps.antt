-- ===== src/Prelude/Maps.antt =====
-- Arrays as functions of the index, and hash maps as association lists over native numbers.
use Prim.Native.Nat.{ℕ, suc, ◌+◌, ◌≤◌, ◌<◌}
use mathlib.Core.Path.{◌≡◌, refl, subst}
use mathlib.Core.Logic.{◌≢◌}
use mathlib.Core.Logic.{inl, inr}
use mathlib.Core.List.{List, [], ◌∷◌, ◌++◌}
use mathlib.Core.Option.{Option, none, some}
use native.Mathlib.Omega.{arith}
use cannon_rs.Prelude.Tests.{◌==◌, if◌then◌else◌, ==_iff, Bool-cases}
use cannon_rs.Prelude.Lists.{length, slice, slice_ext}

module _ {ℓ} {V : Type ℓ} where
  -- `a[k] = v`.
  abbrev pub update : (ℕ → V) → ℕ → V → ℕ → V
  update a k v j = if k == j then v else a j

  pub update_same : (a : ℕ → V) (k : ℕ) (v : V) → update a k v k ≡ v
  update_same a k v = ground arith

  pub update_other : (a : ℕ → V) (k j : ℕ) (v : V) → j ≢ k → update a k v j ≡ a j
  update_other a k j v off = ground arith

  pub update_twice : (a : ℕ → V) (k j : ℕ) (v w : V) → j ≢ k → update (update a k v) k w j ≡ a j
  update_twice a k j v w off = ground arith

  -- What holds of the new value and of the old array holds of the array after the write.
  pub update_all {κ} :
      (P : ℕ → V → Type κ) (a : ℕ → V) (k : ℕ) (v : V)
      → P k v
      → ((j : ℕ) → P j (a j))
      → (j : ℕ) → P j (update a k v j)
  update_all P a k v new old j = elim (Bool-cases (k == j)) [
    | inl e ↦ rw e (subst (λ i. P i v) ((==_iff k j).0 e) new)
    | inr e ↦ rw e (old j)
  ]

  -- `a[k..k + vs.len()].copy_from_slice(vs)`.
  unfoldable pub copy_at : (ℕ → V) → ℕ → List V → ℕ → V
  copy_at a k [] j = a j
  copy_at a k (v ∷ vs) j = if k == j then v else copy_at a (suc k) vs j

  pub copy_at_below : (a : ℕ → V) (k : ℕ) (vs : List V) (j : ℕ) → j < k → copy_at a k vs j ≡ a j
  unfolding copy_at
  copy_at_below a k [] j h = refl
  copy_at_below a k (v ∷ vs) j h = ground (arith, copy_at_below a (suc k) vs j)

  pub copy_at_above :
      (a : ℕ → V) (k : ℕ) (vs : List V) (j : ℕ) → k + length vs ≤ j → copy_at a k vs j ≡ a j
  unfolding copy_at
  copy_at_above a k [] j h = refl
  copy_at_above a k (v ∷ vs) j h = ground (arith, copy_at_above a (suc k) vs j)

  -- A write seen from an offset.
  pub copy_at_shift :
      (a b : ℕ → V) (s k : ℕ) (vs : List V) (j : ℕ)
      → a j ≡ b (s + j)
      → copy_at a k vs j ≡ copy_at b (s + k) vs (s + j)
  unfolding copy_at
  copy_at_shift a b s k [] j h = h
  copy_at_shift a b s k (v ∷ vs) j h =
      let e : s + suc k ≡ suc (s + k) = omega arith in
      let rest : copy_at a (suc k) vs j ≡ copy_at b (suc (s + k)) vs (s + j) =
        rw e at (copy_at_shift a b s (suc k) vs j h) in
      ground arith

  pub slice-copy_at : (a : ℕ → V) (k : ℕ) (vs : List V) → slice (copy_at a k vs) k (length vs) ≡ vs
  unfolding copy_at
  slice-copy_at a k [] = refl
  slice-copy_at a k (v ∷ vs) = ground (
    arith,
    slice-copy_at a (suc k) vs,
    slice_ext (copy_at a k (v ∷ vs)) (copy_at a (suc k) vs) (suc k) (suc k) (length vs)
        (λ i h. ground arith),
  )

  -- `m.get(&k)`.
  unfoldable pub lookup : ℕ → List (ℕ × V) → Option V
  lookup k [] = none
  lookup k ((j, v) ∷ m) = if j == k then some v else lookup k m

  -- `m.insert(k, v)`: the entry of the key is replaced where it stands, or added at the end.
  unfoldable pub insert : ℕ → V → List (ℕ × V) → List (ℕ × V)
  insert key value [] = (key, value) ∷ []
  insert key value (entry ∷ entries) =
      if key == entry.0 then (key, value) ∷ entries else entry ∷ insert key value entries

  pub lookup-insert :
      (k j : ℕ) (v : V) (m : List (ℕ × V))
      → lookup j (insert k v m) ≡ (if k == j then some v else lookup j m)
  unfolding lookup insert
  lookup-insert k j v [] = refl
  lookup-insert k j v (entry ∷ m) = ground (arith, lookup-insert k j v m)

  pub lookup-insert_same : (k : ℕ) (v : V) (m : List (ℕ × V)) → lookup k (insert k v m) ≡ some v
  lookup-insert_same k v m = ground (arith, lookup-insert k k v m)

  pub lookup-insert_other :
      (k j : ℕ) (v : V) (m : List (ℕ × V)) → j ≢ k → lookup j (insert k v m) ≡ lookup j m
  lookup-insert_other k j v m off = ground (arith, lookup-insert k j v m)

  pub lookup-nil : (k : ℕ) → lookup k [] ≡ none
  unfolding lookup
  lookup-nil k = refl

  -- A write depends on the old array at the same place alone.
  pub copy_at_base :
      (a b : ℕ → V) (k : ℕ) (vs : List V) (j : ℕ) → a j ≡ b j → copy_at a k vs j ≡ copy_at b k vs j
  unfolding copy_at
  copy_at_base a b k [] j h = h
  copy_at_base a b k (v ∷ vs) j h = ground (arith, copy_at_base a b (suc k) vs j h)

  -- Two writes one after the other.
  pub copy_at-append :
      (a : ℕ → V) (k : ℕ) (vs ws : List V) (j : ℕ)
      → copy_at (copy_at a k vs) (k + length vs) ws j ≡ copy_at a k (vs ++ ws) j
  unfolding copy_at
  copy_at-append a k [] ws j = let e : k + 0 ≡ k = omega arith in rw e refl
  copy_at-append a k (v ∷ vs) ws j =
      let e : k + suc (length vs) ≡ suc k + length vs = omega arith in
      let rest : copy_at (copy_at a (suc k) vs) (suc k + length vs) ws j
          ≡ copy_at a (suc k) (vs ++ ws) j =
        copy_at-append a (suc k) vs ws j in
      rw e (
        ground (
          arith,
          rest,
          copy_at_below (copy_at a k (v ∷ vs)) (suc k + length vs) ws j,
          copy_at_base (copy_at a k (v ∷ vs)) (copy_at a (suc k) vs) (suc k + length vs) ws j,
        ))
