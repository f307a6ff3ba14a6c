-- ===== src/Patch/MultiReader.antt =====
-- `MultiReader` of crates/mipsevm/src/patch.rs.
use cannon_rs.Prelude.{
  ℕ, ◌<◌, ◌≤◌, ◌≡◌, refl, sym, ap, ap₂, ◌∙◌, inl, inr, Bool-cases, ◌==◌, ==_iff, if◌then◌else◌,
  List, [], ◌∷◌, ◌++◌, length, append_assoc, arith,
}
use cannon_rs.Memory.Range.{Reader}

-- `MultiReader`: the first reader, and then the second one.
pub record MultiReader (R1 R2 : Type 0) : Type 0 where
  pub first : R1
  pub second : R2

module _ {R1 R2 : Type 0} (reader1 : Reader R1) (reader2 : Reader R2) where
  abbrev pub contents_of : MultiReader R1 R2 → List ℕ
  contents_of r = reader1.contents r.first ++ reader2.contents r.second

  -- `MultiReader::read`: the second reader if the first has nothing left.
  unfoldable pub read_multi : ℕ → MultiReader R1 R2 → List ℕ × MultiReader R1 R2
  read_multi n r =
      let (bytes1, first) = reader1.read n r.first in
      let (bytes2, second) = reader2.read n r.second in
      if length bytes1 == 0
      then (bytes2, record { first = first; second = second })
      else (bytes1, record { first = first; second = r.second })

  nothing_of : (xs : List ℕ) → length xs ≡ 0 → xs ≡ []
  nothing_of [] h = refl
  nothing_of (x ∷ xs) h = absurd (omega (arith, h))

  pub read_multi-bounded : (n : ℕ) (r : MultiReader R1 R2) → length (read_multi n r).0 ≤ n
  unfolding read_multi
  read_multi-bounded n r = ground (arith, reader1.bounded n r.first, reader2.bounded n r.second)

  -- What the first reader has left after a read of nothing.
  first_over :
      (n : ℕ) (r : R1)
      → 0 < n
      → length (reader1.read n r).0 ≡ 0
      → (reader1.contents r ≡ []) × (reader1.contents (reader1.read n r).1 ≡ [])
  first_over n r some_room over =
      let all = reader1.ends n r some_room over in
      (
        all,
        ap (λ bytes. bytes ++ reader1.contents (reader1.read n r).1)
              (sym (nothing_of (reader1.read n r).0 over))
            ∙ sym (reader1.splits n r some_room)
            ∙ all,
      )

  pub read_multi-splits :
      (n : ℕ) (r : MultiReader R1 R2)
      → 0 < n
      → contents_of r ≡ (read_multi n r).0 ++ contents_of (read_multi n r).1
  unfolding read_multi
  read_multi-splits n r some_room = elim (Bool-cases (length (reader1.read n r.first).0 == 0)) [
    | inl none_left ↦
        let over =
          first_over n r.first some_room
            ((==_iff (length (reader1.read n r.first).0) 0).0 none_left) in
        rw none_left (
          ap₂ ◌++◌ over.0 (reader2.splits n r.second some_room)
          ∙ ap
              (λ bytes.
                (reader2.read n r.second).0
                ++ (bytes ++ reader2.contents (reader2.read n r.second).1))
              (sym over.1))
    | inr some_left ↦ rw some_left (
        ap (λ bytes. bytes ++ reader2.contents r.second) (reader1.splits n r.first some_room)
        ∙ append_assoc (reader1.read n r.first).0 (reader1.contents (reader1.read n r.first).1)
            (reader2.contents r.second))
  ]

  pub read_multi-ends :
      (n : ℕ) (r : MultiReader R1 R2) → 0 < n → length (read_multi n r).0 ≡ 0 → contents_of r ≡ []
  unfolding read_multi
  read_multi-ends n r some_room over = elim (Bool-cases (length (reader1.read n r.first).0 == 0)) [
    | inl none_left ↦
        ap₂ ◌++◌
          (first_over n r.first some_room
            ((==_iff (length (reader1.read n r.first).0) 0).0 none_left)).0
          (reader2.ends n r.second some_room (rw none_left at over))
    | inr some_left ↦ ground (arith, over)
  ]

  -- A multi reader reads the contents of the first reader and then those of the second.
  abbrev pub multi_reader : Reader (MultiReader R1 R2)
  multi_reader = record {
    read = read_multi;
    contents = contents_of;
    bounded = read_multi-bounded;
    splits = read_multi-splits;
    ends = read_multi-ends;
  }
