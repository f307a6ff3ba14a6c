-- ===== src/Memory/Stale.antt =====
-- `set_memory_range` of crates/mipsevm/src/memory.rs does not invalidate the nodes above the pages that it
-- writes.
use cannon_rs.Prelude.{ℕ, suc, ◌/◌, ◌≡◌, refl, ap, ◌∙◌, some, List, lookup, ok}
use cannon_rs.Hash.{Digest, Keccak}
use cannon_rs.Memory.{Memory, merkle_root, merkleize_subtree, bit_length, bit_length_in}
use cannon_rs.Memory.Range.{range_round}
use cannon_rs.Memory.Invariant.{IsValid, page_lookup-LooksUp}
use cannon_rs.Memory.Fills.{round_step, locate_found}

module _ (keccak256 : Keccak) where
  root_cached :
      (fuel : ℕ) (root : Digest) (m : Memory)
      → lookup 1 m.nodes ≡ some (some root)
      → merkleize_subtree keccak256 (suc fuel) 1 m ≡ ok (root, m)
  unfolding merkleize_subtree bit_length bit_length_in
  root_cached fuel root m cached = rw cached refl

  -- On a valid memory with the root cached, as `merkle_root` leaves it, and the page of an address there, a round of
  -- `set_memory_range` at that address changes nothing of what `merkle_root` returns, whatever bytes it
  -- writes.
  pub range_round-stale :
      (a r : ℕ) (root : Digest) (ws : List ℕ) (m : Memory)
      → IsValid m
      → lookup (a / 4096) m.pages ≡ some r
      → lookup 1 m.nodes ≡ some (some root)
      → merkle_root keccak256 (range_round keccak256 a ws m)
        ≡ ok (root, range_round keccak256 a ws m)
  range_round-stale a r root ws m v found cached =
      let first = page_lookup-LooksUp (a / 4096) m v in
      let m1 : Memory = record m { last_page_0 = first.slot_0; last_page_1 = first.slot_1 } in
      rw
        (round_step keccak256 a r ws m m1 (m.store r)
          (locate_found keccak256 (a / 4096) r m m1 (first.returns ∙ ap (λ o. (o, m1)) found)) refl)
        (unfold merkle_root in root_cached 20 root _ cached)
