-- ===== src/Memory.antt =====
-- crates/mipsevm/src/memory.rs: the memory of the emulated machine. A hash map is an association
-- list. Pages are shared (`Rc<RefCell<CachedPage>>`): `store` holds the page of each reference, and
-- the map and the two cache slots hold references.
pub mod Invariant
pub mod Range
pub mod Reader
pub mod Reads
pub mod Branch
pub mod Leaves
pub mod Coherent
pub mod Merkleize
pub mod Proof
pub mod Verified
pub mod Changes
pub mod Marks
pub mod Views
pub mod Stores
pub mod Writes
pub mod Serial
pub mod RoundTrip
pub mod Fills
pub mod Slices
pub mod Sound
pub mod Alike
pub mod Typed
pub mod Fresh
pub mod Stale
pub mod Usage
pub mod Entries
pub mod Restored
use cannon_rs.Prelude.{
  ℕ, zero, suc, ◌+◌, ◌-◌, ◌*◌, ◌/◌, ◌^◌, not, ltb, ◌==◌, if◌then◌else◌, Option, none, some, List,
  [], ◌∷◌, ◌++◌, length, update, copy_at, slice, lookup, insert, bit_and, bit_or, Result, ok, err,
  panic, diverge, ◌>>=◌, ◌>>◌, bail_if, panic_if, unaligned_access, gindex_too_deep,
  intermediate_node, traversed_too_deep, io_error,
}
use cannon_rs.Word.Bytes.{u32_to_be_bytes, from_be_bytes}
use cannon_rs.Hash.{Digest, Keccak, keccak_concat_hashes, zero_hashes}
use cannon_rs.Page
use cannon_rs.Page.{
  CachedPage, blank_page, default_page, page_address_mask, page_key_mask, page_size,
}

-- An entry of `last_page`.
pub record Slot : Type 0 where
  pub key : ℕ
  pub page : Option ℕ

pub record Memory : Type 0 where
  pub nodes : List (ℕ × Option Digest)
  pub pages : List (ℕ × ℕ)
  pub last_page_0 : Slot
  pub last_page_1 : Slot
  pub store : ℕ → CachedPage
  pub next_ref : ℕ

abbrev empty_slot : Slot
empty_slot = record { key = 2 ^ 64 - 1; page = none }

-- `Memory::default`.
abbrev pub default : Memory
default = record {
  nodes = [];
  pages = [];
  last_page_0 = empty_slot;
  last_page_1 = empty_slot;
  store = λ _. blank_page;
  next_ref = 0;
}

-- `Memory::page_count`.
unfoldable pub page_count : Memory → ℕ
page_count m = length m.pages

-- `self.last_page.iter().find(|(key, _)| *key == page_index)`, and the page of the entry found.
unfoldable pub find_slot : ℕ → Slot → Slot → Option ℕ
find_slot page_index s0 s1 =
    if s0.key == page_index then s0.page else if s1.key == page_index then s1.page else none

-- `Memory::page_lookup`.
unfoldable pub page_lookup : ℕ → Memory → Option ℕ × Memory
page_lookup page_index m = elim (find_slot page_index m.last_page_0 m.last_page_1) [
  | some r ↦ (some r, m)
  | none ↦ elim (lookup page_index m.pages) [
    | some r ↦ (
      some r,
      record m {
        last_page_1 = m.last_page_0;
        last_page_0 = record { key = page_index; page = some r };
      },
    )
    | none ↦ (none, m)
  ]
]

-- `while g_index > 0 { self.nodes.insert(g_index, None); g_index >>= 1; }`: a u64 has at most 64
-- digits, so 64 rounds end the loop.
unfoldable pub clear_branch : ℕ → ℕ → List (ℕ × Option Digest) → List (ℕ × Option Digest)
clear_branch zero g nodes = nodes
clear_branch (suc fuel) g nodes =
    let rest = clear_branch fuel (g / 2) (insert g none nodes) in if ltb 0 g then rest else nodes

-- A write through a shared reference to a page.
abbrev pub set_page : ℕ → CachedPage → Memory → Memory
set_page r page m = record m { store = update m.store r page }

-- The page of an address is invalidated there, and the branch above it if the page was valid.
unfoldable pub invalidate_page : ℕ → ℕ → Memory → Result Memory
invalidate_page address r m =
    let page = m.store r in
    let prev_valid = not (page.valid 1) in
    Page.invalidate (bit_and address page_address_mask) page >>= λ page'.
    let m' = set_page r page' m in
    if prev_valid
    then ok m'
    else ok (record m' { nodes = clear_branch 64 (bit_or (2 ^ 32) address / 2 ^ 12) m'.nodes })

-- The match of `invalidate` on the page that was found.
unfoldable pub invalidate_found : ℕ → Option ℕ → Memory → Result Memory
unfolding invalidate_page
invalidate_found address none m = ok m
invalidate_found address (some r) m = invalidate_page address r m

-- `Memory::invalidate`. An address that is not aligned panics.
unfoldable pub invalidate : ℕ → Memory → Result Memory
unfolding page_lookup clear_branch invalidate_found
invalidate address m =
    let found = page_lookup (address / 2 ^ 12) m in
    panic_if (not (bit_and address 0x3 == 0)) >> invalidate_found address found.0 found.1

-- The number of binary digits of a u64, `64 - g_index.leading_zeros()`.
unfoldable pub bit_length_in : ℕ → ℕ → ℕ
bit_length_in zero g = 0
bit_length_in (suc fuel) g =
    let rest = bit_length_in fuel (g / 2) in if ltb 0 g then suc rest else 0

abbrev pub bit_length : ℕ → ℕ
bit_length g = bit_length_in 64 g

-- `page.borrow_mut().data[page_address..page_address + 4].copy_from_slice(..)`.
unfoldable pub write_word : ℕ → ℕ → ℕ → Memory → Memory
write_word address value r m =
    let page = m.store r in
    let bytes = copy_at page.bytes (bit_and address page_address_mask) (u32_to_be_bytes value) in
    set_page r (record page { bytes = bytes }) m

-- The branch as one array of bytes.
abbrev pub flatten : List Digest → List ℕ
flatten [] = []
flatten (d ∷ ds) = d ++ flatten ds

module _ (keccak256 : Keccak) where
  -- A node inside a page: the zero hash of its height if there is no page.
  unfoldable pub merkleize_found : ℕ → ℕ → Option ℕ → Memory → Result (Digest × Memory)
  merkleize_found bits g none m = ok (zero_hashes keccak256 (28 - bits), m)
  merkleize_found bits g (some r) m =
      let depth_into_page = bits - 1 - 20 in
      let page_g_index = bit_or (2 ^ depth_into_page) (bit_and g (2 ^ depth_into_page - 1)) in
      Page.merkleize_subtree keccak256 8 page_g_index (m.store r) >>= λ (hash, page).
      ok (hash, set_page r page m)

  -- The branch of `merkleize_subtree` for the nodes at the pages and inside them.
  unfoldable pub merkleize_in_page : ℕ → ℕ → Memory → Result (Digest × Memory)
  unfolding merkleize_found
  merkleize_in_page bits g m =
      let depth_into_page = bits - 1 - 20 in
      let page_index = bit_and (g / 2 ^ depth_into_page) page_key_mask in
      merkleize_found bits g (lookup page_index m.pages) m

  -- The node of an internal index is cached and returned.
  unfoldable pub store_node : ℕ → Digest → Memory → Digest × Memory
  store_node g result m = (result, record m { nodes = insert g (some result) m.nodes })

  -- `Memory::merkleize_subtree`, with fuel for the levels above the pages.
  unfoldable pub merkleize_subtree : ℕ → ℕ → Memory → Result (Digest × Memory)
  unfolding merkleize_in_page store_node
  merkleize_subtree zero g m = diverge
  merkleize_subtree (suc fuel) g m =
      let bits = bit_length g in
      let children = merkleize_subtree fuel (2 * g) m >>= λ left.
      merkleize_subtree fuel (bit_or (2 * g) 1) left.1 >>= λ right.
      ok (store_node g (keccak_concat_hashes keccak256 left.0 right.0) right.1) in
      if ltb 28 bits
      then err gindex_too_deep
      else if ltb 20 bits
      then merkleize_in_page bits g m
      else if ltb 21 bits
      then err intermediate_node
      else elim (lookup g m.nodes) [
        | some (some node) ↦ ok (node, m)
        | none ↦ ok (zero_hashes keccak256 (28 - bits), m)
        | some none ↦ children
      ]

  -- `Memory::merkle_root`: 21 levels, the last of them inside the pages.
  unfoldable pub merkle_root : Memory → Result (Digest × Memory)
  merkle_root m = merkleize_subtree 21 1 m

  -- `Memory::traverse_branch`, with fuel for the levels that are left.
  unfoldable pub traverse_branch : ℕ → ℕ → ℕ → ℕ → Memory → Result (List Digest × Memory)
  traverse_branch zero parent address depth m = diverge
  traverse_branch (suc fuel) parent address depth m =
      let bit = bit_and address (2 ^ (31 - depth)) in
      let local = if bit == 0 then 2 * parent else bit_or (2 * parent) 1 in
      let sibling = if bit == 0 then bit_or (2 * parent) 1 else 2 * parent in
      let deeper = traverse_branch fuel local address (depth + 1) m >>= λ branch.
      merkleize_subtree 21 sibling branch.1 >>= λ node. ok (branch.0 ++ (node.0 ∷ []), node.1) in
      if depth == 27
      then (merkleize_subtree 21 parent m >>= λ node. ok (node.0 ∷ [], node.1))
      else if ltb 27 depth
      then err traversed_too_deep
      else deeper

  -- `Memory::merkle_proof`: the branch as an array of 28 * 32 bytes.
  unfoldable pub merkle_proof : ℕ → Memory → Result (List ℕ × Memory)
  merkle_proof address m = traverse_branch 28 1 address 0 m >>= λ branch.
      bail_if (not (length (flatten branch.0) == 28 * 32)) io_error
      >> ok (flatten branch.0, branch.1)

  -- `Memory::alloc_page`.
  unfoldable pub alloc_page : ℕ → Memory → ℕ × Memory
  alloc_page page_index m = (
    m.next_ref,
    record m {
      store = update m.store m.next_ref (default_page keccak256);
      next_ref = suc m.next_ref;
      pages = insert page_index m.next_ref m.pages;
      nodes = clear_branch 64 (bit_or (2 ^ 20) page_index) m.nodes;
    },
  )

  -- The result of the invalidation of a page that was allocated is ignored.
  abbrev keep_invalidated : ℕ → Memory → Result CachedPage → Memory
  keep_invalidated r m (ok page) = set_page r page m
  keep_invalidated r m (err e) = m
  keep_invalidated r m panic = m
  keep_invalidated r m diverge = m

  -- The page to write to: invalidated at the address if it exists, allocated if not.
  unfoldable pub prepare_found : ℕ → Option ℕ → Memory → Result (ℕ × Memory)
  unfolding alloc_page
  prepare_found address (some r) m = invalidate address m >>= λ m'. ok (r, m')
  prepare_found address none m =
      let (r, m') = alloc_page (address / 2 ^ 12) m in
      ok (
        r,
        keep_invalidated r m' (Page.invalidate (bit_and address page_address_mask) (m'.store r)),
      )

  -- `Memory::set_memory`.
  unfoldable pub set_memory : ℕ → ℕ → Memory → Result Memory
  unfolding prepare_found write_word
  set_memory address value m =
      let found = page_lookup (address / 2 ^ 12) m in
      bail_if (not (bit_and address 0x3 == 0)) (unaligned_access address)
      >> (prepare_found address found.0 found.1 >>= λ (r, m'). ok (write_word address value r m'))

-- The word of the page that was found.
unfoldable pub read_word : ℕ → Option ℕ → Memory → Result (ℕ × Memory)
read_word address none m = ok (0, m)
read_word address (some r) m =
    ok (from_be_bytes (slice (m.store r).bytes (bit_and address page_address_mask) 4), m)

-- `Memory::get_memory`.
unfoldable pub get_memory : ℕ → Memory → Result (ℕ × Memory)
unfolding read_word
get_memory address m =
    let found = page_lookup (address / 2 ^ 12) m in
    bail_if (not (bit_and address 0x3 == 0)) (unaligned_access address)
    >> read_word address found.0 found.1
