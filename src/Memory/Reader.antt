-- ===== src/Memory/Reader.antt =====
-- `MemoryReader` of crates/mipsevm/src/memory.rs: bytes of a range of memory, a page at a time.
use cannon_rs.Prelude.{
  ℕ, zero, suc, ◌-◌, ◌/◌, ◌^◌, ltb, ◌==◌, if◌then◌else◌, Option, some, none, List, [], ◌++◌, length,
  replicate, slice, bit_and, Result, ok, panic, diverge, ◌>>=◌,
}
use cannon_rs.Word.{add32, sub32}
use cannon_rs.Page.{page_address_mask, page_size}
use cannon_rs.Memory.{Memory, page_lookup}

-- `MemoryReader`, with the memory that it borrows.
pub record MemoryReader : Type 0 where
  pub memory : Memory
  pub address : ℕ
  pub count : ℕ

-- Where a read that starts in the page of `address` ends in that page.
unfoldable pub read_end : MemoryReader → ℕ
read_end r =
    let end_address = add32 r.address r.count in
    if r.address / 2 ^ 12 == end_address / 2 ^ 12
    then bit_and end_address page_address_mask
    else page_size

-- The bytes `start..end` of a page, or zeros if there is none.
unfoldable pub page_bytes : Memory → Option ℕ → ℕ → ℕ → List ℕ
page_bytes m (some r) start n = slice (m.store r).bytes start n
page_bytes m none start n = replicate n 0

-- `MemoryReader::read`, into a buffer with room for a page. A range that ends before it starts
-- panics.
unfoldable pub read : MemoryReader → Result (List ℕ × MemoryReader)
unfolding read_end page_bytes
read r =
    let start = bit_and r.address page_address_mask in
    let n = read_end r - start in
    let found = page_lookup (r.address / 2 ^ 12) r.memory in
    if r.count == 0
    then ok ([], r)
    else if ltb (read_end r) start
    then panic
    else ok (
      page_bytes found.1 found.0 start n,
      record { memory = found.1; address = add32 r.address n; count = sub32 r.count n },
    )

-- Reading until nothing is left, as `io::copy` and `read_to_end` do. Fuel for the rounds.
unfoldable pub read_to_end : ℕ → MemoryReader → Result (List ℕ × Memory)
read_to_end zero r = diverge
read_to_end (suc fuel) r = read r >>= λ (chunk, r').
    let rest = read_to_end fuel r' >>= λ (bytes, m). ok (chunk ++ bytes, m) in
    if length chunk == 0 then ok ([], r'.memory) else rest
