-- ===== src/Memory/Serial.antt =====
-- The serialized form of a memory, crates/mipsevm/src/memory.rs: the pages in the order of their
-- indices, each as hexadecimal text. The format around the entries is that of the serializer.
use cannon_rs.Prelude.{
  ℕ, List, [], ◌∷◌, some, none, Option, lookup, leb, if◌then◌else◌, Result, ok, err, ◌>>=◌,
  duplicate_page, slice, get_or,
}
use cannon_rs.Hash.{Keccak}
use cannon_rs.Hex.{HexCodec, serialize_bytes, deserialize_fixed}
use cannon_rs.Page.{page_size, invalidate_full}
use cannon_rs.Memory.{Memory, default, alloc_page, set_page}

-- `PageEntry`.
pub record PageEntry : Type 0 where
  pub index : ℕ
  pub bytes : ℕ → ℕ

-- `page_entries.sort_by(|a, b| a.index.cmp(&b.index))`, by insertion.
unfoldable pub insert_entry : PageEntry → List PageEntry → List PageEntry
insert_entry e [] = e ∷ []
insert_entry e (f ∷ fs) = if leb e.index f.index then e ∷ f ∷ fs else f ∷ insert_entry e fs

unfoldable pub entries_of : List (ℕ × ℕ) → Memory → List PageEntry
unfolding insert_entry
entries_of [] m = []
entries_of ((k, r) ∷ pages) m =
    insert_entry (record { index = k; bytes = (m.store r).bytes }) (entries_of pages m)

-- What the format is given for an entry, `PageEntry` with `page_hex`: the index, and the page as text.
pub record EntryForm : Type 0 where
  pub index : ℕ
  pub text : List ℕ

unfoldable pub serialize_entries : HexCodec → List PageEntry → List EntryForm
serialize_entries hex [] = []
serialize_entries hex (e ∷ es) =
    record { index = e.index; text = serialize_bytes hex (slice e.bytes 0 page_size) }
    ∷ serialize_entries hex es

-- `Memory::serialize`.
unfoldable pub serialize : HexCodec → Memory → List EntryForm
unfolding entries_of serialize_entries
serialize hex m = serialize_entries hex (entries_of m.pages m)

-- `Vec::deserialize`, with `page_hex`: a text that is not hexadecimal is an error, and one of another
-- number of bytes than a page has panics.
unfoldable pub deserialize_entries : HexCodec → List EntryForm → Result (List PageEntry)
deserialize_entries hex [] = ok []
deserialize_entries hex (form ∷ forms) = do
  bytes ← deserialize_fixed hex page_size form.text
  entries ← deserialize_entries hex forms
  ok (record { index = form.index; bytes = λ j. get_or bytes j 0 } ∷ entries)

module _ (keccak256 : Keccak) where
  -- One entry of the loop of `deserialize`, with what the map has for its index: a page that is
  -- there already is an error.
  unfoldable pub load_found : PageEntry → Memory → Option ℕ → Result Memory
  load_found e m (some r) = err (duplicate_page e.index)
  load_found e m none =
      let (r, m') = alloc_page keccak256 e.index m in
      ok (set_page r (invalidate_full (record (m'.store r) { bytes = e.bytes })) m')

  unfoldable pub load_entry : PageEntry → Memory → Result Memory
  unfolding load_found
  load_entry e m = load_found e m (lookup e.index m.pages)

  unfoldable pub load_entries : List PageEntry → Memory → Result Memory
  unfolding load_entry
  load_entries [] m = ok m
  load_entries (e ∷ es) m = load_entry e m >>= λ m'. load_entries es m'

  -- `Memory::deserialize`: all the entries are read first.
  unfoldable pub deserialize : HexCodec → List EntryForm → Result Memory
  unfolding load_entries
  deserialize hex forms = deserialize_entries hex forms >>= λ entries. load_entries entries default
