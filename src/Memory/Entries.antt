-- ===== src/Memory/Entries.antt =====
-- The entries of the serialized form, crates/mipsevm/src/memory.rs: sorting keeps what is found.
use cannon_rs.Prelude.{
  zero, suc, ◌+◌, ◌<◌, subst, get_or, slice, Bool-cases, inl, inr, ok, ℕ, ◌≡◌, refl, ap, ◌∙◌, ◌==◌,
  if◌then◌else◌, Option, none, some, List, [], ◌∷◌, lookup, arith,
}
use cannon_rs.Memory.{Memory}
use cannon_rs.Memory.Serial.{
  PageEntry, insert_entry, entries_of, serialize_entries, deserialize_entries,
}
use native.Mathlib.Decide.{ℕ_discrete}
use cannon_rs.Hex.{HexCodec, Decodes, AreBytes, deserialize-serialize_bytes}
use cannon_rs.Memory.Invariant.{UniquePages}

-- The bytes of the first entry of an index.
unfoldable pub find_entry : ℕ → List PageEntry → Option (ℕ → ℕ)
find_entry i [] = none
find_entry i (e ∷ es) = if e.index == i then some e.bytes else find_entry i es

-- No index has two entries.
abbrev pub Unique : List PageEntry → Type 0
Unique [] = Unit
Unique (e ∷ es) = (find_entry e.index es ≡ none) × Unique es

-- The byte of an entry, if there is one.
abbrev pub entry_byte : Option (ℕ → ℕ) → ℕ → ℕ → ℕ
entry_byte none k d = d
entry_byte (some bytes) k d = bytes k

find-insert_entry :
    (i : ℕ) (e : PageEntry) (es : List PageEntry)
    → find_entry i (insert_entry e es) ≡ (if e.index == i then some e.bytes else find_entry i es)
unfolding find_entry insert_entry
find-insert_entry i e [] = refl
find-insert_entry i e (f ∷ es) = ground (arith, find-insert_entry i e es)

insert_entry-Unique :
    (e : PageEntry) (es : List PageEntry)
    → find_entry e.index es ≡ none
    → Unique es
    → Unique (insert_entry e es)
unfolding find_entry insert_entry
insert_entry-Unique e [] h u = (refl, tt)
insert_entry-Unique e (f ∷ es) h u =
    ground (arith, insert_entry-Unique e es, find-insert_entry f.index e es)

-- The bytes of a page that a map has.
unfoldable pub page_bytes_of : Memory → Option ℕ → Option (ℕ → ℕ)
page_bytes_of m none = none
page_bytes_of m (some r) = some (m.store r).bytes

pub find-entries_of :
    (i : ℕ) (pages : List (ℕ × ℕ)) (m : Memory)
    → find_entry i (entries_of pages m) ≡ page_bytes_of m (lookup i pages)
unfolding find_entry entries_of lookup page_bytes_of
find-entries_of i [] m = refl
find-entries_of i ((k, r) ∷ pages) m =
    find-insert_entry i (record { index = k; bytes = (m.store r).bytes }) (entries_of pages m)
    ∙ ground (arith, find-entries_of i pages m)

pub entries_of-Unique :
    (pages : List (ℕ × ℕ)) (m : Memory) → UniquePages pages → Unique (entries_of pages m)
unfolding entries_of page_bytes_of
entries_of-Unique [] m u = tt
entries_of-Unique ((k, r) ∷ pages) m (fresh, u) =
    insert_entry-Unique (record { index = k; bytes = (m.store r).bytes }) (entries_of pages m)
      (find-entries_of k pages m ∙ ap (page_bytes_of m) fresh) (entries_of-Unique pages m u)

-- The bytes of a page, as they are after the text of the page was read.
abbrev pub reread : (ℕ → ℕ) → ℕ → ℕ
reread bytes j = get_or (slice bytes 0 4096) j 0

abbrev pub reread_found : Option (ℕ → ℕ) → Option (ℕ → ℕ)
reread_found none = none
reread_found (some bytes) = some (reread bytes)

abbrev pub reread_entries : List PageEntry → List PageEntry
reread_entries [] = []
reread_entries (e ∷ es) = record { index = e.index; bytes = reread e.bytes } ∷ reread_entries es

get_or-slice : (f : ℕ → ℕ) (i n k d : ℕ) → k < n → get_or (slice f i n) k d ≡ f (i + k)
get_or-slice f i zero k d h = absurd (omega (arith, h))
get_or-slice f i (suc n) zero d h = ap f (omega arith)
get_or-slice f i (suc n) (suc k) d h =
    get_or-slice f (suc i) n k d (omega (arith, h)) ∙ ap f (omega arith)

-- Within the page the bytes are the same.
pub reread_same :
    (o : Option (ℕ → ℕ)) (k d : ℕ) → k < 4096 → entry_byte (reread_found o) k d ≡ entry_byte o k d
reread_same none k d h = refl
reread_same (some bytes) k d h = get_or-slice bytes 0 4096 k 0 h ∙ ap bytes (omega arith)

pub find-reread_entries :
    (i : ℕ) (es : List PageEntry)
    → find_entry i (reread_entries es) ≡ reread_found (find_entry i es)
unfolding find_entry
find-reread_entries i [] = refl
find-reread_entries i (e ∷ es) = elim (Bool-cases (e.index == i)) [
  | inl same ↦ rw same refl
  | inr off ↦ rw off (find-reread_entries i es)
]

pub reread_entries-Unique : (es : List PageEntry) → Unique es → Unique (reread_entries es)
reread_entries-Unique [] u = tt
reread_entries-Unique (e ∷ es) (once, u) =
    (find-reread_entries e.index es ∙ ap reread_found once, reread_entries-Unique es u)

-- Every entry holds bytes.
abbrev pub HoldBytes : List PageEntry → Type 0
HoldBytes [] = Unit
HoldBytes (e ∷ es) = AreBytes (slice e.bytes 0 4096) × HoldBytes es

-- What the text of the entries reads back as.
pub deserialize-serialize_entries :
    (hex : HexCodec) (es : List PageEntry)
    → Decodes hex
    → HoldBytes es
    → deserialize_entries hex (serialize_entries hex es) ≡ ok (reread_entries es)
unfolding deserialize_entries serialize_entries
deserialize-serialize_entries hex [] law h = refl
deserialize-serialize_entries hex (e ∷ es) law h =
    let page = slice e.bytes 0 4096 in
    rw
      (
        (deserialize-serialize_bytes hex 4096 page law h.0).1,
        deserialize-serialize_entries hex es law h.1,
      )
      refl

-- Entries without a second one of an index hold bytes if all that is found in them does.
pub Unique-HoldBytes :
    (es : List PageEntry)
    → Unique es
    → ((i : ℕ) (b : ℕ → ℕ) → find_entry i es ≡ some b → AreBytes (slice b 0 4096))
    → HoldBytes es
unfolding find_entry
Unique-HoldBytes [] u h = tt
Unique-HoldBytes (e ∷ es) (once, u) h = (
  h e.index e.bytes (ground arith),
  Unique-HoldBytes es u λ i b found. elim (ℕ_discrete i e.index) [
    | yes same ↦ absurd (cc (once, rw same at found))
    | no off ↦ h i b (ground (arith, found))
  ],
)

pub slice-AreBytes :
    (f : ℕ → ℕ) (i n : ℕ) → ((k : ℕ) → k < n → f (i + k) < 256) → AreBytes (slice f i n)
slice-AreBytes f i zero h = tt
slice-AreBytes f i (suc n) h = (
  subst (λ (j : ℕ). f j < 256) (omega arith) (h 0 (omega arith)),
  slice-AreBytes f (suc i) n
      λ k small. subst (λ (j : ℕ). f j < 256) (omega arith) (h (suc k) (omega (arith, small))),
)
