-- ===== src/Memory/Restored.antt =====
-- The round trip of the serialized form, crates/mipsevm/src/memory.rs.
use cannon_rs.Prelude.{
  ℕ, ◌+◌, slice, ◌*◌, ◌/◌, ◌%◌, ◌^◌, ◌<◌, ◌≡◌, ◌≢◌, refl, sym, ap, subst, ◌∙◌, fun_ext, inl, inr,
  Option, none, some, List, [], ◌∷◌, lookup, lookup-insert_same, lookup-insert_other, update_same,
  update_twice, lookup-nil, ok, arith, Option-cases,
}
use native.Mathlib.Decide.{ℕ_discrete}
use cannon_rs.Hash.{Keccak}
use cannon_rs.Hex.{HexCodec, Decodes, AreBytes}
use cannon_rs.Page.{CachedPage, default_page, invalidate_full}
use cannon_rs.Memory
use cannon_rs.Memory.{Memory, alloc_page, set_page}
use cannon_rs.Memory.Serial.{
  PageEntry, entries_of, serialize, load_found, load_entry, load_entries, deserialize,
}
use cannon_rs.Memory.Entries.{
  find_entry, Unique, entry_byte, page_bytes_of, find-entries_of, entries_of-Unique, reread_found,
  reread_entries, reread_same, find-reread_entries, reread_entries-Unique,
  deserialize-serialize_entries, Unique-HoldBytes, slice-AreBytes,
}
use cannon_rs.Memory.Invariant.{IsValid, byte_at, page_byte}
use cannon_rs.Memory.Marks.{Marks}
use cannon_rs.Memory.Changes.{Changes, Changes-IsCoherent, byte_at-other}
use cannon_rs.Memory.Views.{view_page, view_absent}
use cannon_rs.Memory.Stores.{alloc-IsValid, alloc-Marks}
use cannon_rs.Memory.RoundTrip.{default-IsValid, default-IsCoherent}
use cannon_rs.Memory.Sound.{IsSound}

clash : {A : Type 0} {o : Option A} {x : A} → o ≡ none → o ≡ some x → ⊥
clash p q = cc

taken :
    (e : PageEntry) (es : List PageEntry) (i : ℕ)
    → i ≡ e.index
    → find_entry i (e ∷ es) ≡ some e.bytes
unfolding find_entry
taken e es i same = ground arith

kept :
    (e : PageEntry) (es : List PageEntry) (i : ℕ)
    → i ≢ e.index
    → find_entry i (e ∷ es) ≡ find_entry i es
unfolding find_entry
kept e es i off = ground arith

-- The entries of a memory show its flat view.
page_view :
    (m : Memory) (a : ℕ)
    → entry_byte (page_bytes_of m (lookup (a / 4096) m.pages)) (a % 4096) 0 ≡ byte_at m a
unfolding byte_at
page_view m a = by_page (lookup (a / 4096) m.pages)
  where
    by_page :
        (found : Option ℕ)
        → entry_byte (page_bytes_of m found) (a % 4096) 0 ≡ page_byte m found (a % 4096)
    by_page none = unfold page_bytes_of page_byte in refl
    by_page (some r) = unfold page_bytes_of page_byte in refl

-- An entry's index is that of a page.
index_of :
    (m : Memory)
    → IsValid m
    → (i : ℕ) (b : ℕ → ℕ) → find_entry i (entries_of m.pages m) ≡ some b
    → i < 2 ^ 20
index_of m v i b found = elim (Option-cases (lookup i m.pages)) [
  | inl absent ↦ absurd (
      clash
        (find-entries_of i m.pages m ∙ ap (page_bytes_of m) absent ∙ (unfold page_bytes_of in refl))
        found)
  | inr (r, present) ↦ v.index_bounded i r present
]

-- The index of an entry that was read back is that of a page, too.
reread_index :
    (m : Memory)
    → IsValid m
    → (i : ℕ) (b : ℕ → ℕ) → find_entry i (reread_entries (entries_of m.pages m)) ≡ some b
    → i < 2 ^ 20
reread_index m v i b found = elim (Option-cases (find_entry i (entries_of m.pages m))) [
  | inl absent ↦
      absurd (clash (find-reread_entries i (entries_of m.pages m) ∙ ap reread_found absent) found)
  | inr (b', present) ↦ index_of m v i b' present
]

-- The entries of a memory of bytes hold bytes.
entries_hold :
    (m : Memory)
    → IsValid m
    → ((a : ℕ) → byte_at m a < 256)
    → (i : ℕ) (b : ℕ → ℕ) → find_entry i (entries_of m.pages m) ≡ some b
    → AreBytes (slice b 0 4096)
entries_hold m v small i b found = elim (Option-cases (lookup i m.pages)) [
  | inl absent ↦ absurd (
      clash
        (find-entries_of i m.pages m ∙ ap (page_bytes_of m) absent ∙ (unfold page_bytes_of in refl))
        found)
  | inr (r, present) ↦
      let bytes : ◌≡◌ {A = Option (ℕ → ℕ)} (some (m.store r).bytes) (some b) =
        sym (
          find-entries_of i m.pages m
          ∙ ap (page_bytes_of m) present
          ∙ (unfold page_bytes_of in refl))
        ∙ found in
      let same : (m.store r).bytes ≡ b = cc bytes in
      subst (λ (f : ℕ → ℕ). AreBytes (slice f 0 4096)) same
        (slice-AreBytes (m.store r).bytes 0 4096 λ k inside.
          let page : (i * 4096 + k) / 4096 ≡ i = omega (arith, inside) in
          subst (λ (n : ℕ). n < 256)
            (view_page m (i * 4096 + k) r (0 + k) (m.store r) (rw page present) refl
              (omega (arith, inside)))
            (small (i * 4096 + k)))
]

module _ (keccak256 : Keccak) where
  -- An entry was loaded into a page of its own.
  record Loads (e : PageEntry) (m : Memory) : Type 0 where
    pub after : Memory
    pub returns : load_entry keccak256 e m ≡ ok after
    pub sound : IsSound keccak256 after
    pub other_pages : (j : ℕ) → j ≢ e.index → lookup j after.pages ≡ lookup j m.pages
    pub here : (a : ℕ) → a / 4096 ≡ e.index → byte_at after a ≡ e.bytes (a % 4096)
    pub elsewhere : (a : ℕ) → a / 4096 ≢ e.index → byte_at after a ≡ byte_at m a

  load_entry_absent :
      (e : PageEntry) (m : Memory)
      → lookup e.index m.pages ≡ none
      → load_entry keccak256 e m ≡ (
          let (r, m') = alloc_page keccak256 e.index m in
          ok (set_page r (invalidate_full (record (m'.store r) { bytes = e.bytes })) m'))
  unfolding load_entry load_found
  load_entry_absent e m absent = ap (load_found keccak256 e m) absent

  load_entry-Loads :
      (e : PageEntry) (m : Memory)
      → e.index < 2 ^ 20
      → lookup e.index m.pages ≡ none
      → IsSound keccak256 m
      → Loads e m
  unfolding alloc_page invalidate_full
  load_entry-Loads e m fits absent s = record {
    after = m';
    returns = load_entry_absent e m absent;
    sound = record {
      valid = alloc-IsValid keccak256 m e.index m'.nodes m'.store fits absent s.valid;
      coherent =
          Changes-IsCoherent keccak256 e.index m.next_ref m m' changes
            (rw stored (record { node = λ k d g level at valid. absurd cc })) s.coherent;
    };
    other_pages = λ j off. lookup-insert_other e.index j m.next_ref m.pages off;
    here = λ a same.
        view_page m' a m.next_ref (a % 4096) page
          (rw same (lookup-insert_same e.index m.next_ref m.pages)) stored refl;
    elsewhere = λ a off. byte_at-other e.index m.next_ref a m m' changes.change off;
  }
    where
      allocated : Memory
      allocated = (alloc_page keccak256 e.index m).1

      page : CachedPage
      page = invalidate_full (record (allocated.store m.next_ref) { bytes = e.bytes })

      m' : Memory
      m' = set_page m.next_ref page allocated

      stored : m'.store m.next_ref ≡ page
      stored = update_same allocated.store m.next_ref page

      place : e.index * 4096 / 4096 ≡ e.index
      place = omega arith

      marks : Marks e.index m.nodes m'.nodes
      marks =
          subst (λ i. Marks i m.nodes (alloc_page keccak256 i m).1.nodes) place
            (alloc-Marks keccak256 (e.index * 4096) m (omega arith))

      changes : Changes e.index m.next_ref m m'
      changes = record {
        change = record {
          there = lookup-insert_same e.index m.next_ref m.pages;
          other_pages = λ j off. lookup-insert_other e.index j m.next_ref m.pages off;
          unshared = λ j off found. absurd (omega (arith, s.valid.refs_bounded j m.next_ref found));
          other_refs =
              λ r' off. update_twice m.store m.next_ref r' (default_page keccak256) page off;
        };
        marks = marks.marks;
        marked = marks.marked;
      }

  -- Entries of pages that are not there yet, each with a page of its own in 32 bits.
  load_entries_lem :
      (es : List PageEntry) (m : Memory)
      → Unique es
      → ((i : ℕ) (b : ℕ → ℕ) → find_entry i es ≡ some b → (i < 2 ^ 20) × (lookup i m.pages ≡ none))
      → IsSound keccak256 m
      → (m' : Memory) × (load_entries keccak256 es m ≡ ok m')
        × IsSound keccak256 m'
        × ((a : ℕ) → byte_at m' a ≡ entry_byte (find_entry (a / 4096) es) (a % 4096) (byte_at m a))
  unfolding load_entries find_entry
  load_entries_lem [] m u fresh s = (m, refl, s, λ a. refl)
  load_entries_lem (e ∷ es) m (once, u) fresh s =
      let first : (e.index < 2 ^ 20) × (lookup e.index m.pages ≡ none) =
        fresh e.index e.bytes (ground arith) in
      let l = load_entry-Loads e m first.0 first.1 s in
      let later : (i : ℕ) (b : ℕ → ℕ)
          → find_entry i es ≡ some b
          → (i < 2 ^ 20) × (lookup i l.after.pages ≡ none) =
        λ i b found. elim (ℕ_discrete i e.index) [
          | yes same ↦ absurd (clash once (rw same at found))
          | no off ↦ let f = fresh i b (kept e es i off ∙ found) in (f.0, l.other_pages i off ∙ f.1)
        ] in
      let (m', returns, sound, view) = load_entries_lem es l.after u later l.sound in
      (
        m',
        rw l.returns returns,
        sound,
        λ a. elim (ℕ_discrete (a / 4096) e.index) [
          | yes same ↦
              view a
              ∙ ap (λ o. entry_byte o (a % 4096) (byte_at l.after a))
                  (ap (λ (i : ℕ). find_entry i es) same ∙ once)
              ∙ l.here a same
              ∙ ap (λ o. entry_byte o (a % 4096) (byte_at m a)) (sym (taken e es (a / 4096) same))
          | no off ↦
              view a
              ∙ ap (entry_byte (find_entry (a / 4096) es) (a % 4096)) (l.elsewhere a off)
              ∙ ap (λ o. entry_byte o (a % 4096) (byte_at m a)) (sym (kept e es (a / 4096) off))
        ],
      )

  -- With a codec that decodes what it encodes, the serialized form of a valid memory of bytes, its pages
  -- as hexadecimal text, loads into a memory with the same flat view, whatever the caches were; it is
  -- sound.
  pub deserialize-serialize :
      (hex : HexCodec) (m : Memory)
      → Decodes hex
      → IsValid m
      → ((a : ℕ) → byte_at m a < 256)
      → (m' : Memory) × (deserialize keccak256 hex (serialize hex m) ≡ ok m')
        × IsSound keccak256 m'
        × (byte_at m' ≡ byte_at m)
  unfolding deserialize serialize
  deserialize-serialize hex m law v small =
      let es = entries_of m.pages m in
      let u = entries_of-Unique m.pages m v.unique in
      let (m', returns, sound, view) =
        load_entries_lem (reread_entries es) Memory.default (reread_entries-Unique es u)
          (λ i b found. (reread_index m v i b found, lookup-nil {V = ℕ} i))
          (record { valid = default-IsValid; coherent = default-IsCoherent keccak256 }) in
      (
        m',
        rw
            (deserialize-serialize_entries hex es law
              (Unique-HoldBytes es u (entries_hold m v small)))
            returns,
        sound,
        fun_ext λ a.
            view a
            ∙ ap (entry_byte (find_entry (a / 4096) (reread_entries es)) (a % 4096))
                (view_absent Memory.default a (lookup-nil {V = ℕ} (a / 4096)))
            ∙ ap (λ o. entry_byte o (a % 4096) 0) (find-reread_entries (a / 4096) es)
            ∙ reread_same (find_entry (a / 4096) es) (a % 4096) 0 (omega arith)
            ∙ ap (λ o. entry_byte o (a % 4096) 0) (find-entries_of (a / 4096) m.pages m)
            ∙ page_view m a,
      )
