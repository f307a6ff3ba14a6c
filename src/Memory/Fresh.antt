-- ===== src/Memory/Fresh.antt =====
-- A memory that was never hashed, crates/mipsevm/src/memory.rs: `set_memory_range` does not invalidate the
-- nodes above the pages, but there is none to invalidate here.
use cannon_rs.Prelude.{
  ℕ, zero, suc, ◌+◌, ◌-◌, ◌/◌, ◌%◌, ◌^◌, ◌<◌, ◌≤◌, ◌≡◌, ◌==◌, refl, sym, ap, ◌∙◌, ◌⊎◌, inl, inr,
  Option, none, some, Option-cases, List, [], ◌∷◌, ◌++◌, length, lookup, lookup-nil,
  lookup-insert_same, lookup-insert_other, update_same, update_other, update_twice, Holds, Holds-if,
  subst, arith,
}
use native.Mathlib.Decide.{ℕ_discrete}
use cannon_rs.Word.{add32}
use cannon_rs.Hash.{Digest, Keccak}
use cannon_rs.Hex.{AreBytes}
use cannon_rs.Page.{CachedPage, invalidate_full, default_page}
use cannon_rs.Page.Coherent
use cannon_rs.Memory
use cannon_rs.Memory.{Memory, page_lookup, alloc_page, set_page, set_memory}
use cannon_rs.Memory.Range.{Reader, range_round, set_memory_range}
use cannon_rs.Memory.Invariant.{IsValid, LooksUp, page_lookup-LooksUp, byte_at}
use cannon_rs.Memory.Coherent.{IsCoherent}
use cannon_rs.Memory.Marks.{Marks, page_place}
use cannon_rs.Memory.Changes.{Changes, Changes-IsCoherent}
use cannon_rs.Memory.Stores.{alloc-Marks}
use cannon_rs.Memory.Fills.{filled_page, round_step, locate_found, locate_absent, range_round-Fills}
use cannon_rs.Memory.Typed.{IsTyped, copy_at-bytes, set_memory-IsTyped}
use cannon_rs.Memory.RoundTrip.{default-IsValid, default-IsCoherent}
use cannon_rs.Memory.Views.{view_absent}
use cannon_rs.Memory.Writes.{set_memory-Writes, set_memory_unaligned}

-- No node has a digest.
abbrev pub NoHashes : List (ℕ × Option Digest) → Type 0
NoHashes nodes = (g : ℕ) (h : Digest) → lookup g nodes ≡ some (some h) → ⊥

marked-NoHashes :
    (old nodes : List (ℕ × Option Digest))
    → ((x : ℕ) → (lookup x nodes ≡ some none) ⊎ (lookup x nodes ≡ lookup x old))
    → NoHashes old
    → NoHashes nodes
marked-NoHashes old nodes marks none_before g h e = elim (marks g) [
  | inl marked ↦ cc
  | inr same ↦ none_before g h (sym same ∙ e)
]

AreBytes-append : (xs ys : List ℕ) → AreBytes (xs ++ ys) → AreBytes xs × AreBytes ys
AreBytes-append [] ys h = (tt, h)
AreBytes-append (x ∷ xs) ys h = let rest = AreBytes-append xs ys h.1 in ((h.0, rest.0), rest.1)

module _ (keccak256 : Keccak) where
  -- A page that was invalidated in full is coherent, whatever its bytes.
  filled-IsCoherent :
      (a : ℕ) (ws : List ℕ) (page : CachedPage)
      → Coherent.IsCoherent keccak256 (filled_page a ws page)
  unfolding invalidate_full
  filled-IsCoherent a ws page = record { node = λ k d g level at v. absurd (cc) }

  -- Above a page of the map every node is marked already.
  unhashed-Marks :
      (i r : ℕ) (m : Memory)
      → IsCoherent keccak256 m
      → NoHashes m.nodes
      → lookup i m.pages ≡ some r
      → Marks i m.nodes m.nodes
  unhashed-Marks i r m c none_hashed found = record {
    marks = λ x. inr refl;
    marked = λ k d g level at cov. elim (Option-cases (lookup g m.nodes)) [
      | inl e ↦ absurd (clash (c.absent k d g i level at e cov))
      | inr (none, e) ↦ e
      | inr (some h, e) ↦ absurd (none_hashed g h e)
    ];
  }
    where
      clash : lookup i m.pages ≡ none → ⊥
      clash e = cc

  -- A range write's round over a page, with the nodes as they are.
  record Rounds (a : ℕ) (ws : List ℕ) (m : Memory) : Type 0 where
    pub coherent : IsCoherent keccak256 (range_round keccak256 a ws m)
    pub unhashed : NoHashes (range_round keccak256 a ws m).nodes

  found-Rounds :
      (a r : ℕ) (ws : List ℕ) (m : Memory)
      → IsValid m
      → IsCoherent keccak256 m
      → NoHashes m.nodes
      → lookup (a / 4096) m.pages ≡ some r
      → Rounds a ws m
  found-Rounds a r ws m v c none_hashed found = record {
    coherent = rw stepped (
        Changes-IsCoherent keccak256 (a / 4096) r m m2 changes
          (rw (update_same m.store r (filled_page a ws (m.store r)))
            (filled-IsCoherent a ws (m.store r)))
          c);
    unhashed = rw stepped none_hashed;
  }
    where
      first : LooksUp (a / 4096) m
      first = page_lookup-LooksUp (a / 4096) m v

      m1 : Memory
      m1 = record m { last_page_0 = first.slot_0; last_page_1 = first.slot_1 }

      m2 : Memory
      m2 = set_page r (filled_page a ws (m.store r)) m1

      stepped : range_round keccak256 a ws m ≡ m2
      stepped =
          round_step keccak256 a r ws m m1 (m.store r)
            (locate_found keccak256 (a / 4096) r m m1 (first.returns ∙ ap (λ o. (o, m1)) found))
            refl

      marks : Marks (a / 4096) m.nodes m.nodes
      marks = unhashed-Marks (a / 4096) r m c none_hashed found

      changes : Changes (a / 4096) r m m2
      changes = record {
        change = record {
          there = found;
          other_pages = λ j off. refl;
          unshared = λ j off e. off (v.refs_distinct j (a / 4096) r e found);
          other_refs = λ r' off. update_other m.store r r' (filled_page a ws (m.store r)) off;
        };
        marks = marks.marks;
        marked = marks.marked;
      }

  absent-Rounds :
      (a : ℕ) (ws : List ℕ) (m : Memory)
      → a < 2 ^ 32
      → IsValid m
      → IsCoherent keccak256 m
      → NoHashes m.nodes
      → lookup (a / 4096) m.pages ≡ none
      → Rounds a ws m
  unfolding alloc_page
  absent-Rounds a ws m h v c none_hashed absent = record {
    coherent = rw stepped (
        Changes-IsCoherent keccak256 (a / 4096) m.next_ref m m2 changes
          (rw (update_same allocated.store m.next_ref page)
            (filled-IsCoherent a ws (default_page keccak256)))
          c);
    unhashed = rw stepped (marked-NoHashes m.nodes allocated.nodes marks.marks none_hashed);
  }
    where
      first : LooksUp (a / 4096) m
      first = page_lookup-LooksUp (a / 4096) m v

      m1 : Memory
      m1 = record m { last_page_0 = first.slot_0; last_page_1 = first.slot_1 }

      allocated : Memory
      allocated = (alloc_page keccak256 (a / 4096) m1).1

      page : CachedPage
      page = filled_page a ws (default_page keccak256)

      m2 : Memory
      m2 = set_page m.next_ref page allocated

      stepped : range_round keccak256 a ws m ≡ m2
      stepped =
          round_step keccak256 a m.next_ref ws m allocated (default_page keccak256)
            (locate_absent keccak256 (a / 4096) m m1 (first.returns ∙ ap (λ o. (o, m1)) absent))
            (update_same m.store m.next_ref (default_page keccak256))

      marks : Marks (a / 4096) m.nodes allocated.nodes
      marks = alloc-Marks keccak256 a m1 h

      changes : Changes (a / 4096) m.next_ref m m2
      changes = record {
        change = record {
          there = lookup-insert_same (a / 4096) m.next_ref m.pages;
          other_pages = λ j off. lookup-insert_other (a / 4096) j m.next_ref m.pages off;
          unshared = λ j off e. absurd (omega (arith, v.refs_bounded j m.next_ref e));
          other_refs =
              λ r' off. update_twice m.store m.next_ref r' (default_page keccak256) page off;
        };
        marks = marks.marks;
        marked = marks.marked;
      }

  range_round-Rounds :
      (a : ℕ) (ws : List ℕ) (m : Memory)
      → a < 2 ^ 32
      → IsValid m
      → IsCoherent keccak256 m
      → NoHashes m.nodes
      → Rounds a ws m
  range_round-Rounds a ws m h v c none_hashed = elim (Option-cases (lookup (a / 4096) m.pages)) [
    | inl absent ↦ absent-Rounds a ws m h v c none_hashed absent
    | inr (r, found) ↦ found-Rounds a r ws m v c none_hashed found
  ]

  -- A sound memory of bytes whose nodes were never hashed.
  pub record IsFresh (m : Memory) : Type 0 where
    pub typed : IsTyped keccak256 m
    pub unhashed : NoHashes m.nodes

  pub default-IsFresh : IsFresh Memory.default
  default-IsFresh = record {
    typed = record {
      sound = record { valid = default-IsValid; coherent = default-IsCoherent keccak256 };
      bytes = λ a. omega (arith, view_absent Memory.default a (lookup-nil {V = ℕ} (a / 4096)));
    };
    unhashed = λ g h e. no_node g h e;
  }
    where
      no_node : (g : ℕ) (h : Digest) → lookup {V = Option Digest} g [] ≡ some (some h) → ⊥
      no_node g h e = cc (lookup-nil {V = Option Digest} g)

  round-IsFresh :
      (a : ℕ) (ws : List ℕ) (m : Memory)
      → a < 2 ^ 32
      → a % 4096 + length ws ≤ 4096
      → AreBytes ws
      → IsFresh m
      → IsFresh (range_round keccak256 a ws m)
  round-IsFresh a ws m h fits small f =
      let s = f.typed.sound in
      let fills = range_round-Fills keccak256 a ws m h fits s.valid in
      let rounds = range_round-Rounds a ws m h s.valid s.coherent f.unhashed in
      record {
        typed = record {
          sound = record { valid = fills.valid; coherent = rounds.coherent };
          bytes = λ b. rw fills.view (copy_at-bytes (byte_at m) a ws small f.typed.bytes b);
        };
        unhashed = rounds.unhashed;
      }

  -- A range write of bytes, as far as its fuel goes, leaves a memory fresh.
  pub set_memory_range-IsFresh :
      {R : Type 0} (reader : Reader R) (fuel a : ℕ) (source : R) (m : Memory)
      → a < 2 ^ 32
      → AreBytes (reader.contents source)
      → IsFresh m
      → Holds IsFresh (set_memory_range keccak256 reader fuel a source m)
  unfolding set_memory_range
  set_memory_range-IsFresh reader zero a source m h small f = tt
  set_memory_range-IsFresh reader (suc fuel) a source m h small f =
      let room : ℕ = 4096 - a % 4096 in
      let place = page_place a in
      rw place (
        let chunk = (reader.read room source).0 in
        let left = (reader.read room source).1 in
        let parts =
          AreBytes-append chunk (reader.contents left)
            (subst AreBytes (reader.splits room source (omega arith)) small) in
        let f' : IsFresh (range_round keccak256 a chunk m) =
          round-IsFresh a chunk m h (omega (arith, reader.bounded room source)) parts.0 f in
        Holds-if IsFresh (length chunk == 0) _ _ f' (
          set_memory_range-IsFresh reader fuel (add32 a (length chunk)) left
            (range_round keccak256 a chunk m) (omega arith) parts.1 f'))

  pub set_memory-IsFresh :
      (a value : ℕ) (m : Memory)
      → a < 2 ^ 32
      → IsFresh m
      → Holds IsFresh (set_memory keccak256 a value m)
  set_memory-IsFresh a value m fits f = elim (ℕ_discrete (a % 4) 0) [
    | yes aligned ↦
        let s = f.typed.sound in
        let w = set_memory-Writes keccak256 a value m aligned fits s.valid s.coherent in
        let t = set_memory-IsTyped keccak256 a value m fits f.typed in
        rw w.returns (record {
          typed = rw w.returns at t;
          unhashed = marked-NoHashes m.nodes w.after.nodes w.marks f.unhashed;
        })
    | no unaligned ↦ rw (set_memory_unaligned keccak256 a value m unaligned) tt
  ]
