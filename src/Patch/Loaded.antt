-- ===== src/Patch/Loaded.antt =====
-- What `load_elf` of crates/mipsevm/src/patch.rs leaves in memory.
use cannon_rs.Prelude.{
  ℕ, suc, ◌+◌, ◌-◌, ◌^◌, ◌<◌, ◌≤◌, ◌≡◌, refl, sym, ap, subst, ◌∙◌, inl, inr, false, Bool-cases, ltb,
  leb, ◌==◌, ==_iff, if◌then◌else◌, Option, none, some, List, [], ◌∷◌, ◌++◌, append-nil, length,
  length-append, length-take, length-replicate, take, replicate, copy_at, bail_if, panic_if,
  Settles, Settles-bind, panic_if-Settles, bail_if-Settles, fun_ext, ◌/◌, lookup-nil, arith,
  segment_out_of_range,
}
use cannon_rs.Word.{u32, u64, add32}
use cannon_rs.Hash.{Keccak}
use cannon_rs.Memory
use cannon_rs.Memory.{Memory}
use cannon_rs.Memory.Range.{Reader, slice_reader, set_memory_range}
use cannon_rs.Memory.Invariant.{IsValid, byte_at}
use cannon_rs.Memory.RoundTrip.{default-IsValid}
use cannon_rs.Memory.Views.{view_absent}
use cannon_rs.Memory.Fills.{set_memory_range-Fills}
use cannon_rs.Patch.MultiReader.{multi_reader}
use cannon_rs.Patch.Elf.{
  Segment, ElfParser, default_state, check_sizes, write_segment, load_contents, load_segment,
  load_segments, load_elf,
}

-- The bytes of a segment in memory.
abbrev pub image : Segment → List ℕ → List ℕ
image s bytes = take s.p_filesz bytes ++ replicate (s.p_memsz - s.p_filesz) 0

-- The view after the segments are laid over it in their order; those of the type 0x70000003 and
-- those without contents are left out.
abbrev pub overlay_one : Segment → (ℕ → ℕ) → ℕ → ℕ
overlay_one s view =
    if s.p_type == 0x70000003
    then view
    else elim s.contents [ none ↦ view | some bytes ↦ copy_at view s.p_vaddr (image s bytes) ]

unfoldable pub overlay : List Segment → (ℕ → ℕ) → ℕ → ℕ
overlay [] view = view
overlay (s ∷ segments) view = overlay segments (overlay_one s view)

-- The end of every segment is a u64.
abbrev pub EndsFit : List Segment → Type 0
EndsFit [] = Unit
EndsFit (s ∷ segments) = (s.p_vaddr + s.p_memsz < 2 ^ 64) × EndsFit segments

-- A valid memory with the view.
abbrev pub Shows : (ℕ → ℕ) → Memory → Type 0
Shows view m = IsValid m × (byte_at m ≡ view)

module _ (keccak256 : Keccak) where
  range-Shows :
      {R : Type 0} (reader : Reader R) (fuel a : ℕ) (source : R) (bytes : List ℕ) (m : Memory)
      → reader.contents source ≡ bytes
      → length bytes < fuel
      → a + length bytes < 2 ^ 32
      → IsValid m
      → Settles
          (Shows (copy_at (byte_at m) a bytes))
          (set_memory_range keccak256 reader fuel a source m)
  range-Shows reader fuel a source bytes m e enough fits v =
      let (m', returns, fills) =
        set_memory_range-Fills keccak256 reader fuel a source m (rw e enough) (omega arith)
          (rw e (omega arith)) v in
      rw returns (fills.valid, fills.view ∙ ap (copy_at (byte_at m) a) e)

  write_segment-Shows :
      (s : Segment) (bytes : List ℕ) (m : Memory)
      → s.p_filesz ≤ length bytes
      → s.p_filesz ≤ s.p_memsz
      → s.p_vaddr + s.p_memsz < 2 ^ 32
      → IsValid m
      → Settles
          (Shows (copy_at (byte_at m) s.p_vaddr (image s bytes)))
          (write_segment keccak256 s (take s.p_filesz bytes) m)
  unfolding write_segment
  write_segment-Shows s bytes m enough filled fits v =
      let section : List ℕ = take s.p_filesz bytes in
      let zeros : List ℕ = replicate (s.p_memsz - s.p_filesz) 0 in
      let taken : length section ≡ s.p_filesz = omega (arith, length-take s.p_filesz bytes) in
      let total : length (section ++ zeros) ≡ s.p_memsz = omega (
        arith,
        length-append section zeros,
        length-replicate {A = ℕ} (s.p_memsz - s.p_filesz) 0,
        taken,
      ) in
      let place : u32 s.p_vaddr ≡ s.p_vaddr = omega arith in
      elim (Bool-cases (s.p_filesz == s.p_memsz)) [
        | inl same ↦
            let e : s.p_filesz ≡ s.p_memsz = (==_iff s.p_filesz s.p_memsz).0 same in
            let none_left : s.p_memsz - s.p_filesz ≡ 0 = omega (arith, e) in
            let whole : section ≡ section ++ zeros =
              sym (append-nil section)
              ∙ ap (λ (n : ℕ). section ++ replicate {A = ℕ} n 0) (sym none_left) in
            rw (same, place)
              (range-Shows slice_reader (suc (length section)) s.p_vaddr section (section ++ zeros)
                m whole (omega (arith, total, taken, e)) (omega (arith, total)) v)
        | inr longer ↦
            rw (longer, place)
              (range-Shows (multi_reader slice_reader slice_reader)
                (suc (length section + (s.p_memsz - s.p_filesz))) s.p_vaddr
                (record { first = section; second = zeros }) (section ++ zeros) m refl
                (omega (arith, total, taken)) (omega (arith, total)) v)
      ]

  sizes-Settles : (s : Segment) → Settles (λ _. s.p_filesz ≤ s.p_memsz) (check_sizes s)
  unfolding check_sizes
  sizes-Settles s = ground arith

  contents-Shows :
      (s : Segment) (contents : Option (List ℕ)) (m : Memory)
      → s.p_vaddr + s.p_memsz < 2 ^ 64
      → IsValid m
      → Settles
          (Shows (elim contents [
            | none ↦ byte_at m
            | some bytes ↦ copy_at (byte_at m) s.p_vaddr (image s bytes)
          ]))
          (load_contents keccak256 s contents m)
  unfolding load_contents
  contents-Shows s none m fits v = tt
  contents-Shows s (some bytes) m fits v =
      let Q = Shows (copy_at (byte_at m) s.p_vaddr (image s bytes)) in
      Settles-bind (λ _. ltb (length bytes) s.p_filesz ≡ false) Q
        (panic_if (ltb (length bytes) s.p_filesz)) _
        (panic_if-Settles (ltb (length bytes) s.p_filesz))
        λ _ enough.
          Settles-bind (λ _. s.p_filesz ≤ s.p_memsz) Q (check_sizes s) _ (sizes-Settles s)
            λ _ filled.
              Settles-bind (λ _. leb (2 ^ 32) (u64 (s.p_vaddr + s.p_memsz)) ≡ false) Q
                (bail_if (leb (2 ^ 32) (u64 (s.p_vaddr + s.p_memsz)))
                  (segment_out_of_range s.p_vaddr))
                _
                (bail_if-Settles (leb (2 ^ 32) (u64 (s.p_vaddr + s.p_memsz)))
                  (segment_out_of_range s.p_vaddr))
                λ _ low.
                  write_segment-Shows s bytes m (ground (arith, enough)) filled
                    (ground (arith, low, fits)) v

  -- The checks before the write.
  load_segment-Shows :
      (s : Segment) (m : Memory)
      → s.p_vaddr + s.p_memsz < 2 ^ 64
      → IsValid m
      → Settles (Shows (overlay_one s (byte_at m))) (load_segment keccak256 s m)
  unfolding load_segment
  load_segment-Shows s m fits v = elim (Bool-cases (s.p_type == 0x70000003)) [
    | inl skipped ↦ rw skipped (v, refl)
    | inr kept ↦ rw kept (contents-Shows s s.contents m fits v)
  ]

  load_segments-Shows :
      (segments : List Segment) (view : ℕ → ℕ) (m : Memory)
      → EndsFit segments
      → Shows view m
      → Settles (Shows (overlay segments view)) (load_segments keccak256 segments m)
  unfolding load_segments overlay
  load_segments-Shows [] view m fits v = v
  load_segments-Shows (s ∷ segments) view m (fit, fits) (v, same) =
      Settles-bind (Shows (overlay_one s view)) (Shows (overlay segments (overlay_one s view)))
        (load_segment keccak256 s m) _
        (subst (λ w. Settles (Shows (overlay_one s w)) (load_segment keccak256 s m)) same
          (load_segment-Shows s m fit v))
        λ m' h. load_segments-Shows segments (overlay_one s view) m' fits h

  empty_view : byte_at Memory.default ≡ (λ _. 0)
  empty_view = fun_ext λ a. view_absent Memory.default a (lookup-nil {V = ℕ} (a / 4096))

  -- `load_elf` on a file that parses to an entry point and headers whose ends are u64 values: it
  -- returns, an error or a panic included; if it returns a state, its memory is valid and shows the
  -- segments laid over zeros in their order, and it starts at the entry point.
  pub load_elf-Loads :
      (minimal_parse : ElfParser) (raw : List ℕ) (entry : ℕ) (segments : List Segment)
      → minimal_parse raw ≡ some (record { e_entry = entry; segments = some segments })
      → EndsFit segments
      → Settles
          (λ s.
            Shows (overlay segments (λ _. 0)) s.memory
            × (s.pc ≡ u32 entry)
            × (s.next_pc ≡ add32 (u32 entry) 4)
            × (s.step ≡ 0))
          (load_elf keccak256 minimal_parse raw)
  unfolding load_elf default_state
  load_elf-Loads minimal_parse raw entry segments parsed fits = rw parsed (
      Settles-bind (Shows (overlay segments (λ _. 0))) _
        (load_segments keccak256 segments Memory.default) _
        (load_segments-Shows segments (λ _. 0) Memory.default fits (default-IsValid, empty_view))
        λ m' h. (h, refl, refl, refl))
