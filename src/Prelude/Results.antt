-- ===== src/Prelude/Results.antt =====
-- Results of fallible code: `anyhow::Result`, with a panic and a recursion that does not end told
-- apart from an error.
use mathlib.Core.Bool.{Bool, true, false}
use Prim.Native.Nat.{ℕ}
use mathlib.Core.Path.{◌≡◌, refl}
use cannon_rs.Prelude.Tests.{if◌then◌else◌}

-- One constructor for each `anyhow::bail!` that the modelled code makes, and two for the errors of
-- the code that it is given.
pub data Error : Type 0 where
  unaligned_access : ℕ → Error
  gindex_too_deep : Error
  intermediate_node : Error
  traversed_too_deep : Error
  invalid_page_address : ℕ → Error
  different_memory_access : ℕ → Error
  branch_in_delay_slot : ℕ → Error
  jump_in_delay_slot : ℕ → Error
  invalid_register : ℕ → Error
  invalid_function : ℕ → Error
  invalid_opcode : ℕ → Error
  invalid_fd : ℕ → Error
  invalid_syscall : ℕ → Error
  duplicate_page : ℕ → Error
  io_error : Error
  oracle_error : Error
  server_exited : Error
  invalid_pattern : Error
  hint_failed : Error
  no_step_witness : Error
  elf_error : Error
  no_segments : Error
  segment_too_long : Error
  unsupported_filling : Error
  segment_out_of_range : ℕ → Error
  invalid_preimage : Error
  no_image : Error
  invalid_hex : Error
  invalid_patch_kind : Error

pub data Result {ℓ} (A : Type ℓ) : Type ℓ where
  ok : A → Result A
  err : Error → Result A
  -- The thread panics: an index out of range, a division by zero, an explicit `panic!`.
  panic : Result A
  -- The fuel of a loop or a recursion ran out.
  diverge : Result A

infixl 5 ◌>>=◌ ◌>>◌
abbrev pub ◌>>=◌ {ℓ κ} : {A : Type ℓ} {B : Type κ} → Result A → (A → Result B) → Result B
ok a >>= f = f a
err e >>= f = err e
panic >>= f = panic
diverge >>= f = diverge

abbrev pub ◌>>◌ {ℓ κ} : {A : Type ℓ} {B : Type κ} → Result A → Result B → Result B
m >> k = m >>= λ _. k

-- `if cond { bail!(e) }`.
abbrev pub bail_if : Bool → Error → Result (Unit {0})
bail_if true e = err e
bail_if false e = ok tt

-- `if cond { panic!() }`.
abbrev pub panic_if : Bool → Result (Unit {0})
panic_if true = panic
panic_if false = ok tt

abbrev pub map_ok {ℓ κ} : {A : Type ℓ} {B : Type κ} → (A → B) → Result A → Result B
map_ok f (ok a) = ok (f a)
map_ok f (err e) = err e
map_ok f panic = panic
map_ok f diverge = diverge

-- The value of a result, if there is one, has the property.
abbrev pub Holds {ℓ κ} : {A : Type ℓ} → (A → Type κ) → Result A → Type κ
Holds P (ok a) = P a
Holds P (err e) = Unit
Holds P panic = Unit
Holds P diverge = Unit

pub Holds-bind {ℓ κ μ ν} :
    {A : Type ℓ} {B : Type κ} (P : A → Type μ) (Q : B → Type ν) (r : Result A) (f : A → Result B)
    → Holds P r
    → ((a : A) → P a → Holds Q (f a))
    → Holds Q (r >>= f)
Holds-bind P Q (ok a) f h k = k a h
Holds-bind P Q (err e) f h k = tt
Holds-bind P Q panic f h k = tt
Holds-bind P Q diverge f h k = tt

pub Holds-any {ℓ κ} : {A : Type ℓ} (P : A → Type κ) (r : Result A) → ((a : A) → P a) → Holds P r
Holds-any P (ok a) k = k a
Holds-any P (err e) k = tt
Holds-any P panic k = tt
Holds-any P diverge k = tt

-- A bind whose continuation keeps the property whatever it is given.
pub Holds-then {ℓ κ μ} :
    {A : Type ℓ} {B : Type κ} (Q : B → Type μ) (r : Result A) (f : A → Result B)
    → ((a : A) → Holds Q (f a))
    → Holds Q (r >>= f)
Holds-then Q (ok a) f k = k a
Holds-then Q (err e) f k = tt
Holds-then Q panic f k = tt
Holds-then Q diverge f k = tt

pub Holds-if {ℓ κ} :
    {A : Type ℓ} (P : A → Type κ) (b : Bool) (r r' : Result A)
    → Holds P r
    → Holds P r'
    → Holds P (if b then r else r')
Holds-if P true r r' h k = h
Holds-if P false r r' h k = k

pub Holds-value {ℓ} : {A : Type ℓ} (r : Result A) → Holds (λ a. r ≡ ok a) r
Holds-value (ok a) = refl
Holds-value (err e) = tt
Holds-value panic = tt
Holds-value diverge = tt

-- Inversion of a bind that gives a value.
pub >>=-eq-ok {ℓ κ} :
    {A : Type ℓ} {B : Type κ} (r : Result A) (f : A → Result B) {b : B}
    → (r >>= f) ≡ ok b
    → (a : A) × (r ≡ ok a) × (f a ≡ ok b)
>>=-eq-ok (ok a) f h = (a, refl, h)
>>=-eq-ok (err e) f h = cc
>>=-eq-ok panic f h = cc
>>=-eq-ok diverge f h = cc

-- Two continuations that agree on the values that a result can have.
pub bind_agree {ℓ κ μ} :
    {A : Type ℓ} {B : Type κ} (P : A → Type μ) (r : Result A) (f g : A → Result B)
    → Holds P r
    → ((a : A) → P a → f a ≡ g a)
    → (r >>= f) ≡ (r >>= g)
bind_agree P (ok a) f g h k = k a h
bind_agree P (err e) f g h k = refl
bind_agree P panic f g h k = refl
bind_agree P diverge f g h k = refl

pub Holds-branch {ℓ κ} :
    {A : Type ℓ} (P : A → Type κ) (b : Bool) (r r' : Result A)
    → (b ≡ true → Holds P r)
    → (b ≡ false → Holds P r')
    → Holds P (if b then r else r')
Holds-branch P true r r' h k = h refl
Holds-branch P false r r' h k = k refl

pub Holds-weaken {ℓ κ μ} :
    {A : Type ℓ} (P : A → Type κ) (Q : A → Type μ) (r : Result A)
    → Holds P r
    → ((a : A) → P a → Q a)
    → Holds Q r
Holds-weaken P Q (ok a) h k = k a h
Holds-weaken P Q (err e) h k = tt
Holds-weaken P Q panic h k = tt
Holds-weaken P Q diverge h k = tt

pub Holds-both {ℓ κ μ} :
    {A : Type ℓ} (P : A → Type κ) (Q : A → Type μ) (r : Result A)
    → Holds P r
    → Holds Q r
    → Holds (λ a. P a × Q a) r
Holds-both P Q (ok a) h k = (h, k)
Holds-both P Q (err e) h k = tt
Holds-both P Q panic h k = tt
Holds-both P Q diverge h k = tt

-- The same, and the fuel does not run out.
abbrev pub Settles {ℓ} : {A : Type ℓ} → (A → Type 0) → Result A → Type 0
Settles P (ok a) = P a
Settles P (err e) = Unit
Settles P panic = Unit
Settles P diverge = ⊥

pub Settles-bind {ℓ κ} :
    {A : Type ℓ} {B : Type κ} (P : A → Type 0) (Q : B → Type 0) (r : Result A) (f : A → Result B)
    → Settles P r
    → ((a : A) → P a → Settles Q (f a))
    → Settles Q (r >>= f)
Settles-bind P Q (ok a) f h k = k a h
Settles-bind P Q (err e) f h k = tt
Settles-bind P Q panic f h k = tt
Settles-bind P Q diverge f h k = absurd h

pub panic_if-Settles : (b : Bool) → Settles (λ _. b ≡ false) (panic_if b)
panic_if-Settles true = tt
panic_if-Settles false = refl

pub bail_if-Settles : (b : Bool) (e : Error) → Settles (λ _. b ≡ false) (bail_if b e)
bail_if-Settles true e = tt
bail_if-Settles false e = refl

-- There is a value, and it has the property.
abbrev pub Succeeds {ℓ} : {A : Type ℓ} → (A → Type 0) → Result A → Type 0
Succeeds P (ok a) = P a
Succeeds P (err e) = ⊥
Succeeds P panic = ⊥
Succeeds P diverge = ⊥
