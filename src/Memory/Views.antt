-- ===== src/Memory/Views.antt =====
-- The flat view of memory after a change of one page, for crates/mipsevm/src/memory.rs.
use cannon_rs.Prelude.{
  ℕ, ◌+◌, ◌-◌, ◌*◌, ◌/◌, ◌%◌, ◌<◌, ◌≤◌, ◌≡◌, ◌≢◌, refl, sym, ap, ◌∙◌, Option, none, some, List,
  copy_at, copy_at_below, copy_at_above, copy_at_shift, length, lookup, arith, fun_ext,
}
use native.Mathlib.Decide.{ℕ_discrete}
use cannon_rs.Page.{CachedPage}
use cannon_rs.Memory.{Memory}
use cannon_rs.Memory.Invariant.{byte_at, page_byte}
use cannon_rs.Memory.Changes.{PageChange, byte_at-other}

-- The page of the view.
pub view_page :
    (m : Memory) (a r k : ℕ) (page : CachedPage)
    → lookup (a / 4096) m.pages ≡ some r
    → m.store r ≡ page
    → a % 4096 ≡ k
    → byte_at m a ≡ page.bytes k
unfolding byte_at page_byte
view_page m a r k page found e h = rw (found, page_byte, e, h)

pub view_absent : (m : Memory) (a : ℕ) → lookup (a / 4096) m.pages ≡ none → byte_at m a ≡ 0
unfolding byte_at page_byte
view_absent m a absent = rw absent

pub page_start : (i k : ℕ) → k < 4096 → (i * 4096 + k) / 4096 ≡ i
page_start i k h = omega arith

pub byte_at_pages :
    (m m' : Memory) → m'.pages ≡ m.pages → m'.store ≡ m.store → byte_at m' ≡ byte_at m
unfolding byte_at page_byte
byte_at_pages m m' pages store =
    fun_ext λ a. rw (pages) (by_page (lookup (a / 4096) m.pages) (a % 4096))
  where
    by_page : (found : Option ℕ) (k : ℕ) → page_byte m' found k ≡ page_byte m found k
    by_page none k = refl
    by_page (some r) k = ap (λ (s : ℕ → CachedPage). (s r).bytes k) store

-- The view after a write inside a page.
pub changed_view :
    (a r : ℕ) (ws : List ℕ) (m m' : Memory) (bytes : ℕ → ℕ)
    → PageChange (a / 4096) r m m'
    → a % 4096 + length ws ≤ 4096
    → (m'.store r).bytes ≡ copy_at bytes (a % 4096) ws
    → ((k : ℕ) → k < 4096 → bytes k ≡ byte_at m (a / 4096 * 4096 + k))
    → byte_at m' ≡ copy_at (byte_at m) a ws
changed_view a r ws m m' bytes c fits wrote was = fun_ext λ b.
    elim (ℕ_discrete (b / 4096) (a / 4096)) [
      | yes here ↦
          let e : a / 4096 * 4096 + a % 4096 ≡ a = omega arith in
          let f : a / 4096 * 4096 + b % 4096 ≡ b = omega arith in
          view_page m' b r (b % 4096) (m'.store r) (rw here (c.there)) refl refl
          ∙ ap (λ (g : ℕ → ℕ). g (b % 4096)) wrote
          ∙ rw (e, f) at
              (copy_at_shift bytes (byte_at m) (a / 4096 * 4096) (a % 4096) ws (b % 4096)
                (was (b % 4096) (omega arith)))
      | no off ↦ byte_at-other (a / 4096) r b m m' c off ∙ outside b off
    ]
  where
    outside : (b : ℕ) → b / 4096 ≢ a / 4096 → byte_at m b ≡ copy_at (byte_at m) a ws b
    outside b off = elim (ℕ_discrete ((a / 4096) - (b / 4096)) 0) [
      | yes above ↦ sym (copy_at_above (byte_at m) a ws b (omega arith))
      | no below ↦ sym (copy_at_below (byte_at m) a ws b (omega arith))
    ]
