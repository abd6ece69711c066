-- ===== src/Common/Text.antt =====
-- Python strings that the program only compares or measures, and Decimal amounts.
use Prim.Native.Nat.{ℕ, suc, Ordering}
use Prim.Native.String.{String, compare, len, slice}
use mathlib.Core.Path.{◌≡◌}
use mathlib.Core.Logic.{◌↔◌}
use mathlib.Core.Bool.{Bool, true, false}
use inferrail.Common.Tests.{if◌then◌else◌}
use mathlib.Core.Option.{Option, none, some}
use native.Mathlib.Omega.{arith}
use text.Mathlib.Text.{◌==◌}
use text.Mathlib.TextEquality.{eq_iff}

unfoldable pub same_text : String → String → Bool
same_text s t = s == t

pub same_text_iff : (s t : String) → (same_text s t ≡ true) ↔ (s ≡ t)
unfolding same_text
same_text_iff s t = eq_iff s t

-- `==` on `str | None`
unfoldable pub same_text? : Option String → Option String → Bool
unfolding same_text
same_text? none none = true
same_text? none (some _) = false
same_text? (some _) none = false
same_text? (some s) (some t) = same_text s t

pub same_text?_iff : (s t : Option String) → (same_text? s t ≡ true) ↔ (s ≡ t)
unfolding same_text?
same_text?_iff none none = ground arith
same_text?_iff none (some t) = ground arith
same_text?_iff (some s) none = ground arith
same_text?_iff (some s) (some t) = ground (arith, eq_iff s t)

-- Python's `len`: the number of code points
unfoldable pub count_chars : String → ℕ
count_chars String.[] = 0
count_chars (String.◌∷◌ c s) = suc (count_chars s)

-- the truth value of a `str`
unfoldable pub non_empty : String → Bool
non_empty String.[] = false
non_empty (String.◌∷◌ c s) = true

-- Python's `<=` on strings: by code points, as SQLite orders their UTF-8
abbrev pub leb_text : String → String → Bool
leb_text s t = elim (compare s t) [ Ordering.gt ↦ false | _ ↦ true ]

-- `text.startswith(prefix)` and `text.removeprefix(prefix)`
unfoldable pub starts_with : String → String → Bool
unfolding same_text
starts_with prefix t = same_text (slice t 0 (len prefix)) prefix

unfoldable pub remove_prefix : String → String → String
unfolding starts_with
remove_prefix prefix t = if starts_with prefix t then slice t (len prefix) (len t) else t
