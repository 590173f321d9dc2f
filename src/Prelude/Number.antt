-- ===== src/Prelude/Number.antt =====
-- The numbers of the source's language as far as its checks tell them apart: natural numbers,
-- negative integers, and everything else (fractions, infinities, NaN).
use Prim.Native.Nat.{ℕ, ◌≤◌, ◌<◌}
use mathlib.Core.Path.{◌≡◌}
use mathlib.Core.Bool.{◌&&◌}
use mathlib.Core.Option.{Option, none, some}
use native.Mathlib.Omega.{arith}
use flash_card.Prelude.Tests.{leb, ltb, if◌then◌else◌}

pub data Number : Type 0 where
  nat : ℕ → Number
  negative : ℕ → Number  -- `negative n` is -(n + 1)
  other : Number

-- Number.MAX_SAFE_INTEGER, 2 ^ 53 - 1
abbrev pub max_safe_integer : ℕ
max_safe_integer = 9007199254740991

-- `Number.isSafeInteger(x) && x >= 0`, with the number that it lets through
abbrev pub safe_natural? : Number → Option ℕ
safe_natural? (nat n) = if leb n max_safe_integer then some n else none
safe_natural? (negative n) = none
safe_natural? other = none

-- `Number.isSafeInteger(x) && x > 0`
abbrev pub safe_positive? : Number → Option ℕ
safe_positive? (nat n) = if leb n max_safe_integer && ltb 0 n then some n else none
safe_positive? (negative n) = none
safe_positive? other = none

pub safe_positive?_bounds :
    (x : Number) (n : ℕ) → safe_positive? x ≡ some n → (0 < n) × (n ≤ max_safe_integer)
safe_positive?_bounds (nat m) n h = ground arith
safe_positive?_bounds (negative m) n h = cc
safe_positive?_bounds other n h = cc

pub safe_natural?_bounds : (x : Number) (n : ℕ) → safe_natural? x ≡ some n → n ≤ max_safe_integer
safe_natural?_bounds (nat m) n h = ground arith
safe_natural?_bounds (negative m) n h = cc
safe_natural?_bounds other n h = cc
