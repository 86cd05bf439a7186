-- ===== src/Common/Int.antt =====
-- Signed integers over the native numbers: Go's `int` and `time.Duration`, as far as they stay in
-- range. Tests go through the two parts of an integer.
use Prim.Native.Nat.{ℕ, suc, ◌+◌, ◌-◌, ◌*◌, ◌%◌, ◌^◌, ◌≤◌}
use Prim.Native.Nat.{◌<◌}
use mathlib.Core.Path.{◌≡◌, ap, ◌∙◌}
use mathlib.Core.Bool.{Bool}
use native.Mathlib.Omega.{arith}
use orchestrix_api.Common.Tests.{ltb, leb, if◌then◌else◌}

-- `negsuc n` is -(n + 1).
pub data ℤ : Type 0 where
  pos : ℕ → ℤ
  negsuc : ℕ → ℤ

abbrev pub pos_part : ℤ → ℕ
pos_part (pos n) = n
pos_part (negsuc n) = 0

abbrev pub neg_part : ℤ → ℕ
neg_part (pos n) = 0
neg_part (negsuc n) = suc n

-- a - b, as an integer.
abbrev pub sub_ℕ : ℕ → ℕ → ℤ
sub_ℕ a b = if leb b a then pos (a - b) else negsuc (b - a - 1)

abbrev pub ltb_ℤ : ℤ → ℤ → Bool
ltb_ℤ a b = ltb (pos_part a + neg_part b) (pos_part b + neg_part a)

abbrev pub leb_ℤ : ℤ → ℤ → Bool
leb_ℤ a b = leb (pos_part a + neg_part b) (pos_part b + neg_part a)

infix 50 ◌≤ℤ◌
abbrev pub ◌≤ℤ◌ : ℤ → ℤ → Type 0
a ≤ℤ b = pos_part a + neg_part b ≤ pos_part b + neg_part a

-- n * a for a number n
abbrev pub scale : ℕ → ℤ → ℤ
scale n a = sub_ℕ (n * pos_part a) (n * neg_part a)

-- What is left of an integer in a w-bit two's complement word, and the word read as signed.
abbrev pub to_word : ℕ → ℤ → ℕ
to_word w (pos n) = n % 2 ^ w
to_word w (negsuc n) = 2 ^ w - 1 - n % 2 ^ w

abbrev pub of_word : ℕ → ℕ → ℤ
of_word w u = if ltb u (2 ^ (w - 1)) then pos u else negsuc (2 ^ w - 1 - u)

-- Go's arithmetic on `int`, and its conversions to `int32`.
unfoldable pub wrap : ℕ → ℤ → ℤ
wrap w a = of_word w (to_word w a)

-- (page - 1) * limit on `int`
abbrev product : ℤ → ℤ → ℤ
product a b =
    sub_ℕ (pos_part a * pos_part b + neg_part a * neg_part b)
      (pos_part a * neg_part b + neg_part a * pos_part b)

unfoldable pub page_offset : ℤ → ℤ → ℤ
page_offset page limit =
    wrap 64 (product (wrap 64 (sub_ℕ (pos_part page) (neg_part page + 1))) limit)

-- A number in range is left as it is.
pub wrap-small : (n : ℕ) → n < 2 ^ 63 → wrap 64 (pos n) ≡ pos n
unfolding wrap
wrap-small n lt = ground arith

pub wrap_32-small : (n : ℕ) → n < 2 ^ 31 → wrap 32 (pos n) ≡ pos n
unfolding wrap
wrap_32-small n lt = ground arith

-- Without an overflow the offset is the product that it is meant to be.
pub page_offset-small :
    (page limit : ℕ)
    → page < 2 ^ 63
    → page * limit < 2 ^ 63
    → page_offset (pos (suc page)) (pos limit) ≡ pos (page * limit)
unfolding page_offset
page_offset-small page limit small fits =
    let before : wrap 64 (sub_ℕ (suc page) 1) ≡ pos page =
      ap (λ a. wrap 64 a) (ground arith) ∙ wrap-small page small in
    let whole : product (pos page) (pos limit) ≡ pos (page * limit) = ground arith in
    ap (λ b. wrap 64 (product b (pos limit))) before
    ∙ ap (λ a. wrap 64 a) whole
    ∙ wrap-small (page * limit) fits
