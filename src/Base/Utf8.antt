-- ===== src/Base/Utf8.antt =====
-- String::from_utf8: the bytes that are well-formed UTF-8.
use Prim.Native.Nat.{ℕ, ◌-◌}
use mathlib.Core.Path.{◌≡◌, refl}
use mathlib.Core.Bool.{Bool, true, false, ◌&&◌}
use mathlib.Core.List.{[], ◌∷◌}
use native.Mathlib.Omega.{arith}
use hysj.Base.Tests.{Bytes, ltb, leb, ◌==◌, if◌then◌else◌}

-- How many bytes must follow, and the range of the next.
record Expected : Type 0 where
  valid : Bool
  count : ℕ
  low : ℕ
  high : ℕ

abbrev expect : ℕ → ℕ → ℕ → Expected
expect count low high = record { valid = true; count = count; low = low; high = high }

abbrev between : ℕ → ℕ → ℕ → Bool
between low high b = leb low b && leb b high

-- After a first byte. No surrogate, no overlong form, nothing above 0x10ffff.
abbrev after_first : ℕ → Expected
after_first b =
    if ltb b 0x80
    then expect 0 0 0
    else if between 0xc2 0xdf b
    then expect 1 0x80 0xbf
    else if b == 0xe0
    then expect 2 0xa0 0xbf
    else if b == 0xed
    then expect 2 0x80 0x9f
    else if between 0xe1 0xef b
    then expect 2 0x80 0xbf
    else if b == 0xf0
    then expect 3 0x90 0xbf
    else if between 0xf1 0xf3 b
    then expect 3 0x80 0xbf
    else if b == 0xf4
    then expect 3 0x80 0x8f
    else record { valid = false; count = 0; low = 0; high = 0 }

abbrev after : Expected → ℕ → Expected
after e b =
    if e.count == 0
    then after_first b
    else record { valid = between e.low e.high b; count = e.count - 1; low = 0x80; high = 0xbf }

unfoldable follows : Expected → Bytes → Bool
follows e [] = e.count == 0
follows e (b ∷ bs) = let next = after e b in next.valid && follows next bs

unfoldable pub is_utf8 : Bytes → Bool
unfolding follows
is_utf8 bytes = follows (expect 0 0 0) bytes

abbrev pub is_ascii : Bytes → Bool
is_ascii [] = true
is_ascii (b ∷ bs) = ltb b 0x80 && is_ascii bs

follows-ascii : (bytes : Bytes) → is_ascii bytes ≡ true → follows (expect 0 0 0) bytes ≡ true
unfolding follows
follows-ascii [] h = refl
follows-ascii (b ∷ bs) h = ground (arith, follows-ascii bs)

pub is_utf8-ascii : (bytes : Bytes) → is_ascii bytes ≡ true → is_utf8 bytes ≡ true
unfolding is_utf8
is_utf8-ascii bytes h = follows-ascii bytes h
