-- ===== src/Base/Text.antt =====
-- Text that the source trims: a list of UTF-16 code units. Whatever it only compares (ids, codes,
-- names) is a number in this development.
use Prim.Native.Nat.{ℕ}
use mathlib.Core.Bool.{Bool, true, false, ◌&&◌, ◌||◌}
use mathlib.Core.List.{List, [], ◌∷◌}
use fun_makers_system.Base.Tests.{leb, ◌==◌, if◌then◌else◌}

abbrev pub Text : Type 0
Text = List ℕ

-- What `String.prototype.trim` removes: ECMAScript white space and line terminators.
abbrev pub is_white : ℕ → Bool
is_white c =
    (leb 9 c && leb c 13)
    || c == 32
    || c == 160
    || c == 5760
    || (leb 8192 c && leb c 8202)
    || c == 8232
    || c == 8233
    || c == 8239
    || c == 8287
    || c == 12288
    || c == 65279

-- `!s || s.trim().length === 0`: nothing but white space.
unfoldable pub is_blank : Text → Bool
is_blank [] = true
is_blank (c ∷ cs) = let rest = is_blank cs in if is_white c then rest else false
