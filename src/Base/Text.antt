-- ===== src/Base/Text.antt =====
-- `strings.TrimSpace` of the Go standard library, over the characters of a text.
use Prim.Native.Char.{code}
use Prim.Native.String.{String}
use mathlib.Core.Path.{◌≡◌, refl}
use mathlib.Core.Bool.{Bool, ◌&&◌, ◌||◌}
use Prim.Native.Nat.{ℕ}
use etemsg_server.Base.Tests.{◌==◌, ◌=ℕ◌, leb, if◌then◌else◌, dec_text}

-- `unicode.IsSpace`
unfoldable pub is_space : ℕ → Bool
is_space c =
    (leb 9 c && leb c 13)
    || c =ℕ 32
    || c =ℕ 0x85
    || c =ℕ 0xa0
    || c =ℕ 0x1680
    || (leb 0x2000 c && leb c 0x200a)
    || c =ℕ 0x2028
    || c =ℕ 0x2029
    || c =ℕ 0x202f
    || c =ℕ 0x205f
    || c =ℕ 0x3000

unfoldable pub trim_left : String → String
unfolding is_space
trim_left String.[] = String.[]
trim_left (String.◌∷◌ c s) =
    let rest = trim_left s in if is_space (code c) then rest else String.◌∷◌ c s

unfoldable pub trim_right : String → String
unfolding is_space
trim_right String.[] = String.[]
trim_right (String.◌∷◌ c s) =
    let rest = trim_right s in
    if is_space (code c) && rest == "" then String.[] else String.◌∷◌ c rest

unfoldable pub trim_space : String → String
unfolding trim_left trim_right
trim_space s = trim_right (trim_left s)

trim_space_example : trim_space "  a b\n" ≡ "a b"
unfolding trim_space dec_text
trim_space_example = refl
