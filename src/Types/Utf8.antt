-- ===== src/Types/Utf8.antt =====
-- `std::str::from_utf8`: which byte strings are UTF-8.
use graphdblite.Base.{
  ℕ, ◌<◌, ◌≡◌, refl, Bool, true, false, ◌&&◌, Option, none, some, List, [], ◌∷◌, arith, leb, ltb,
  ◌==◌, if◌then◌else◌, Bytes, All,
}

abbrev Range : Type 0
Range = ℕ × ℕ

abbrev continuation : Range
continuation = (0x80, 0xbf)

-- The ranges of the bytes that follow a first byte: no overlong form, no surrogate, at most U+10FFFF.
abbrev followers : ℕ → Option (List Range)
followers b =
    if ltb b 0x80
    then some []
    else if leb 0xc2 b && leb b 0xdf
    then some (continuation ∷ [])
    else if b == 0xe0
    then some ((0xa0, 0xbf) ∷ continuation ∷ [])
    else if b == 0xed
    then some ((0x80, 0x9f) ∷ continuation ∷ [])
    else if leb 0xe1 b && leb b 0xef
    then some (continuation ∷ continuation ∷ [])
    else if b == 0xf0
    then some ((0x90, 0xbf) ∷ continuation ∷ continuation ∷ [])
    else if leb 0xf1 b && leb b 0xf3
    then some (continuation ∷ continuation ∷ continuation ∷ [])
    else if b == 0xf4
    then some ((0x80, 0x8f) ∷ continuation ∷ continuation ∷ [])
    else none

utf8_from : List Range → Bytes → Bool
utf8_from [] [] = true
utf8_from [] (b ∷ bs) = elim (followers b) [ none ↦ false | some ranges ↦ utf8_from ranges bs ]
utf8_from (r ∷ ranges) [] = false
utf8_from ((lo, hi) ∷ ranges) (b ∷ bs) = (leb lo b && leb b hi) && utf8_from ranges bs

unfoldable pub is_utf8 : Bytes → Bool
unfolding utf8_from
is_utf8 = utf8_from []

-- ASCII is UTF-8.
pub is_utf8_ascii : (bs : Bytes) → All (λ b. b < 128) bs → is_utf8 bs ≡ true
unfolding is_utf8
is_utf8_ascii [] h = refl
is_utf8_ascii (b ∷ bs) (hb, h) = ground (arith, is_utf8_ascii bs h)
