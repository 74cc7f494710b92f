-- ===== src/Utf8.antt =====
-- `bytes.decode('utf-8', errors)` and `str.encode('latin1')` of Python, as VMM_Hygine_Report.py uses
-- them on the files that it reads.
pub mod Laws
use linuxtools.Base.{
  ℕ, zero, suc, ◌+◌, ◌-◌, ◌*◌, ◌<◌, Bool, true, false, ◌&&◌, List, [], ◌∷◌, ◌++◌, leb, ltb, ◌==◌,
  if◌then◌else◌, Result, ok, raise, unicode_error, ◌>>=◌,
}
use linuxtools.Str.{Text}

-- Between two characters, or inside one: the bytes that are missing, the bits so far, and the range
-- of the next byte.
pub data Decoder : Type 0 where
  start : Decoder
  inside : ℕ → ℕ → ℕ → ℕ → Decoder

-- A character that was read, and the state after it.
pub record Decoded : Type 0 where
  pub out : Text
  pub next : Decoder

abbrev emit : Text → Decoded
emit out = record { out = out; next = start }

abbrev expect : Text → ℕ → ℕ → ℕ → ℕ → Decoded
expect out missing bits lo hi = record { out = out; next = inside missing bits lo hi }

-- A byte that begins a character; `out` was decoded before it, and `bad` stands for a byte that
-- cannot begin one.
unfoldable pub lead : Text → Text → ℕ → Decoded
lead bad out b =
    if ltb b 0x80
    then emit (out ++ (b ∷ []))
    else if leb 0xC2 b && leb b 0xDF
    then expect out 1 (b - 0xC0) 0x80 0xBF
    else if b == 0xE0
    then expect out 2 (b - 0xE0) 0xA0 0xBF
    else if b == 0xED
    then expect out 2 (b - 0xE0) 0x80 0x9F
    else if leb 0xE1 b && leb b 0xEF
    then expect out 2 (b - 0xE0) 0x80 0xBF
    else if b == 0xF0
    then expect out 3 (b - 0xF0) 0x90 0xBF
    else if leb 0xF1 b && leb b 0xF3
    then expect out 3 (b - 0xF0) 0x80 0xBF
    else if b == 0xF4
    then expect out 3 (b - 0xF0) 0x80 0x8F
    else emit (out ++ bad)

-- One byte. A byte outside the range ends a broken character, and may begin the next one.
unfoldable pub step : Text → Decoder → ℕ → Decoded
step bad start b = lead bad [] b
step bad (inside missing bits lo hi) b =
    if leb lo b && leb b hi
    then (if missing == 1
        then emit ((bits * 64 + (b - 0x80)) ∷ [])
        else expect [] (missing - 1) (bits * 64 + (b - 0x80)) 0x80 0xBF)
    else lead bad bad b

-- `bad` is what an error gives: nothing for 'ignore', U+FFFD for 'replace'.
unfoldable pub decode_from : Text → Decoder → List ℕ → Text
decode_from bad start [] = []
decode_from bad (inside _ _ _ _) [] = bad
decode_from bad s (b ∷ bs) = (step bad s b).out ++ decode_from bad (step bad s b).next bs

-- `decode('utf-8', errors='ignore')`
unfoldable pub decode_ignore : List ℕ → Text
decode_ignore = decode_from [] start

-- `encode('latin1')`
unfoldable pub encode_latin1 : Text → Result (List ℕ)
encode_latin1 [] = ok []
encode_latin1 (c ∷ cs) =
    let rest = encode_latin1 cs in
    if ltb c 256 then (do bs ← rest; ok (c ∷ bs)) else raise unicode_error
