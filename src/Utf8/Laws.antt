-- ===== src/Utf8/Laws.antt =====
-- What the two conversions leave of a file's bytes.
use linuxtools.Base.{ℕ, ◌≡◌, ◌<◌, refl, List, [], ◌∷◌, arith, All, ok}
use linuxtools.Str.{Text}
use linuxtools.Utf8.{start, lead, step, decode_from, decode_ignore, encode_latin1}

abbrev pub IsAscii : ℕ → Type 0
IsAscii b = b < 128

decode_from-ascii : (bad : Text) (bs : List ℕ) → All IsAscii bs → decode_from bad start bs ≡ bs
unfolding decode_from step lead
decode_from-ascii bad [] h = refl
decode_from-ascii bad (b ∷ bs) (h, hs) = ground (arith, decode_from-ascii bad bs hs)

pub decode_ignore-ascii : (bs : List ℕ) → All IsAscii bs → decode_ignore bs ≡ bs
unfolding decode_ignore
decode_ignore-ascii bs h = decode_from-ascii [] bs h

pub encode_latin1-ascii : (cs : Text) → All IsAscii cs → encode_latin1 cs ≡ ok cs
unfolding encode_latin1
encode_latin1-ascii [] h = refl
encode_latin1-ascii (c ∷ cs) (h, hs) = ground (arith, encode_latin1-ascii cs hs)
