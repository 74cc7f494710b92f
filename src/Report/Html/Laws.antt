-- ===== src/Report/Html/Laws.antt =====
-- The encoded text has no markup, and can be read back.
use linuxtools.Base.{
  ℕ, ◌≡◌, refl, ◌∙◌, ap, sym, true, [], ◌∷◌, ◌++◌, ◌≢◌, append_assoc, ◌==◌, if◌then◌else◌, arith,
}
use linuxtools.Str.{Text, codes, replace}
use linuxtools.Str.Lines.{lacks, lacks-append}
use linuxtools.Report.Html.{html_encode}

-- One character, encoded.
pub entity : ℕ → Text
entity c =
    if c == b'&'
    then codes "&amp;"
    else if c == b'<'
    then codes "&lt;"
    else if c == b'>'
    then codes "&gt;"
    else if c == b'"'
    then codes "&quot;"
    else if c == b'\''
    then codes "&#39;"
    else c ∷ []

pub encode : Text → Text
encode [] = []
encode (c ∷ cs) = entity c ++ encode cs

replace-cons :
    (k : ℕ) (t : Text) (c : ℕ) (cs : Text)
    → replace k t (c ∷ cs) ≡ (if c == k then t else c ∷ []) ++ replace k t cs
unfolding replace
replace-cons k t c cs = refl

replace-append : (c : ℕ) (t a b : Text) → replace c t (a ++ b) ≡ replace c t a ++ replace c t b
unfolding replace
replace-append c t [] b = refl
replace-append c t (x ∷ xs) b =
    rw (replace-append c t xs b) (sym (append_assoc (if x == c then t else x ∷ []) _ _))

-- The later replacements leave the entities of the earlier ones alone.
layers :
    (c : ℕ)
    → replace b'\'' (codes "&#39;") (
        replace b'"' (codes "&quot;") (
          replace b'>'
            (codes "&gt;")
            (replace b'<' (codes "&lt;") (if c == b'&' then codes "&amp;" else c ∷ []))))
      ≡ entity c
unfolding replace entity
layers c = ground arith

html_encode-cons : (c : ℕ) (cs : Text) → html_encode (c ∷ cs) ≡ entity c ++ html_encode cs
unfolding html_encode
html_encode-cons c cs =
    rw (replace-cons b'&', replace-append, replace-append, replace-append, replace-append, layers c)

html_encode-encode : (s : Text) → html_encode s ≡ encode s
unfolding encode
html_encode-encode [] = unfold html_encode replace in refl
html_encode-encode (c ∷ cs) =
    html_encode-cons c cs ∙ ap (λ t. entity c ++ t) (html_encode-encode cs)

entity-inert :
    (c : ℕ)
    → (lacks b'<' (entity c) ≡ true)
      × (lacks b'>' (entity c) ≡ true)
      × (lacks b'"' (entity c) ≡ true)
      × (lacks b'\'' (entity c) ≡ true)
unfolding entity
entity-inert c = ground arith

-- The encoded text has none of the characters `<`, `>`, `"` and `'`.
pub html_encode-lacks :
    (s : Text)
    → (lacks b'<' (html_encode s) ≡ true)
      × (lacks b'>' (html_encode s) ≡ true)
      × (lacks b'"' (html_encode s) ≡ true)
      × (lacks b'\'' (html_encode s) ≡ true)
html_encode-lacks [] = unfold html_encode replace in (refl, refl, refl, refl)
html_encode-lacks (c ∷ cs) =
    let h = entity-inert c in
    let ih = html_encode-lacks cs in
    rw
      (
        html_encode-cons c cs,
        lacks-append b'<' (entity c) (html_encode cs),
        lacks-append b'>' (entity c) (html_encode cs),
        lacks-append b'"' (entity c) (html_encode cs),
        lacks-append b'\'' (entity c) (html_encode cs),
      )
      (rw (h.0, h.1, h.2, h.3) ih)

entity-append_inj : (c d : ℕ) (s t : Text) → entity c ++ s ≡ entity d ++ t → (c ≡ d) × (s ≡ t)
unfolding entity
entity-append_inj c d s t e = ground arith

entity-append-ne-nil : (c : ℕ) (s : Text) → entity c ++ s ≢ []
unfolding entity
entity-append-ne-nil c s = ground arith

encode-injective : (s t : Text) → encode s ≡ encode t → s ≡ t
unfolding encode
encode-injective [] [] e = refl
encode-injective [] (d ∷ ds) e = absurd (entity-append-ne-nil d (encode ds) (sym e))
encode-injective (c ∷ cs) [] e = absurd (entity-append-ne-nil c (encode cs) e)
encode-injective (c ∷ cs) (d ∷ ds) e =
    let (p, q) = entity-append_inj c d (encode cs) (encode ds) e in
    let r = encode-injective cs ds q in cc

-- Different texts have different encodings, so nothing is lost.
pub html_encode-injective : (s t : Text) → html_encode s ≡ html_encode t → s ≡ t
html_encode-injective s t e =
    encode-injective s t (sym (html_encode-encode s) ∙ e ∙ html_encode-encode t)
