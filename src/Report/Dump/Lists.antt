-- ===== src/Report/Dump/Lists.antt =====
-- The lists and dicts that VMM_Hygine_Report.py writes into JSON, read back, for any kind of item.
use linuxtools.Base.{
  ℕ, zero, suc, ◌+◌, ◌≡◌, ◌<◌, refl, ap, ◌∙◌, Bool, true, false, ◌||◌, not, List, [], ◌∷◌, ◌++◌,
  some, arith, ◌==◌, length, length-append, append_assoc,
}
use linuxtools.Str.{Text, codes, join, starts_with}
use linuxtools.Report.Dump.{indent, bracket}
use linuxtools.Report.Dump.Read.{
  Reader, behind, skip, after_item, next_item, read_more, read_items, read_list,
}

-- A text that ends an item: a comma or a line break follows.
abbrev pub stops : Text → Bool
stops [] = false
stops (c ∷ cs) = c == b',' || c == 10

abbrev pub is_closing : ℕ → Bool
is_closing c = c == b']' || c == b'}'

-- A text that begins with a character of an item.
abbrev pub opens : Text → Bool
opens [] = false
opens (c ∷ cs) = not (c == b' ' || c == 10 || is_closing c)

-- The item is read off its print, whatever follows.
pub record Reads {ℓ} {A : Type ℓ} (item : Reader A) (printed : Text) (a : A) : Type ℓ where
  pub begins : opens printed ≡ true
  pub reads : (rest : Text) → stops rest ≡ true → item (printed ++ rest) ≡ some (a, rest)

-- Item by item, as many prints as values.
pub data AllReads {ℓ} {A : Type ℓ} (item : Reader A) : List Text → List A → Type ℓ where
  finished : AllReads item [] []
  another :
      {p : Text} {a : A} {ps : List Text} {as' : List A}
      → Reads item p a
      → AllReads item ps as'
      → AllReads item (p ∷ ps) (a ∷ as')

skip-indent : (n : ℕ) (t : Text) → skip (indent n ++ t) ≡ skip t
unfolding skip
skip-indent zero t = refl
skip-indent (suc n) t = skip-indent n t

pub skip-opens : (p t : Text) → opens p ≡ true → skip (p ++ t) ≡ p ++ t
unfolding skip
skip-opens [] t h = cc
skip-opens (c ∷ cs) t h = ground arith

opens-append : (p t : Text) → opens p ≡ true → opens (p ++ t) ≡ true
opens-append [] t h = cc
opens-append (c ∷ cs) t h = h

opens-join : (sep p : Text) (ps : List Text) → opens p ≡ true → opens (join sep (p ∷ ps)) ≡ true
unfolding join
opens-join sep p [] h = h
opens-join sep p (q ∷ ps) h = opens-append p _ h

skip-closing : (close : ℕ) (t : Text) → is_closing close ≡ true → skip (close ∷ t) ≡ close ∷ t
unfolding skip
skip-closing close t h = ground arith

-- What stands behind the last item.
abbrev tail : ℕ → ℕ → Text → Text
tail n close rest = codes "\n" ++ (indent n ++ (close ∷ rest))

abbrev comma : ℕ → Text
comma n = codes ",\n" ++ indent n

skip-tail :
    (n close : ℕ) (rest : Text) → is_closing close ≡ true → skip (tail n close rest) ≡ close ∷ rest
unfolding skip
skip-tail n close rest h = skip-indent n (close ∷ rest) ∙ skip-closing close rest h

module _ {ℓ} {A : Type ℓ} (item : Reader A) (close : ℕ) (closing : is_closing close ≡ true) where
  -- A round on an item and what stands behind it.
  read_more-item :
      (fuel : ℕ) (a : A) (p s rest after : Text)
      → Reads item p a
      → stops rest ≡ true
      → skip rest ≡ after
      → skip s ≡ p ++ rest
      → read_more item close (suc fuel) s ≡ after_item close a after (read_more item close fuel)
  unfolding read_more
  read_more-item fuel a p s rest after h stop k e =
      ap (λ t. next_item close (item t) (read_more item close fuel)) e
      ∙ ap (λ o. next_item close o (read_more item close fuel)) (h.reads rest stop)
      ∙ ap (λ t. after_item close a t (read_more item close fuel)) k

  after_item-closing :
      (a : A) (rest : Text) (more : Reader (List A))
      → after_item close a (close ∷ rest) more ≡ some (a ∷ [], rest)
  after_item-closing a rest more = ground (arith, closing)

  join-step :
      (m n : ℕ) (p q : Text) (ps : List Text) (rest : Text)
      → join (comma m) (p ∷ q ∷ ps) ++ tail n close rest
        ≡ p ++ (comma m ++ (join (comma m) (q ∷ ps) ++ tail n close rest))
  unfolding join
  join-step m n p q ps rest =
      append_assoc p (comma m ++ join (comma m) (q ∷ ps)) (tail n close rest)
      ∙ ap (λ t. p ++ t) (append_assoc (comma m) (join (comma m) (q ∷ ps)) (tail n close rest))

  skip-join :
      (m n : ℕ) (q : Text) (ps : List Text) (rest : Text)
      → opens q ≡ true
      → skip (join (comma m) (q ∷ ps) ++ tail n close rest)
        ≡ join (comma m) (q ∷ ps) ++ tail n close rest
  unfolding join
  skip-join m n q [] rest h = skip-opens q (tail n close rest) h
  skip-join m n q (p ∷ ps) rest h = rw (join-step m n q p ps rest) (skip-opens q _ h)

  skip-line :
      (m n : ℕ) (q : Text) (ps : List Text) (rest : Text)
      → opens q ≡ true
      → skip (codes "\n" ++ (indent m ++ (join (comma m) (q ∷ ps) ++ tail n close rest)))
        ≡ join (comma m) (q ∷ ps) ++ tail n close rest
  unfolding skip
  skip-line m n q ps rest h = skip-indent m _ ∙ skip-join m n q ps rest h

  read_more-join :
      (fuel m n : ℕ) (p : Text) (a : A) (ps : List Text) (as' : List A) (s rest : Text)
      → Reads item p a
      → AllReads item ps as'
      → length ps < fuel
      → skip s ≡ join (comma m) (p ∷ ps) ++ tail n close rest
      → read_more item close fuel s ≡ some (a ∷ as', rest)
  unfolding join skip
  read_more-join zero m n p a ps as' s rest h hs f e = absurd (omega (arith, f))
  read_more-join (suc fuel) m n p a [] (b ∷ as') s rest h hs f e = elim hs [ ]
  read_more-join (suc fuel) m n p a (q ∷ ps) [] s rest h hs f e = elim hs [ ]
  read_more-join (suc fuel) m n p a [] [] s rest h finished f e =
      read_more-item fuel a p s (tail n close rest) (close ∷ rest) h refl
        (skip-tail n close rest closing) e
      ∙ after_item-closing a rest (read_more item close fuel)
  read_more-join (suc fuel) m n p a (q ∷ ps) (b ∷ as') s rest h (another g hs) f e =
      let line = codes "\n" ++ (indent m ++ (join (comma m) (q ∷ ps) ++ tail n close rest)) in
      let stop = comma m ++ (join (comma m) (q ∷ ps) ++ tail n close rest) in
      read_more-item fuel a p s stop (b',' ∷ line) h refl refl (e ∙ join-step m n p q ps rest)
      ∙ ap (behind a) (
          read_more-join fuel m n q b ps as' line rest g hs (omega (arith, f))
            (skip-line m n q ps rest g.begins))

  -- There is a character for each item.
  length-join :
      (sep p : Text) (ps : List Text) (a : A) (as' : List A)
      → Reads item p a
      → AllReads item ps as'
      → length ps < length (join sep (p ∷ ps))
  unfolding join
  length-join sep [] ps a as' h hs = cc (h.begins)
  length-join sep (c ∷ p) [] a as' h hs = omega arith
  length-join sep (c ∷ p) (q ∷ ps) a [] h hs = elim hs [ ]
  length-join sep (c ∷ p) (q ∷ ps) a (b ∷ as') h (another g hs) = omega (
    arith,
    length-join sep q ps b as' g hs,
    length-append p (sep ++ join sep (q ∷ ps)),
    length-append sep (join sep (q ∷ ps)),
  )

  not_closed : (p t : Text) → opens p ≡ true → starts_with (p ++ t) (close ∷ []) ≡ false
  unfolding starts_with
  not_closed [] t h = cc
  not_closed (c ∷ p) t h = ground (arith, closing)

  read_items-none : (rest : Text) → read_items item close (close ∷ rest) ≡ some ([], rest)
  unfolding read_items starts_with skip
  read_items-none rest = ground (arith, closing)

  read_items-some :
      (cs p t : Text)
      → skip cs ≡ p ++ t
      → opens p ≡ true
      → read_items item close cs ≡ read_more item close (length cs) cs
  unfolding read_items
  read_items-some cs p t e h = rw (e, not_closed p t h) refl

  read_list-opening :
      (opening : ℕ) (cs : Text)
      → read_list opening close item (opening ∷ cs) ≡ read_items item close cs
  unfolding read_list
  read_list-opening opening cs = ground arith

  bracket-append :
      (opening n : ℕ) (p : Text) (ps : List Text) (rest : Text)
      → bracket (opening ∷ []) (close ∷ []) n (p ∷ ps) ++ rest
        ≡ opening
          ∷ (codes "\n" ++ (indent (n + 2) ++ (join (comma (n + 2)) (p ∷ ps) ++ tail n close rest)))
  unfolding bracket
  bracket-append opening n p ps rest =
      let end = codes "\n" ++ (indent n ++ (close ∷ [])) in
      ap (λ t. opening ∷ 10 ∷ t)
        (append_assoc (indent (n + 2)) (join (comma (n + 2)) (p ∷ ps) ++ end) rest
          ∙ ap (λ t. indent (n + 2) ++ t)
              (append_assoc (join (comma (n + 2)) (p ∷ ps)) end rest
                ∙ ap (λ t. join (comma (n + 2)) (p ∷ ps) ++ (10 ∷ t))
                    (append_assoc (indent n) (close ∷ []) rest)))

  -- Behind the bracket: blanks, then the items; the text is long enough as fuel.
  items-join :
      (m n : ℕ) (p : Text) (a : A) (ps : List Text) (as' : List A) (rest : Text)
      → Reads item p a
      → AllReads item ps as'
      → let cs = codes "\n" ++ (indent m ++ (join (comma m) (p ∷ ps) ++ tail n close rest)) in
        read_items item close cs ≡ some (a ∷ as', rest)
  items-join m n p a ps as' rest h hs =
      let joined = join (comma m) (p ∷ ps) in
      let cs = codes "\n" ++ (indent m ++ (joined ++ tail n close rest)) in
      let lead = skip-line m n p ps rest h.begins in
      let long : length ps < length cs = omega (
        arith,
        length-join (comma m) p ps a as' h hs,
        length-append joined (tail n close rest),
        length-append (indent m) (joined ++ tail n close rest),
      ) in
      read_items-some cs joined (tail n close rest) lead (opens-join (comma m) p ps h.begins)
      ∙ read_more-join (length cs) m n p a ps as' cs rest h hs long lead

  -- A bracketed list, read off its print.
  pub read_list-bracket :
      (opening n : ℕ) (ps : List Text) (as' : List A) (rest : Text)
      → AllReads item ps as'
      → read_list opening close item (bracket (opening ∷ []) (close ∷ []) n ps ++ rest)
        ≡ some (as', rest)
  unfolding bracket
  read_list-bracket opening n [] (a ∷ as') rest h = elim h [ ]
  read_list-bracket opening n (p ∷ ps) [] rest h = elim h [ ]
  read_list-bracket opening n [] [] rest finished =
      read_list-opening opening (close ∷ rest) ∙ read_items-none rest
  read_list-bracket opening n (p ∷ ps) (a ∷ as') rest (another h hs) =
      ap (read_list opening close item) (bracket-append opening n p ps rest)
      ∙ read_list-opening opening _
      ∙ items-join (n + 2) n p a ps as' rest h hs
