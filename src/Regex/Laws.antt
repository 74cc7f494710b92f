-- ===== src/Regex/Laws.antt =====
-- What an expression matches, and where a search finds it.
use mathlib.Core.Path.{subst}
use linuxtools.Base.{
  ℕ, suc, ◌≡◌, ◌≢◌, refl, ap, get_elem?, get_or, ◌≤◌, zero, Bool, true, false, List, [], ◌∷◌, ◌++◌,
  Option, none, some, arith, length, take, drop,
}
use linuxtools.Str.{Text, starts_with}
use linuxtools.Str.Replace.{occurs}
use linuxtools.Str.Lines.{lacks}
use linuxtools.Regex.{
  Piece, literal, some_of, times, span, all_of, at_least_one, consume, behind, match_at, search,
}

-- A class stops at the first character outside it.
pub span-append :
    (p : ℕ → Bool) (a : Text) (d : ℕ) (b : Text)
    → all_of p a ≡ true
    → p d ≡ false
    → span p (a ++ (d ∷ b)) ≡ (a, d ∷ b)
unfolding span all_of
span-append p [] d b h stop = ground arith
span-append p (c ∷ cs) d b h stop = ground (arith, span-append p cs d b)

pub span-all_of : (p : ℕ → Bool) (a : Text) → all_of p a ≡ true → span p a ≡ (a, [])
unfolding span all_of
span-all_of p [] h = refl
span-all_of p (c ∷ cs) h = ground (arith, span-all_of p cs)

starts_with-drop : (t s : Text) → (starts_with (t ++ s) t ≡ true) × (drop (length t) (t ++ s) ≡ s)
unfolding starts_with
starts_with-drop [] s = (refl, refl)
starts_with-drop (c ∷ t) s = ground (arith, starts_with-drop t s)

pub consume-literal : (t s : Text) → consume (literal t) (t ++ s) ≡ some (t, s)
unfolding consume
consume-literal t s = rw ((starts_with-drop t s).0, (starts_with-drop t s).1) refl

pub consume-some_of :
    (p : ℕ → Bool) (c : ℕ) (a : Text) (d : ℕ) (b : Text)
    → all_of p (c ∷ a) ≡ true
    → p d ≡ false
    → consume (some_of p) (c ∷ (a ++ (d ∷ b))) ≡ some (c ∷ a, d ∷ b)
unfolding consume
consume-some_of p c a d b h stop = ap at_least_one (span-append p (c ∷ a) d b h stop)

-- One part matches, then the others.
pub match_at-consume :
    (p : Piece) (ps : List Piece) (s : Text) {t rest : Text} {ts : List Text}
    → consume p s ≡ some (t, rest)
    → match_at ps rest ≡ some ts
    → match_at (p ∷ ps) s ≡ some (t ∷ ts)
unfolding match_at
match_at-consume p ps s h k = ground arith

-- A search finds what matches at the front.
pub search-match_at :
    (ps : List Piece) (s : Text) {ts : List Text} → match_at ps s ≡ some ts → search ps s ≡ some ts
unfolding search
search-match_at ps [] h = h
search-match_at ps (c ∷ cs) h = ground arith

-- A text that does not begin with the literal does not match.
pub no_match :
    (t s : Text) (ps : List Piece) → starts_with s t ≡ false → match_at (literal t ∷ ps) s ≡ none
unfolding match_at consume
no_match t s ps h = ground arith

-- A text without the first character of the expression is passed over.
pub search-append :
    (c : ℕ) (t : Text) (ps : List Piece) (a s : Text)
    → lacks c a ≡ true
    → search (literal (c ∷ t) ∷ ps) (a ++ s) ≡ search (literal (c ∷ t) ∷ ps) s
unfolding search starts_with
search-append c t ps [] s h = refl
search-append c t ps (d ∷ a) s h =
    ground (arith, no_match (c ∷ t) (d ∷ (a ++ s)) ps, search-append c t ps a s)

pub search-occurs :
    (t : Text) (ps : List Piece) (s : Text) → occurs t s ≡ false → search (literal t ∷ ps) s ≡ none
unfolding search occurs
search-occurs t ps [] h = no_match t [] ps h
search-occurs t ps (c ∷ cs) h = ground (arith, no_match t (c ∷ cs) ps, search-occurs t ps cs)

-- What a part matched is of its form.
abbrev pub IsPart : Piece → Text → Type 0
IsPart (literal t) s = s ≡ t
IsPart (some_of p) s = (all_of p s ≡ true) × (s ≢ [])
IsPart (times n p) s = (all_of p s ≡ true) × (length s ≡ n)

abbrev pub AreParts : List Piece → List Text → Type 0
AreParts [] [] = Unit
AreParts [] (t ∷ ts) = ⊥
AreParts (p ∷ ps) [] = ⊥
AreParts (p ∷ ps) (t ∷ ts) = IsPart p t × AreParts ps ts

span-all_of_fst : (p : ℕ → Bool) (s : Text) → all_of p (span p s).0 ≡ true
unfolding span all_of
span-all_of_fst p [] = refl
span-all_of_fst p (c ∷ cs) = ground (arith, span-all_of_fst p cs)

starts_with-take : (s t : Text) → starts_with s t ≡ true → take (length t) s ≡ t
unfolding starts_with
starts_with-take s [] h = refl
starts_with-take [] (d ∷ t) h = ground arith
starts_with-take (c ∷ s) (d ∷ t) h = ground (arith, starts_with-take s t)

length-take : (n : ℕ) (s : Text) → n ≤ length s → length (take n s) ≡ n
length-take zero s h = refl
length-take (suc n) [] h = ground arith
length-take (suc n) (c ∷ s) h = ground (arith, length-take n s)

at_least_one-IsPart :
    (p : ℕ → Bool) (found : Text × Text) {t rest : Text}
    → all_of p found.0 ≡ true
    → at_least_one found ≡ some (t, rest)
    → IsPart (some_of p) t
at_least_one-IsPart p ([], _) h k = cc
at_least_one-IsPart p (c ∷ cs, _) {t = []} h k = cc
at_least_one-IsPart p (c ∷ cs, _) {t = d ∷ ds} h k = ground arith

consume-IsPart : (p : Piece) (s : Text) {t rest : Text} → consume p s ≡ some (t, rest) → IsPart p t
unfolding consume
consume-IsPart (literal t) s h = ground arith
consume-IsPart (some_of p) s h = at_least_one-IsPart p (span p s) (span-all_of_fst p s) h
consume-IsPart (times n p) s h = ground (arith, length-take n s)

some_cons_injective :
    {t v : Text} {us vs : List Text} → some (t ∷ us) ≡ some (v ∷ vs) → (t ≡ v) × (us ≡ vs)
some_cons_injective e = (cc, cc)

some_injective : {p q : Piece} → some p ≡ some q → p ≡ q
some_injective e = cc

behind-AreParts :
    (p : Piece) (ps : List Piece) (t : Text) (rest : Option (List Text)) {ts : List Text}
    → IsPart p t
    → ((us : List Text) → rest ≡ some us → AreParts ps us)
    → behind t rest ≡ some ts
    → AreParts (p ∷ ps) ts
behind-AreParts p ps t none h k e = cc
behind-AreParts p ps t (some us) {ts = []} h k e = cc
behind-AreParts p ps t (some us) {ts = v ∷ vs} h k e =
    (subst (IsPart p) (some_cons_injective e).0 h, k vs (ap some (some_cons_injective e).1))

-- The first part matched, and the others what it left.
consumed_cases :
    (ps : List Piece) (found : Option (Text × Text)) {ts : List Text}
    → (elim found [ none ↦ none | some (t, rest) ↦ behind t (match_at ps rest) ]) ≡ some ts
    → (t : Text) × (rest : Text) × (found ≡ some (t, rest))
      × (behind t (match_at ps rest) ≡ some ts)
consumed_cases ps none h = cc
consumed_cases ps (some (t, rest)) h = (t, rest, refl, h)

match_at-AreParts :
    (ps : List Piece) (s : Text) {ts : List Text} → match_at ps s ≡ some ts → AreParts ps ts
unfolding match_at
match_at-AreParts [] s {ts = []} h = tt
match_at-AreParts [] s {ts = t ∷ ts} h = cc
match_at-AreParts (p ∷ ps) s h =
    let (t, rest, taken, e) = consumed_cases ps (consume p s) h in
    behind-AreParts p ps t (match_at ps rest) (consume-IsPart p s taken)
      (λ us found. match_at-AreParts ps rest found) e

-- What a search finds are parts of the forms that the expression has.
search-AreParts :
    (ps : List Piece) (s : Text) {ts : List Text} → search ps s ≡ some ts → AreParts ps ts
unfolding search
search-AreParts ps [] h = match_at-AreParts ps [] h
search-AreParts ps (c ∷ cs) {ts = ts} h =
    ground (arith, match_at-AreParts ps (c ∷ cs) {ts = ts}, search-AreParts ps cs {ts = ts})

IsPart-at :
    (ps : List Piece) (ts : List Text) (i : ℕ) {p : Piece}
    → AreParts ps ts
    → get_elem? ps i ≡ some p
    → IsPart p (get_or ts i [])
IsPart-at [] ts i h e = cc
IsPart-at (q ∷ ps) [] i h e = elim h [ ]
IsPart-at (q ∷ ps) (t ∷ ts) zero h e = subst (λ r. IsPart r t) (some_injective e) h.0
IsPart-at (q ∷ ps) (t ∷ ts) (suc i) h e = IsPart-at ps ts i h.1 e

-- The part at an index, if the search finds something.
pub search-IsPart :
    (ps : List Piece) (s : Text) (i : ℕ) {p : Piece} {ts : List Text}
    → search ps s ≡ some ts
    → get_elem? ps i ≡ some p
    → IsPart p (get_or ts i [])
search-IsPart ps s i {ts = ts} h e = IsPart-at ps ts i (search-AreParts ps s h) e
