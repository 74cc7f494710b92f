-- ===== src/Regex/Backtrack.antt =====
-- A regular expression as a backtracking engine matches it: each part tries what it can take, the
-- longest first, until the parts behind it match.
use linuxtools.Base.{
  ℕ, zero, suc, ◌≡◌, refl, ap, sym, ◌∙◌, Bool, true, false, ◌&&◌, List, [], ◌∷◌, ◌++◌, Option, none,
  some, map, arith, if◌then◌else◌, leb, ◌==◌, length, take, drop, Bool-cases, ==_iff, inl, inr,
}
use linuxtools.Str.{Text, starts_with}
use linuxtools.Regex.{
  Piece, literal, some_of, times, span, all_of, at_least_one, consume, behind, match_at, search,
}

abbrev pub or_else {ℓ} : {A : Type ℓ} → Option A → Option A → Option A
or_else none b = b
or_else (some a) b = some a

abbrev pub first_some {ℓ κ} : {A : Type ℓ} {B : Type κ} → (A → Option B) → List A → Option B
first_some k [] = none
first_some k (x ∷ xs) = or_else (k x) (first_some k xs)

abbrev pub longer : ℕ → Text × Text → Text × Text
longer c (t, rest) = (c ∷ t, rest)

-- The ways in which a repeated class takes characters, the longest first.
unfoldable pub prefixes : (ℕ → Bool) → Text → List (Text × Text)
prefixes p [] = []
prefixes p (c ∷ cs) =
    let more = map (longer c) (prefixes p cs) in if p c then more ++ ((c ∷ [], cs) ∷ []) else []

unfoldable pub takes : Piece → Text → List (Text × Text)
takes (literal t) s = if starts_with s t then (t, drop (length t) s) ∷ [] else []
takes (some_of p) s = prefixes p s
takes (times n p) s =
    if leb n (length s) && all_of p (take n s) then (take n s, drop n s) ∷ [] else []

unfoldable pub backtrack : List Piece → Text → Option (List Text)
backtrack [] s = some []
backtrack (p ∷ ps) s =
    first_some (λ (found : Text × Text). behind found.0 (backtrack ps found.1)) (takes p s)

-- `re.search`
unfoldable pub search_first : List Piece → Text → Option (List Text)
search_first ps [] = backtrack ps []
search_first ps (c ∷ cs) = or_else (backtrack ps (c ∷ cs)) (search_first ps cs)

-- What follows a class cannot begin in it.
unfoldable pub Apart : (ℕ → Bool) → List Piece → Type 0
Apart p [] = Unit
Apart p (literal [] ∷ ps) = ⊥
Apart p (literal (w ∷ ws) ∷ ps) = p w ≡ false
Apart p (some_of q ∷ ps) = (c : ℕ) → p c ≡ true → q c ≡ false
Apart p (times zero q ∷ ps) = ⊥
Apart p (times (suc n) q ∷ ps) = (c : ℕ) → p c ≡ true → q c ≡ false

unfoldable pub IsSeparated : List Piece → Type 0
IsSeparated [] = Unit
IsSeparated (literal t ∷ ps) = IsSeparated ps
IsSeparated (some_of p ∷ ps) = Apart p ps × IsSeparated ps
IsSeparated (times n p ∷ ps) = IsSeparated ps

module _ {ℓ} {B : Type ℓ} where
  abbrev onto {κ} : {A : Type κ} → (A → Option B) → Option A → Option B
  onto k none = none
  onto k (some a) = k a

  or_else-none : (b : Option B) → or_else b none ≡ b
  or_else-none none = refl
  or_else-none (some b) = refl

  or_else_assoc : (a b c : Option B) → or_else a (or_else b c) ≡ or_else (or_else a b) c
  or_else_assoc none b c = refl
  or_else_assoc (some a) b c = refl

  first_some-append {κ} :
      {A : Type κ} (k : A → Option B) (xs ys : List A)
      → first_some k (xs ++ ys) ≡ or_else (first_some k xs) (first_some k ys)
  first_some-append k [] ys = refl
  first_some-append k (x ∷ xs) ys =
      ap (or_else (k x)) (first_some-append k xs ys)
      ∙ or_else_assoc (k x) (first_some k xs) (first_some k ys)

  first_some-map {κ κ'} :
      {A : Type κ} {C : Type κ'} (k : C → Option B) (f : A → C) (xs : List A)
      → first_some k (map f xs) ≡ first_some (λ x. k (f x)) xs
  first_some-map k f [] = refl
  first_some-map k f (x ∷ xs) = ap (or_else (k (f x))) (first_some-map k f xs)

  -- A try that took less, with a character of the class left over, changes nothing.
  abbrev Settles : (ℕ → Bool) → (Text × Text → Option B) → Type ℓ
  Settles p k =
      (t t' rest rest' : Text) (c : ℕ)
      → p c ≡ true
      → or_else (k (t, rest)) (k (t', c ∷ rest')) ≡ k (t, rest)

  last_try :
      (p : ℕ → Bool) (k : Text × Text → Option B) (c : ℕ) (cs : Text)
      → Settles p k
      → or_else (onto (λ found. k (longer c found)) (at_least_one (span p cs))) (k (c ∷ [], cs))
        ≡ k (c ∷ (span p cs).0, (span p cs).1)
  unfolding span
  last_try p k c [] s = refl
  last_try p k c (d ∷ ds) s = elim (Bool-cases (p d)) [
    | inl e ↦ rw e (s (c ∷ d ∷ (span p ds).0) (c ∷ []) (span p ds).1 ds d e)
    | inr e ↦ rw e refl
  ]

  prefixes-span :
      (p : ℕ → Bool) (k : Text × Text → Option B) (s : Text)
      → Settles p k
      → first_some k (prefixes p s) ≡ onto k (at_least_one (span p s))
  unfolding prefixes span
  prefixes-span p k [] s = refl
  prefixes-span p k (c ∷ cs) s = elim (Bool-cases (p c)) [
    | inr e ↦ rw e refl
    | inl e ↦ rw e (
        first_some-append k (map (longer c) (prefixes p cs)) ((c ∷ [], cs) ∷ [])
        ∙ ap (λ b. or_else b (or_else (k (c ∷ [], cs)) none))
            (first_some-map k (longer c) (prefixes p cs))
        ∙ ap (λ b. or_else b (or_else (k (c ∷ [], cs)) none))
            (prefixes-span p (λ found. k (longer c found)) cs
              (λ t t' rest rest' d h. s (c ∷ t) (c ∷ t') rest rest' d h))
        ∙ ap (or_else _) (or_else-none (k (c ∷ [], cs)))
        ∙ last_try p k c cs s)
  ]

  onto-same {κ} :
      {A : Type κ} {k k' : A → Option B}
      → ((a : A) → k a ≡ k' a)
      → (o : Option A) → onto k o ≡ onto k' o
  onto-same h none = refl
  onto-same h (some a) = h a

-- The parts behind a match.
abbrev then_match : (Text → Option (List Text)) → Text × Text → Option (List Text)
then_match rest_of found = behind found.0 (rest_of found.1)

consumed :
    (ps : List Piece) (found : Option (Text × Text))
    → (elim found [ none ↦ none | some (t, rest) ↦ behind t (match_at ps rest) ])
      ≡ onto (then_match (match_at ps)) found
consumed ps none = refl
consumed ps (some (t, rest)) = refl

one_try :
    (k : Text × Text → Option (List Text)) (b : Bool) (found : Text × Text)
    → first_some k (if b then found ∷ [] else []) ≡ onto k (if b then some found else none)
one_try k true found = or_else-none (k found)
one_try k false found = refl

no_try :
    (k : Text × Text → Option (List Text)) (b : Bool) (found : Text × Text)
    → b ≡ false
    → first_some k (if b then found ∷ [] else []) ≡ none
no_try k b found h = rw h refl

starts_with-apart :
    (p : ℕ → Bool) (c w : ℕ) (rest ws : Text)
    → p w ≡ false
    → p c ≡ true
    → starts_with (c ∷ rest) (w ∷ ws) ≡ false
unfolding starts_with
starts_with-apart p c w rest ws h k = elim (Bool-cases (c == w)) [
  | inr e ↦ rw e refl
  | inl e ↦ absurd (cc ((==_iff c w).0 e, h, k))
]

all_of-apart :
    (q : ℕ → Bool) (b : Bool) (c : ℕ) (rest : Text)
    → q c ≡ false
    → (b && all_of q (c ∷ rest)) ≡ false
unfolding all_of
all_of-apart q b c rest h = ground arith

-- Behind a class, the parts match no text that begins in it.
Apart-backtrack :
    (p : ℕ → Bool) (q : Piece) (ps : List Piece) (c : ℕ) (rest : Text)
    → Apart p (q ∷ ps)
    → p c ≡ true
    → backtrack (q ∷ ps) (c ∷ rest) ≡ none
unfolding Apart backtrack takes prefixes starts_with all_of
Apart-backtrack p (literal []) ps c rest a h = absurd a
Apart-backtrack p (literal (w ∷ ws)) ps c rest a h =
    no_try _ (starts_with (c ∷ rest) (w ∷ ws)) _ (starts_with-apart p c w rest ws a h)
Apart-backtrack p (some_of q) ps c rest a h = rw (a c h) refl
Apart-backtrack p (times zero q) ps c rest a h = absurd a
Apart-backtrack p (times (suc n) q) ps c rest a h =
    no_try _ (leb (suc n) (length (c ∷ rest)) && all_of q (c ∷ take n rest)) _
      (all_of-apart q (leb (suc n) (length (c ∷ rest))) c (take n rest) (a c h))

Apart-Settles :
    (p : ℕ → Bool) (ps : List Piece) → Apart p ps → Settles p (then_match (backtrack ps))
unfolding backtrack
Apart-Settles p [] a t t' rest rest' c h = refl
Apart-Settles p (q ∷ ps) a t t' rest rest' c h =
    ap (λ b. or_else (behind t (backtrack (q ∷ ps) rest)) (behind t' b))
      (Apart-backtrack p q ps c rest' a h)
    ∙ or_else-none (behind t (backtrack (q ∷ ps) rest))

-- If no part can begin with a character of the class in front of it, the longest match of each part
-- is the match that a backtracking engine finds, and if there is none, it finds none.
pub match_at-backtrack :
    (ps : List Piece) (s : Text) → IsSeparated ps → match_at ps s ≡ backtrack ps s
unfolding match_at backtrack IsSeparated takes consume
match_at-backtrack [] s h = refl
match_at-backtrack (literal t ∷ ps) s h =
    consumed ps (consume (literal t) s)
    ∙ onto-same (λ found. ap (behind found.0) (match_at-backtrack ps found.1 h))
        (consume (literal t) s)
    ∙ sym (one_try (then_match (backtrack ps)) (starts_with s t) (t, drop (length t) s))
match_at-backtrack (some_of p ∷ ps) s (a, h) =
    consumed ps (consume (some_of p) s)
    ∙ onto-same (λ found. ap (behind found.0) (match_at-backtrack ps found.1 h))
        (consume (some_of p) s)
    ∙ sym (prefixes-span p (then_match (backtrack ps)) s (Apart-Settles p ps a))
match_at-backtrack (times n p ∷ ps) s h =
    consumed ps (consume (times n p) s)
    ∙ onto-same (λ found. ap (behind found.0) (match_at-backtrack ps found.1 h))
        (consume (times n p) s)
    ∙ sym (
        one_try (then_match (backtrack ps)) (leb n (length s) && all_of p (take n s))
          (take n s, drop n s))

-- The same of a search.
pub search-search_first :
    (ps : List Piece) (s : Text) → IsSeparated ps → search ps s ≡ search_first ps s
unfolding search search_first
search-search_first ps [] h = match_at-backtrack ps [] h
search-search_first ps (c ∷ cs) h =
    ground (arith, match_at-backtrack ps (c ∷ cs) h, search-search_first ps cs h)
