-- ===== src/Str/Lines.antt =====
-- `splitlines` and `split` read back lines that were joined.
use linuxtools.Base.{
  ℕ, ◌≡◌, refl, ◌∙◌, ap, Bool, true, ◌&&◌, not, List, [], ◌∷◌, ◌++◌, arith, All, ◌==◌, some,
}
use linuxtools.Str.{Text, is_break, crlf, break_lines, splitlines, split, split_once, starts_with}

-- Each line with its newline.
unfoldable pub unlines : List Text → Text
unlines [] = []
unlines (l ∷ ls) = l ++ (b'\n' ∷ unlines ls)

abbrev pub no_break : Text → Bool
no_break [] = true
no_break (c ∷ cs) = not (is_break c) && no_break cs

abbrev pub NoBreak : Text → Type 0
NoBreak s = no_break s ≡ true

crlf_line : (l rest : Text) → NoBreak l → crlf (l ++ (b'\n' ∷ rest)) ≡ l ++ crlf (b'\n' ∷ rest)
unfolding crlf is_break
crlf_line [] rest h = refl
crlf_line (c ∷ []) rest h = ground arith
crlf_line (c ∷ d ∷ cs) rest h = ground (arith, crlf_line (d ∷ cs) rest)

crlf_newline : (rest : Text) → crlf (b'\n' ∷ rest) ≡ b'\n' ∷ crlf rest
unfolding crlf
crlf_newline [] = refl
crlf_newline (c ∷ cs) = refl

crlf-unlines : (ls : List Text) → All NoBreak ls → crlf (unlines ls) ≡ unlines ls
unfolding unlines
crlf-unlines [] h = unfold crlf in refl
crlf-unlines (l ∷ ls) (h, hs) =
    crlf_line l (unlines ls) h
    ∙ ap (λ t. l ++ t) (crlf_newline (unlines ls) ∙ ap (◌∷◌ b'\n') (crlf-unlines ls hs))

break_lines_line :
    (l rest : Text) → NoBreak l → break_lines (l ++ (b'\n' ∷ rest)) ≡ l ∷ break_lines rest
unfolding break_lines is_break
break_lines_line [] rest h = refl
break_lines_line (c ∷ cs) rest h = ground (arith, break_lines_line cs rest)

break_lines-unlines : (ls : List Text) → All NoBreak ls → break_lines (unlines ls) ≡ ls
unfolding unlines
break_lines-unlines [] h = unfold break_lines in refl
break_lines-unlines (l ∷ ls) (h, hs) =
    break_lines_line l (unlines ls) h ∙ ap (◌∷◌ l) (break_lines-unlines ls hs)

pub splitlines-unlines : (ls : List Text) → All NoBreak ls → splitlines (unlines ls) ≡ ls
unfolding splitlines
splitlines-unlines ls h = ap break_lines (crlf-unlines ls h) ∙ break_lines-unlines ls h

-- The character `c` does not occur.
abbrev pub lacks : ℕ → Text → Bool
lacks c [] = true
lacks c (x ∷ xs) = not (x == c) && lacks c xs

pub split_once-append :
    (c : ℕ) (a b : Text) → lacks c a ≡ true → split_once c (a ++ (c ∷ b)) ≡ some (a, b)
unfolding split_once
split_once-append c [] b h = ground arith
split_once-append c (x ∷ xs) b h = ground (arith, split_once-append c xs b)

pub split-lacks : (c : ℕ) (a : Text) → lacks c a ≡ true → split c a ≡ a ∷ []
unfolding split
split-lacks c [] h = refl
split-lacks c (x ∷ xs) h = ground (arith, split-lacks c xs)

pub split-append : (c : ℕ) (a b : Text) → lacks c a ≡ true → split c (a ++ (c ∷ b)) ≡ a ∷ split c b
unfolding split
split-append c [] b h = ground arith
split-append c (x ∷ xs) b h = ground (arith, split-append c xs b)

pub starts_with-append : (p s : Text) → starts_with (p ++ s) p ≡ true
unfolding starts_with
starts_with-append [] s = refl
starts_with-append (c ∷ p) s = ground (arith, starts_with-append p s)

pub lacks-append : (c : ℕ) (a b : Text) → lacks c (a ++ b) ≡ (lacks c a && lacks c b)
lacks-append c [] b = refl
lacks-append c (x ∷ xs) b = ground (arith, lacks-append c xs b)

pub no_break-append : (a b : Text) → no_break (a ++ b) ≡ (no_break a && no_break b)
no_break-append [] b = refl
no_break-append (x ∷ xs) b = ground (arith, no_break-append xs b)
