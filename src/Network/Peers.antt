-- ===== src/Network/Peers.antt =====
-- network.py: an address with a peer, as `ip` prints it for a point-to-point link.
use linuxtools.Base.{ℕ, ◌≡◌, refl, ◌∙◌, false, List, [], ◌∷◌, ◌++◌, none, some, arith, replicate}
use linuxtools.Str.{Text, codes, is_space, starts_with}
use linuxtools.Str.Number.{is_digit}
use linuxtools.Str.Replace.{occurs}
use linuxtools.Regex.{Piece, literal, some_of, consume, match_at, search, is_dotted, all_of}
use linuxtools.Regex.Laws.{consume-literal, no_match, search-append, search-occurs}
use linuxtools.Network.{inet_pattern, read_ipv4}
use linuxtools.Network.Render.{consume_class}
use linuxtools.Network.Addresses.{IsDotted, replicate-lacks, dotted-lacks}

-- `    inet 10.0.0.1 peer 10.0.0.2/32 scope global ppp0`
abbrev pub peer_line : ℕ → Text → Text → Text
peer_line indent address tail =
    replicate indent b' ' ++ (codes "inet " ++ (address ++ (codes " peer " ++ tail)))

match_at-none :
    (p : Piece) (ps : List Piece) (s : Text) {t rest : Text}
    → consume p s ≡ some (t, rest)
    → match_at ps rest ≡ none
    → match_at (p ∷ ps) s ≡ none
unfolding match_at
match_at-none p ps s h k = ground arith

-- Spaces and an address without a slash behind it.
match_at-no_slash :
    (ps : List Piece) (address tail : Text)
    → IsDotted address
    → match_at
        (some_of is_space ∷ some_of is_dotted ∷ literal (codes "/") ∷ ps)
        (b' ' ∷ (address ++ (codes " peer " ++ tail)))
      ≡ none
unfolding is_space all_of starts_with
match_at-no_slash ps [] tail h = elim (h.1 refl) [ ]
match_at-no_slash ps (c ∷ a) tail h =
    match_at-none (some_of is_space) (some_of is_dotted ∷ literal (codes "/") ∷ ps) _
      (consume_class is_space (codes " ") c (a ++ (codes " peer " ++ tail)) refl (λ e. cc)
        (ground arith))
      (match_at-none (some_of is_dotted) (literal (codes "/") ∷ ps) _
        (consume_class is_dotted (c ∷ a) b' ' (codes "peer " ++ tail) h.0 h.1 refl)
        (no_match (codes "/") (codes " peer " ++ tail) ps refl))

search-skip :
    (ps : List Piece) (c : ℕ) (cs : Text)
    → match_at ps (c ∷ cs) ≡ none
    → search ps (c ∷ cs) ≡ search ps cs
unfolding search
search-skip ps c cs h = rw (h, search) refl

-- What stands behind the first letter of `inet` has no other one.
search-peer :
    (indent : ℕ) (address tail : Text)
    → IsDotted address
    → occurs (codes "inet") tail ≡ false
    → search inet_pattern (peer_line indent address tail) ≡ none
search-peer indent address tail h n =
    search-append b'i' (codes "net") _ (replicate indent b' ') _
      (replicate-lacks indent b'i' b' ' refl)
    ∙ search-skip inet_pattern b'i' (codes "net " ++ (address ++ (codes " peer " ++ tail))) (
        match_at-none (literal (codes "inet"))
          (some_of is_space ∷ some_of is_dotted ∷ literal (codes "/") ∷ some_of is_digit ∷ []) _
          (consume-literal (codes "inet") (b' ' ∷ (address ++ (codes " peer " ++ tail))))
          (match_at-no_slash (some_of is_digit ∷ []) address tail h))
    ∙ search-append b'i' (codes "net") _ (codes "net ") _ refl
    ∙ search-append b'i' (codes "net") _ address _ (dotted-lacks b'i' address refl h.0)
    ∙ search-append b'i' (codes "net") _ (codes " peer ") _ refl
    ∙ search-occurs (codes "inet") _ tail n

-- A line of `ip -4 addr show` that has `peer` behind the address of digits and dots, instead of the
-- slash, and no further `inet`, is passed over: the addresses are those of the other lines.
pub read_ipv4-peer_line :
    (before after : List Text) (indent : ℕ) (address tail : Text)
    → IsDotted address
    → occurs (codes "inet") tail ≡ false
    → read_ipv4 (before ++ (peer_line indent address tail ∷ after)) ≡ read_ipv4 (before ++ after)
unfolding read_ipv4
read_ipv4-peer_line [] after indent address tail h n = rw (search-peer indent address tail h n) refl
read_ipv4-peer_line (line ∷ before) after indent address tail h n =
    rw (read_ipv4-peer_line before after indent address tail h n) refl
