-- ===== src/Network/Expressions.antt =====
-- The regular expressions of network.py, under a backtracking engine.
use linuxtools.Base.{ℕ, ◌≡◌, refl, true, false, List, [], ◌∷◌, All, All-map, arith}
use linuxtools.Str.{Text, codes, is_space}
use linuxtools.Str.Number.{is_digit}
use linuxtools.Regex.{
  Piece, match_at, search, is_word, is_letter, is_dotted, is_hex_colon, not_space,
}
use linuxtools.Regex.Backtrack.{
  backtrack, search_first, Apart, IsSeparated, match_at-backtrack, search-search_first,
}
use linuxtools.Network.{link_pattern, inet_pattern, brd_pattern, inet6_pattern, vlan_pattern}
use linuxtools.Network.Collect.{speed_pattern, labelled, mac_pattern}

-- All of them.
abbrev pub expressions : List (List Piece)
expressions =
    link_pattern
    ∷ inet_pattern
    ∷ brd_pattern
    ∷ inet6_pattern
    ∷ vlan_pattern
    ∷ speed_pattern
    ∷ labelled (codes "Duplex:") is_word
    ∷ labelled (codes "Link detected:") is_word
    ∷ labelled (codes "driver:") not_space
    ∷ labelled (codes "version:") not_space
    ∷ mac_pattern
    ∷ []

space-dotted : (c : ℕ) → is_space c ≡ true → is_dotted c ≡ false
unfolding is_space
space-dotted c h = ground arith

space-hex_colon : (c : ℕ) → is_space c ≡ true → is_hex_colon c ≡ false
unfolding is_space
space-hex_colon c h = ground arith

space-digit : (c : ℕ) → is_space c ≡ true → is_digit c ≡ false
unfolding is_space
space-digit c h = ground arith

space-word : (c : ℕ) → is_space c ≡ true → is_word c ≡ false
unfolding is_space
space-word c h = ground arith

space-not_space : (c : ℕ) → is_space c ≡ true → not_space c ≡ false
space-not_space c h = ground (arith, h)

solid-space : (c : ℕ) → not_space c ≡ true → is_space c ≡ false
solid-space c h = ground (arith, h)

digit-letter : (c : ℕ) → is_digit c ≡ true → is_letter c ≡ false
digit-letter c h = ground arith

expressions-IsSeparated : All IsSeparated expressions
unfolding IsSeparated Apart is_space
expressions-IsSeparated = (
  (refl, (tt, tt)),
  (
    (space-dotted, (refl, (tt, tt))),
    (
      (space-dotted, (tt, tt)),
      (
        (space-hex_colon, (refl, (tt, tt))),
        (
          (refl, (space-digit, (tt, tt))),
          (
            (space-digit, (digit-letter, (tt, tt))),
            (
              (space-word, (tt, tt)),
              (
                (space-word, (tt, tt)),
                (
                  (space-not_space, (tt, tt)),
                  ((space-not_space, (tt, tt)), ((solid-space, (space-hex_colon, tt)), tt)),
                ),
              ),
            ),
          ),
        ),
      ),
    ),
  ),
)

-- On every text, the longest match of each part is what a backtracking engine finds for each regular
-- expression of the script, at the front of the text and in a search; if the engine finds nothing,
-- neither does the longest match.
pub expressions-backtrack :
    (s : Text)
    → All (λ ps. (match_at ps s ≡ backtrack ps s) × (search ps s ≡ search_first ps s)) expressions
expressions-backtrack s =
    All-map {Q = λ ps. (match_at ps s ≡ backtrack ps s) × (search ps s ≡ search_first ps s)}
      (λ ps h. (match_at-backtrack ps s h, search-search_first ps s h)) expressions
      expressions-IsSeparated
