-- ===== src/Network/Addresses.antt =====
-- network.py: the IPv4 addresses that `ip` prints are read back.
use linuxtools.Base.{
  ℕ, zero, suc, ◌≡◌, ◌≢◌, refl, ap, ◌∙◌, true, false, ◌==◌, List, [], ◌∷◌, ◌++◌, some, arith, map,
  All, replicate,
}
use linuxtools.Str.{Text, codes, split, strip, join, is_space}
use linuxtools.Str.Number.{is_digit, decimal}
use linuxtools.Str.Digits.{all_digits-decimal, decimal-ne-nil}
use linuxtools.Str.Lines.{lacks}
use linuxtools.Str.Join.{append-Lacks, Lacks, split-join}
use linuxtools.Str.Replace.{occurs}
use linuxtools.Command.{finished}
use linuxtools.Regex.{Piece, literal, some_of, all_of, match_at, search, is_dotted}
use linuxtools.Regex.Laws.{
  consume-literal, match_at-consume, search-match_at, search-append, search-occurs,
}
use linuxtools.Network.{
  System, run_command, output_of, Ipv4, inet_pattern, brd_pattern, broadcast_of, read_ipv4,
  get_ip_info,
}
use linuxtools.Network.Render.{digits-all_of, digits-lacks, consume_class}

-- What stands behind the prefix: ` brd 10.0.0.255 scope ...`, or a text without `brd`.
pub data Behind : Type 0 where
  brd : Text → Text → Behind
  no_brd : Text → Behind

abbrev pub after_space : Behind → Text
after_space (brd b tail) = codes "brd " ++ (b ++ (b' ' ∷ tail))
after_space (no_brd tail) = tail

abbrev pub broadcast_in : Behind → Text
broadcast_in (brd b tail) = b
broadcast_in (no_brd tail) = []

-- A line of `ip -4 addr show`: one with an address, or one without `inet`.
pub data AddrLine : Type 0 where
  inet : ℕ → Text → ℕ → Behind → AddrLine
  other : Text → AddrLine

abbrev pub addr_line : AddrLine → Text
addr_line (inet indent address prefix rest) =
    replicate indent b' '
    ++ (codes "inet " ++ (address ++ (codes "/" ++ (decimal prefix ++ (b' ' ∷ after_space rest)))))
addr_line (other text) = text

abbrev pub IsDotted : Text → Type 0
IsDotted a = (all_of is_dotted a ≡ true) × (a ≢ [])

abbrev pub IsBehind : Behind → Type 0
IsBehind (brd b tail) = IsDotted b × (lacks b'\n' tail ≡ true)
IsBehind (no_brd tail) = (occurs (codes "brd") tail ≡ false) × (lacks b'\n' tail ≡ true)

abbrev pub IsAddrLine : AddrLine → Type 0
IsAddrLine (inet indent address prefix rest) = IsDotted address × IsBehind rest
IsAddrLine (other text) = (occurs (codes "inet") text ≡ false) × (lacks b'\n' text ≡ true)

-- The addresses of the lines, in order.
unfoldable pub addresses : List AddrLine → List Ipv4
addresses [] = []
addresses (inet indent address prefix rest ∷ lines) =
    record { address = address; prefix = decimal prefix; broadcast = broadcast_in rest }
    ∷ addresses lines
addresses (other text ∷ lines) = addresses lines

pub replicate-lacks : (n c d : ℕ) → (d == c) ≡ false → lacks c (replicate n d) ≡ true
replicate-lacks zero c d h = refl
replicate-lacks (suc n) c d h = ground (arith, replicate-lacks n c d)

pub dotted-lacks :
    (c : ℕ) (a : Text) → is_dotted c ≡ false → all_of is_dotted a ≡ true → lacks c a ≡ true
unfolding all_of
dotted-lacks c [] n h = refl
dotted-lacks c (d ∷ a) n h = ground (arith, dotted-lacks c a n)

-- Spaces, then an address, at the front.
match_at-dotted :
    (ps : List Piece) (a : Text) (d : ℕ) (b : Text) {ts : List Text}
    → IsDotted a
    → is_dotted d ≡ false
    → match_at ps (d ∷ b) ≡ some ts
    → match_at (some_of is_space ∷ some_of is_dotted ∷ ps) (b' ' ∷ (a ++ (d ∷ b)))
      ≡ some (codes " " ∷ a ∷ ts)
unfolding is_space all_of
match_at-dotted ps [] d b h stop m = elim (h.1 refl) [ ]
match_at-dotted ps (c ∷ a) d b h stop m =
    match_at-consume _ (some_of is_dotted ∷ ps) _
      (consume_class is_space (codes " ") c (a ++ (d ∷ b)) refl (λ e. cc) (ground arith))
      (match_at-consume _ ps _ (consume_class is_dotted (c ∷ a) d b h.0 h.1 stop) m)

-- What stands in front of the broadcast has no `b`.
search-brd_skip :
    (indent : ℕ) (address : Text) (prefix : ℕ) (rest : Behind)
    → IsDotted address
    → search brd_pattern (addr_line (inet indent address prefix rest))
      ≡ search brd_pattern (after_space rest)
search-brd_skip indent address prefix rest h =
    search-append b'b' (codes "rd") _ (replicate indent b' ') _
      (replicate-lacks indent b'b' b' ' refl)
    ∙ search-append b'b' (codes "rd") _ (codes "inet ") _ refl
    ∙ search-append b'b' (codes "rd") _ address _ (dotted-lacks b'b' address refl h.0)
    ∙ search-append b'b' (codes "rd") _ (codes "/") _ refl
    ∙ search-append b'b' (codes "rd") _ (decimal prefix) _
        (digits-lacks b'b' (decimal prefix) refl (all_digits-decimal prefix))
    ∙ search-append b'b' (codes "rd") _ (codes " ") (after_space rest) refl

search-inet :
    (indent : ℕ) (address : Text) (prefix : ℕ) (rest : Behind)
    → IsDotted address
    → search inet_pattern (addr_line (inet indent address prefix rest))
      ≡ some (codes "inet" ∷ codes " " ∷ address ∷ codes "/" ∷ decimal prefix ∷ [])
unfolding match_at
search-inet indent address prefix rest h =
    search-append b'i' (codes "net") _ (replicate indent b' ') _
      (replicate-lacks indent b'i' b' ' refl)
    ∙ search-match_at inet_pattern _ (
        match_at-consume _
          (some_of is_space ∷ some_of is_dotted ∷ literal (codes "/") ∷ some_of is_digit ∷ []) _
          (consume-literal (codes "inet") _)
          (match_at-dotted (literal (codes "/") ∷ some_of is_digit ∷ []) address b'/' _ h refl (
            match_at-consume _ (some_of is_digit ∷ []) _ (consume-literal (codes "/") _) (
              match_at-consume _ [] _
                (consume_class is_digit (decimal prefix) b' ' (after_space rest)
                  (digits-all_of (decimal prefix) (all_digits-decimal prefix))
                  (decimal-ne-nil prefix) refl)
                refl))))

broadcast_of-after_space :
    (rest : Behind)
    → IsBehind rest
    → broadcast_of (search brd_pattern (after_space rest)) ≡ broadcast_in rest
unfolding match_at
broadcast_of-after_space (brd b tail) (h, _) = ap broadcast_of (
    search-match_at brd_pattern _ (
      match_at-consume _ (some_of is_space ∷ some_of is_dotted ∷ []) _
        (consume-literal (codes "brd") _) (match_at-dotted [] b b' ' tail h refl refl)))
broadcast_of-after_space (no_brd tail) (h, _) =
    ap broadcast_of (search-occurs (codes "brd") (some_of is_space ∷ some_of is_dotted ∷ []) tail h)

read_ipv4-addr_lines :
    (ls : List AddrLine) → All IsAddrLine ls → read_ipv4 (map addr_line ls) ≡ addresses ls
unfolding read_ipv4 addresses
read_ipv4-addr_lines [] h = refl
read_ipv4-addr_lines (other text ∷ ls) ((h, _), hs) =
    rw
      (search-occurs (codes "inet")
        (some_of is_space ∷ some_of is_dotted ∷ literal (codes "/") ∷ some_of is_digit ∷ []) text h)
      (read_ipv4-addr_lines ls hs)
read_ipv4-addr_lines (inet indent address prefix rest ∷ ls) ((h, k), hs) =
    rw
      (
        search-inet indent address prefix rest h,
        search-brd_skip indent address prefix rest h,
        broadcast_of-after_space rest k,
        read_ipv4-addr_lines ls hs,
      )
      refl

after_space-Lacks : (rest : Behind) → IsBehind rest → Lacks b'\n' (after_space rest)
after_space-Lacks (brd b tail) (h, t) =
    append-Lacks b'\n' b (b' ' ∷ tail) (dotted-lacks b'\n' b refl h.0) t
after_space-Lacks (no_brd tail) (_, t) = t

addr_line-Lacks : (l : AddrLine) → IsAddrLine l → Lacks b'\n' (addr_line l)
addr_line-Lacks (other text) h = h.1
addr_line-Lacks (inet indent address prefix rest) (h, k) =
    append-Lacks b'\n' (replicate indent b' ') _ (replicate-lacks indent b'\n' b' ' refl) (
      append-Lacks b'\n' address _ (dotted-lacks b'\n' address refl h.0) (
        append-Lacks b'\n' (decimal prefix) _
          (digits-lacks b'\n' (decimal prefix) refl (all_digits-decimal prefix))
          (after_space-Lacks rest k)))

addr_lines-Lacks : (ls : List AddrLine) → All IsAddrLine ls → All (Lacks b'\n') (map addr_line ls)
addr_lines-Lacks [] h = tt
addr_lines-Lacks (l ∷ ls) (h, hs) = (addr_line-Lacks l h, addr_lines-Lacks ls hs)

-- Where `ip -4` ended, with any status, and what it printed, stripped, is a line or more, each of
-- which either has no `inet`, or is spaces, `inet`, an address of digits and dots, `/`, a number
-- and a space, and behind that either at once `brd`, a broadcast of digits and dots and a space, or
-- a text without `brd`: the IPv4 addresses are those of the lines of the second kind, in order,
-- each with its prefix and its broadcast, or an empty one where the line has none.
pub get_ip_info-addr_lines :
    (system : System) (interface : Text) (status : ℕ) (out : Text) (l : AddrLine)
    (ls : List AddrLine)
    → system.run (codes "ip -4 addr show " ++ interface) ≡ finished status out
    → strip out ≡ join (codes "\n") (map addr_line (l ∷ ls))
    → All IsAddrLine (l ∷ ls)
    → (get_ip_info system interface).ipv4 ≡ addresses (l ∷ ls)
unfolding get_ip_info run_command output_of
get_ip_info-addr_lines system interface status out l ls ran lines h =
    ap (λ r. read_ipv4 (split b'\n' (output_of r))) ran
    ∙ ap (λ t. read_ipv4 (split b'\n' t)) lines
    ∙ ap read_ipv4 (split-join b'\n' (addr_line l) (map addr_line ls) (addr_lines-Lacks (l ∷ ls) h))
    ∙ read_ipv4-addr_lines (l ∷ ls) h
