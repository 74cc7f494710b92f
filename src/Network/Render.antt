-- ===== src/Network/Render.antt =====
-- network.py: the interfaces and the addresses that `ip` prints are read back.
use mathlib.Core.Path.{ap₂}
use linuxtools.Base.{
  ◌==◌, ◌∙◌, ℕ, ◌≡◌, ◌≢◌, refl, ap, Bool, true, false, List, [], ◌∷◌, ◌++◌, none, some, arith, map,
  All,
}
use linuxtools.Str.{Text, codes, split, strip, join}
use linuxtools.Str.Number.{is_digit, all_digits, decimal}
use linuxtools.Str.Digits.{all_digits-decimal, decimal-ne-nil}
use linuxtools.Str.Lines.{lacks, lacks-append}
use linuxtools.Str.Join.{Lacks, split-join}
use linuxtools.Command.{finished}
use linuxtools.Regex.{literal, some_of, all_of, span, consume, match_at, is_name}
use linuxtools.Regex.Laws.{match_at-consume, consume-literal, consume-some_of}
use linuxtools.Network.{
  add_link, System, run_command, output_of, link_pattern, read_links, get_interfaces, part,
}

-- A line of `ip -o link show`: `3: eth0.100@eth0: <BROADCAST,...>`.
pub record Link : Type 0 where
  pub index : ℕ
  pub name : Text
  pub ends_with_colon : Bool
  pub tail : Text

abbrev pub separator : Bool → ℕ
separator true = b':'
separator false = b'@'

unfoldable pub link_line : Link → Text
link_line l = decimal l.index ++ (b':' ∷ b' ' ∷ (l.name ++ (separator l.ends_with_colon ∷ l.tail)))

pub record IsLink (l : Link) : Type 0 where
  pub named : l.name ≢ []
  pub name_class : all_of is_name l.name ≡ true
  pub stripped : strip l.name ≡ l.name
  pub name_line : lacks b'\n' l.name ≡ true
  pub tail_line : lacks b'\n' l.tail ≡ true

pub digits-all_of : (s : Text) → all_digits s ≡ true → all_of is_digit s ≡ true
unfolding all_of all_digits
digits-all_of [] h = refl
digits-all_of (c ∷ s) h = ground (arith, digits-all_of s)

pub digits-lacks : (c : ℕ) (s : Text) → is_digit c ≡ false → all_digits s ≡ true → lacks c s ≡ true
unfolding all_digits
digits-lacks c [] n h = refl
digits-lacks c (d ∷ s) n h = ground (arith, digits-lacks c s n)

-- A class followed by a character outside it.
pub consume_class :
    (p : ℕ → Bool) (a : Text) (d : ℕ) (b : Text)
    → all_of p a ≡ true
    → a ≢ []
    → p d ≡ false
    → consume (some_of p) (a ++ (d ∷ b)) ≡ some (a, d ∷ b)
consume_class p [] d b h ne stop = elim (ne refl) [ ]
consume_class p (c ∷ a) d b h ne stop = consume-some_of p c a d b h stop

separator-is_name : (b : Bool) → is_name (separator b) ≡ false
separator-is_name true = refl
separator-is_name false = refl

separator-lacks : (b : Bool) → (separator b == b'\n') ≡ false
separator-lacks true = refl
separator-lacks false = refl

match_at-link_line :
    (l : Link)
    → IsLink l
    → match_at link_pattern (link_line l) ≡ some (decimal l.index ∷ codes ": " ∷ l.name ∷ [])
unfolding link_line match_at
match_at-link_line l h =
    match_at-consume _ (literal (codes ": ") ∷ some_of is_name ∷ []) _
      (consume_class is_digit (decimal l.index) b':'
        (b' ' ∷ (l.name ++ (separator l.ends_with_colon ∷ l.tail)))
        (digits-all_of (decimal l.index) (all_digits-decimal l.index)) (decimal-ne-nil l.index)
        refl)
      (match_at-consume _ (some_of is_name ∷ []) _
        (consume-literal (codes ": ") (l.name ++ (separator l.ends_with_colon ∷ l.tail)))
        (match_at-consume _ [] _
          (consume_class is_name l.name (separator l.ends_with_colon) l.tail h.name_class h.named
            (separator-is_name l.ends_with_colon))
          refl))

match_at-nil : match_at link_pattern [] ≡ none
unfolding match_at consume span
match_at-nil = refl

read_links-match_at :
    (line : Text) (lines : List Text) {ts : List Text}
    → match_at link_pattern line ≡ some ts
    → read_links (line ∷ lines) ≡ strip (part 2 ts) ∷ read_links lines
unfolding read_links
read_links-match_at [] lines h = cc (h, match_at-nil)
read_links-match_at (c ∷ cs) lines h = ap (λ m. add_link m (read_links lines)) h

read_links-link_lines :
    (ls : List Link) → All IsLink ls → read_links (map link_line ls) ≡ map (λ l. l.name) ls
unfolding read_links
read_links-link_lines [] h = refl
read_links-link_lines (l ∷ ls) (h, hs) =
    read_links-match_at (link_line l) (map link_line ls) (match_at-link_line l h)
    ∙ ap₂ ◌∷◌ h.stripped (read_links-link_lines ls hs)

link_line-Lacks : (l : Link) → IsLink l → Lacks b'\n' (link_line l)
unfolding link_line
link_line-Lacks l h = ground (
  arith,
  lacks-append b'\n' (decimal l.index)
      (b':' ∷ b' ' ∷ (l.name ++ (separator l.ends_with_colon ∷ l.tail))),
  lacks-append b'\n' l.name (separator l.ends_with_colon ∷ l.tail),
  digits-lacks b'\n' (decimal l.index) refl (all_digits-decimal l.index),
  separator-lacks l.ends_with_colon,
)

link_lines-Lacks : (ls : List Link) → All IsLink ls → All (Lacks b'\n') (map link_line ls)
link_lines-Lacks [] h = tt
link_lines-Lacks (l ∷ ls) (h, hs) = (link_line-Lacks l h, link_lines-Lacks ls hs)

-- Where `ip` ended, with any status, and printed a line for each link, the names are read back, in
-- order: they are stripped, lie on one line and have no `:` or `@`, and what follows is not looked at.
pub get_interfaces-link_lines :
    (system : System) (status : ℕ) (out : Text) (l : Link) (ls : List Link)
    → system.run (codes "ip -o link show") ≡ finished status out
    → strip out ≡ join (codes "\n") (map link_line (l ∷ ls))
    → All IsLink (l ∷ ls)
    → get_interfaces system ≡ map (λ link. link.name) (l ∷ ls)
unfolding get_interfaces run_command output_of
get_interfaces-link_lines system status out l ls ran lines h =
    ap (λ r. read_links (split b'\n' (output_of r))) ran
    ∙ ap (λ t. read_links (split b'\n' t)) lines
    ∙ ap read_links
        (split-join b'\n' (link_line l) (map link_line ls) (link_lines-Lacks (l ∷ ls) h))
    ∙ read_links-link_lines (l ∷ ls) h
