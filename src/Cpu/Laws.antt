-- ===== src/Cpu/Laws.antt =====
-- `get_cpu_info` of cpudetect.py on the lines that `lscpu` prints.
use linuxtools.Base.{
  ℕ, ◌⊎◌, Option-cases, get_elem?, zero, suc, ◌≡◌, refl, ◌∙◌, ap, sym, Bool, true, false, ◌&&◌,
  ◌||◌, List, [], ◌∷◌, ◌++◌, Option, none, some, arith, Result, ok, raise, ◌>>=◌, All, Bool-cases,
  inl, inr, replicate, Exception, value_error, index_error, map,
}
use linuxtools.Str.{Text, codes, splitlines, starts_with, split, strip, is_space, is_break}
use linuxtools.Str.Number.{ℤ, pos, signed, decimal, int, all_digits}
use linuxtools.Str.Digits.{int-decimal, strip-decimal, all_digits-decimal}
use linuxtools.Str.Strip.{strip_blank}
use linuxtools.Str.Lines.{unlines, NoBreak, splitlines-unlines, lacks, split-lacks, split-append}
use linuxtools.Cpu.{
  Found, not_found, socket_label, core_label, item, field, caught, read_line, read_lines, Answer,
  info, missing, unexpected, nothing, check_found, handle, get_cpu_info,
}

-- A line of `lscpu`: one of the two counts behind its label and some spaces, or another line.
pub data Line : Type 0 where
  sockets : ℕ → ℕ → Line
  cores : ℕ → ℕ → Line
  other : Text → Line

unfoldable pub render : Line → Text
render (sockets pad n) = socket_label ++ (replicate pad b' ' ++ decimal n)
render (cores pad n) = core_label ++ (replicate pad b' ' ++ decimal n)
render (other line) = line

abbrev pub IsLine : Line → Type 0
IsLine (sockets pad n) = Unit
IsLine (cores pad n) = Unit
IsLine (other line) =
    NoBreak line × (starts_with line socket_label ≡ false) × (starts_with line core_label ≡ false)

-- The last count of each kind.
unfoldable pub last_counts : List Line → Found → Found
last_counts [] f = f
last_counts (sockets pad n ∷ ls) f = last_counts ls (record f { sockets = some (pos n) })
last_counts (cores pad n ∷ ls) f = last_counts ls (record f { cores_per_socket = some (pos n) })
last_counts (other line ∷ ls) f = last_counts ls f

last_counts-cons :
    (l : Line) (ls : List Line) (f : Found)
    → last_counts (l ∷ ls) f ≡ last_counts ls (last_counts (l ∷ []) f)
unfolding last_counts
last_counts-cons (sockets pad n) ls f = refl
last_counts-cons (cores pad n) ls f = refl
last_counts-cons (other line) ls f = refl

abbrev failed {ℓ} : {A : Type ℓ} → Result A → Bool
failed (ok _) = false
failed (raise _) = true

strip_pad : (pad n : ℕ) → strip (replicate pad b' ' ++ decimal n) ≡ decimal n
unfolding is_space
strip_pad zero n = strip-decimal n
strip_pad (suc pad) n = strip_blank b' ' (replicate pad b' ' ++ decimal n) refl ∙ strip_pad pad n

lacks-digits : (s : Text) → all_digits s ≡ true → lacks b':' s ≡ true
unfolding all_digits
lacks-digits [] h = refl
lacks-digits (c ∷ cs) h = ground (arith, lacks-digits cs)

digits-NoBreak : (s : Text) → all_digits s ≡ true → NoBreak s
unfolding all_digits is_break
digits-NoBreak [] h = refl
digits-NoBreak (c ∷ cs) h = ground (arith, digits-NoBreak cs)

lacks-pad : (pad n : ℕ) → lacks b':' (replicate pad b' ' ++ decimal n) ≡ true
lacks-pad zero n = lacks-digits (decimal n) (all_digits-decimal n)
lacks-pad (suc pad) n = lacks-pad pad n

pad-NoBreak : (pad n : ℕ) → NoBreak (replicate pad b' ' ++ decimal n)
unfolding is_break
pad-NoBreak zero n = digits-NoBreak (decimal n) (all_digits-decimal n)
pad-NoBreak (suc pad) n = pad-NoBreak pad n

-- The number behind a label and its colon.
field-label :
    (label : Text) (pad n : ℕ)
    → lacks b':' label ≡ true
    → field (label ++ (b':' ∷ (replicate pad b' ' ++ decimal n))) ≡ ok (pos n)
unfolding field item
field-label label pad n h =
    rw
      (
        split-append b':' label (replicate pad b' ' ++ decimal n) h,
        split-lacks b':' (replicate pad b' ' ++ decimal n) (lacks-pad pad n),
        field,
        item,
      )
      (int-decimal (strip (replicate pad b' ' ++ decimal n)) n
        (ap strip (strip_pad pad n) ∙ strip-decimal n))

read_line-render :
    (l : Line) (f : Found) → IsLine l → read_line (render l) f ≡ ok (last_counts (l ∷ []) f)
unfolding read_line render last_counts starts_with
read_line-render (sockets pad n) f h = rw (field-label (codes "Socket(s)") pad n refl)
read_line-render (cores pad n) f h = rw (field-label (codes "Core(s) per socket") pad n refl)
read_line-render (other line) f (_, p, q) = rw (p, q)

read_lines-render :
    (ls : List Line) (f : Found)
    → All IsLine ls
    → read_lines (map render ls) f ≡ ok (last_counts ls f)
unfolding read_lines
read_lines-render [] f h = unfold last_counts in refl
read_lines-render (l ∷ ls) f (h, hs) =
    rw (read_line-render l f h)
      (read_lines-render ls (last_counts (l ∷ []) f) hs ∙ ap ok (sym (last_counts-cons l ls f)))

render-NoBreak : (l : Line) → IsLine l → NoBreak (render l)
unfolding render is_break
render-NoBreak (sockets pad n) h = pad-NoBreak pad n
render-NoBreak (cores pad n) h = pad-NoBreak pad n
render-NoBreak (other line) h = h.0

render-All-NoBreak : (ls : List Line) → All IsLine ls → All NoBreak (map render ls)
render-All-NoBreak [] h = tt
render-All-NoBreak (l ∷ ls) (h, hs) = (render-NoBreak l h, render-All-NoBreak ls hs)

-- The last count of the sockets, and of the cores, or what there was before.
unfoldable pub last_sockets : Option ℤ → List Line → Option ℤ
last_sockets old [] = old
last_sockets old (sockets pad n ∷ ls) = last_sockets (some (pos n)) ls
last_sockets old (cores pad n ∷ ls) = last_sockets old ls
last_sockets old (other line ∷ ls) = last_sockets old ls

unfoldable pub last_cores : Option ℤ → List Line → Option ℤ
last_cores old [] = old
last_cores old (sockets pad n ∷ ls) = last_cores old ls
last_cores old (cores pad n ∷ ls) = last_cores (some (pos n)) ls
last_cores old (other line ∷ ls) = last_cores old ls

-- What is returned for the two counts, where each may be missing.
abbrev pub answer_for : Option ℤ → Option ℤ → Answer
answer_for (some s) (some c) = info (record { sockets = s; cores_per_socket = c })
answer_for (some s) none = nothing missing
answer_for none _ = nothing missing

check_found-last_counts :
    (ls : List Line) (f : Found)
    → check_found (last_counts ls f)
      ≡ answer_for (last_sockets f.sockets ls) (last_cores f.cores_per_socket ls)
unfolding last_counts last_sockets last_cores check_found
check_found-last_counts [] f = ground arith
check_found-last_counts (sockets pad n ∷ ls) f =
    check_found-last_counts ls (record f { sockets = some (pos n) })
check_found-last_counts (cores pad n ∷ ls) f =
    check_found-last_counts ls (record f { cores_per_socket = some (pos n) })
check_found-last_counts (other line ∷ ls) f = check_found-last_counts ls f

-- On any lines of `lscpu`, in any order, each of which is one of the two labels, spaces and a
-- number, or begins with neither label: the answer has the last count behind each of the two
-- labels, and it is None, with the message that information is missing, if a label stands in no
-- line.
pub get_cpu_info-render :
    (ls : List Line)
    → All IsLine ls
    → get_cpu_info (ok (unlines (map render ls)))
      ≡ answer_for (last_sockets none ls) (last_cores none ls)
unfolding get_cpu_info
get_cpu_info-render ls h =
    rw
      (
        splitlines-unlines (map render ls) (render-All-NoBreak ls h),
        read_lines-render ls not_found h,
        get_cpu_info,
      )
      (check_found-last_counts ls not_found)

-- A line with a label and no number behind it.
abbrev pub is_malformed : Text → Bool
is_malformed line =
    (starts_with line socket_label || starts_with line core_label) && failed (field line)

unfoldable pub any_malformed : List Text → Bool
any_malformed [] = false
any_malformed (line ∷ lines) = is_malformed line || any_malformed lines

-- A number, or an exception that only the last `except` clause takes.
abbrev Reads : {A : Type 0} → Result A → Type 0
Reads {A} r =
    ((a : A) × (r ≡ ok a)) ⊎ ((e : Exception) × (r ≡ raise e) × (handle e ≡ nothing unexpected))

int-Reads : (s : Text) → Reads (int s)
unfolding int handle
int-Reads s = elim (Option-cases (signed (strip s))) [
  | inl e ↦ inr (value_error, rw (e, int), refl)
  | inr (n, e) ↦ inl (n, rw (e, int))
]

field-Reads : (line : Text) → Reads (field line)
unfolding field item handle
field-Reads line = elim (Option-cases (get_elem? (split b':' line) 1)) [
  | inl e ↦ inr (index_error, rw (e, field, item), refl)
  | inr (s, e) ↦ elim (int-Reads (strip s)) [
    | inl (n, e') ↦ inl (n, rw (e, field, item, e'))
    | inr (x, e', h) ↦ inr (x, rw (e, field, item, e'), h)
  ]
]

-- The loop goes on over a line that is well formed, and ends at one that is not.
read_line-cases :
    (line : Text) (f : Found)
    → ((g : Found) × (read_line line f ≡ ok g) × (is_malformed line ≡ false))
      ⊎ ((e : Exception) × (read_line line f ≡ raise e) × (handle e ≡ nothing unexpected))
unfolding read_line
read_line-cases line f = elim (Bool-cases (starts_with line socket_label)) [
  | inl s ↦ elim (field-Reads line) [
    | inl (n, e) ↦ inl (record f { sockets = some n }, rw (s, e), rw (s, e))
    | inr (x, e, h) ↦ inr (x, rw (s, e), h)
  ]
  | inr s ↦ elim (Bool-cases (starts_with line core_label)) [
    | inl c ↦ elim (field-Reads line) [
      | inl (n, e) ↦ inl (record f { cores_per_socket = some n }, rw (s, c, e), rw (s, c, e))
      | inr (x, e, h) ↦ inr (x, rw (s, c, e), h)
    ]
    | inr c ↦ inl (f, rw (s, c), rw (s, c))
  ]
]

caught_lines :
    (lines : List Text) (f : Found)
    → any_malformed lines ≡ true
    → caught (read_lines lines f >>= λ g. ok (check_found g)) ≡ nothing unexpected
unfolding read_lines any_malformed
caught_lines [] f h = cc
caught_lines (line ∷ lines) f h = elim (read_line-cases line f) [
  | inl (g, e, well) ↦ rw e (caught_lines lines g (rw well at h))
  | inr (x, e, k) ↦ rw e k
]

-- One line with a label and no number behind it makes the answer None, with the message for an
-- unexpected error, whatever the other lines hold.
pub get_cpu_info-any_malformed :
    (text : Text)
    → any_malformed (splitlines text) ≡ true
    → get_cpu_info (ok text) ≡ nothing unexpected
unfolding get_cpu_info
get_cpu_info-any_malformed text h = caught_lines (splitlines text) not_found h
