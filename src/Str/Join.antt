-- ===== src/Str/Join.antt =====
-- `split` undoes `join`.
use linuxtools.Base.{arith, ◌++◌, refl, ℕ, ◌≡◌, ap, true, List, [], ◌∷◌, All}
use linuxtools.Str.{Text, split, join}
use linuxtools.Str.Lines.{lacks, lacks-append, split-lacks, lacks-append, split-append}

abbrev pub Lacks : ℕ → Text → Type 0
Lacks c w = lacks c w ≡ true

pub split-join :
    (c : ℕ) (w : Text) (ws : List Text)
    → All (Lacks c) (w ∷ ws)
    → split c (join (c ∷ []) (w ∷ ws)) ≡ w ∷ ws
unfolding join
split-join c w [] (h, _) = split-lacks c w h
split-join c w (v ∷ ws) (h, hs) =
    rw (split-append c w (join (c ∷ []) (v ∷ ws)) h) (ap (◌∷◌ w) (split-join c v ws hs))

pub append-Lacks : (c : ℕ) (a b : Text) → Lacks c a → Lacks c b → Lacks c (a ++ b)
append-Lacks c a b h k = ground (arith, lacks-append c a b)

pub join-Lacks :
    (c : ℕ) (sep : Text) (ws : List Text) → Lacks c sep → All (Lacks c) ws → Lacks c (join sep ws)
unfolding join
join-Lacks c sep [] s h = refl
join-Lacks c sep (w ∷ []) s (h, _) = h
join-Lacks c sep (w ∷ v ∷ ws) s (h, hs) =
    append-Lacks c w _ h (append-Lacks c sep _ s (join-Lacks c sep (v ∷ ws) s hs))
