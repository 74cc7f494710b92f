-- ===== src/Dict/Fresh.antt =====
-- A dict that is filled with the entries of another: keys that are new are listed in order.
use linuxtools.Base.{◌≡◌, refl, sym, ap, ◌∙◌, [], ◌∷◌, ◌++◌, none, arith, append-nil, append_assoc}
use linuxtools.Str.{Text}
use linuxtools.Str.Laws.{eqb_iff}
use linuxtools.Dict.{Dict, lookup, insert, NodupKeys, lookup-nil, lookup-insert}

module _ {ℓ} {V : Type ℓ} where
  -- `d[k] = v` for each entry of a list
  unfoldable pub insert_all : Dict V → Dict V → Dict V
  insert_all d [] = d
  insert_all d ((k, v) ∷ e) = insert_all (insert k v d) e

  insert_new :
      (k : Text) (v : V) (d : Dict V) → lookup k d ≡ none → insert k v d ≡ d ++ ((k, v) ∷ [])
  unfolding insert lookup
  insert_new k v [] h = refl
  insert_new k v ((j, w) ∷ d) h = ground (arith, insert_new k v d)

  -- No key of `e` is in `d`.
  abbrev Fresh : Dict V → Dict V → Type ℓ
  Fresh d [] = Unit
  Fresh d ((k, _) ∷ e) = (lookup k d ≡ none) × Fresh d e

  Fresh-insert :
      (k : Text) (v : V) (d e : Dict V) → lookup k e ≡ none → Fresh d e → Fresh (insert k v d) e
  unfolding lookup
  Fresh-insert k v d [] h f = tt
  Fresh-insert k v d ((j, w) ∷ e) h (f, fs) = (
    ground (arith, lookup-insert k j v d, eqb_iff k j, eqb_iff j k, h, f),
    Fresh-insert k v d e (ground (arith, h)) fs,
  )

  insert_all-Fresh : (d e : Dict V) → Fresh d e → NodupKeys e → insert_all d e ≡ d ++ e
  unfolding insert_all
  insert_all-Fresh d [] f u = sym (append-nil d)
  insert_all-Fresh d ((k, v) ∷ e) (f, fs) (new, u) =
      insert_all-Fresh (insert k v d) e (Fresh-insert k v d e new fs) u
      ∙ ap (λ t. t ++ e) (insert_new k v d f)
      ∙ append_assoc d ((k, v) ∷ []) e

  Fresh-nil : (e : Dict V) → Fresh [] e
  Fresh-nil [] = tt
  Fresh-nil ((k, v) ∷ e) = (lookup-nil k, Fresh-nil e)

  pub insert_all-nil : (e : Dict V) → NodupKeys e → insert_all [] e ≡ e
  insert_all-nil e u = insert_all-Fresh [] e (Fresh-nil e) u
