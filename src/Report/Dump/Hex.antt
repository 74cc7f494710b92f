-- ===== src/Report/Dump/Hex.antt =====
-- The digits of `\u` in the JSON of VMM_Hygine_Report.py: what `%04x` prints, and its reading.
use linuxtools.Base.{
  ℕ, zero, suc, ◌-◌, ◌/◌, ◌%◌, ◌≡◌, ◌≤◌, ◌<◌, refl, ap, ◌∙◌, [], ◌∷◌, ◌++◌, some, arith, ltb,
  length, replicate, Bool-cases, inl, inr,
}
use linuxtools.Str.{Text}
use linuxtools.Str.Number.{hex_digit, hex_onto, hex}
use linuxtools.Report.Dump.Read.{hex_value}

hex_onto-last : (fuel n : ℕ) (acc : Text) → n < 16 → hex_onto (suc fuel) n acc ≡ hex_digit n ∷ acc
unfolding hex_onto
hex_onto-last fuel n acc h = ground arith

hex_onto-step :
    (fuel n : ℕ) (acc : Text)
    → n < fuel
    → 16 ≤ n
    → (k : ℕ) × (n / 16 < k)
      × (hex_onto fuel n acc ≡ hex_onto k (n / 16) (hex_digit (n % 16) ∷ acc))
unfolding hex_onto
hex_onto-step zero n acc h l = absurd (omega (arith, h))
hex_onto-step (suc fuel) n acc h l = (fuel, omega (arith, h, l), ground arith)

hex_onto-end :
    (fuel n : ℕ) (acc : Text) → n < fuel → n < 16 → hex_onto fuel n acc ≡ hex_digit n ∷ acc
hex_onto-end zero n acc h l = absurd (omega (arith, h))
hex_onto-end (suc fuel) n acc h l = hex_onto-last fuel n acc l

abbrev pub four : ℕ → Text
four n =
    hex_digit (n / 4096)
    ∷ hex_digit (n / 256 % 16)
    ∷ hex_digit (n / 16 % 16)
    ∷ hex_digit (n % 16)
    ∷ []

-- The digits without the zeros in front, by their number.
hex_onto-1 : (n : ℕ) → n < 16 → hex_onto (suc n) n [] ≡ hex_digit n ∷ []
hex_onto-1 n h = hex_onto-end (suc n) n [] (omega arith) h

hex_onto-2 :
    (fuel n : ℕ) (acc : Text)
    → n < fuel
    → 16 ≤ n
    → n < 256
    → hex_onto fuel n acc ≡ hex_digit (n / 16) ∷ hex_digit (n % 16) ∷ acc
hex_onto-2 fuel n acc f l h =
    let (k, up, e) = hex_onto-step fuel n acc f l in
    e ∙ hex_onto-end k (n / 16) _ up (omega (arith, h))

hex_onto-3 :
    (fuel n : ℕ) (acc : Text)
    → n < fuel
    → 256 ≤ n
    → n < 4096
    → hex_onto fuel n acc
      ≡ hex_digit (n / 16 / 16) ∷ hex_digit (n / 16 % 16) ∷ hex_digit (n % 16) ∷ acc
hex_onto-3 fuel n acc f l h =
    let (k, up, e) = hex_onto-step fuel n acc f (omega (arith, l)) in
    e ∙ hex_onto-2 k (n / 16) _ up (omega (arith, l)) (omega (arith, h))

hex_onto-4 :
    (n : ℕ)
    → 4096 ≤ n
    → n < 65536
    → hex_onto (suc n) n []
      ≡ hex_digit (n / 16 / 16 / 16)
        ∷ hex_digit (n / 16 / 16 % 16)
        ∷ hex_digit (n / 16 % 16)
        ∷ hex_digit (n % 16)
        ∷ []
hex_onto-4 n l h =
    let (k, up, e) = hex_onto-step (suc n) n [] (omega arith) (omega (arith, l)) in
    e ∙ hex_onto-3 k (n / 16) _ up (omega (arith, l)) (omega (arith, h))

four-same :
    {a b c d a' b' c' d' : ℕ}
    → a ≡ a'
    → b ≡ b'
    → c ≡ c'
    → d ≡ d'
    → hex_digit a ∷ hex_digit b ∷ hex_digit c ∷ hex_digit d ∷ []
      ≡ hex_digit a' ∷ hex_digit b' ∷ hex_digit c' ∷ hex_digit d' ∷ []
four-same p q r s = rw (p, q, r, s) refl

abbrev zeroed : Text → Text
zeroed s = replicate (4 - length s) b'0' ++ s

pub hex-four : (n : ℕ) → n < 65536 → hex 4 n ≡ four n
unfolding hex
hex-four n h = elim (Bool-cases (ltb n 16)) [
  | inl a ↦ ap zeroed (hex_onto-1 n (ground (arith, a))) ∙ ground (arith, a)
  | inr a ↦ elim (Bool-cases (ltb n 256)) [
    | inl b ↦
        ap zeroed (hex_onto-2 (suc n) n [] (omega arith) (ground (arith, a)) (ground (arith, b)))
        ∙ ground (arith, a, b)
    | inr b ↦ elim (Bool-cases (ltb n 4096)) [
      | inl c ↦
          ap zeroed (hex_onto-3 (suc n) n [] (omega arith) (ground (arith, b)) (ground (arith, c)))
          ∙ (let top : 0 ≡ n / 4096 = ground (arith, c) in
              let second : n / 16 / 16 ≡ n / 256 % 16 = ground (arith, c) in
              four-same top second refl refl)
      | inr c ↦
          ap zeroed (hex_onto-4 n (ground (arith, c)) h)
          ∙ four-same (omega arith) (omega arith) refl refl
    ]
  ]
]

pub hex_value-hex_digit : (d : ℕ) → d < 16 → hex_value (hex_digit d) ≡ some d
hex_value-hex_digit d h = ground arith
