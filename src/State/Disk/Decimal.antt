-- ===== src/State/Disk/Decimal.antt =====
-- Numbers in decimal, as `format!` writes them, and that different numbers read differently.
use lmux.Prelude.{
  ℕ, zero, suc, ◌+◌, ◌-◌, ◌*◌, ◌/◌, ◌%◌, ◌≤◌, ◌<◌, [], ◌∷◌, ◌++◌, Text, if◌then◌else◌, ltb, ◌≡◌,
  refl, arith, ◌∙◌, sym, ap, Bool-cases, inl, inr,
}

digits : ℕ → ℕ → Text
digits zero n = []
digits (suc fuel) n =
    let rest = digits fuel (n / 10) ++ (48 + n % 10) ∷ [] in
    if ltb n 10 then (48 + n) ∷ [] else rest

-- The number has fewer digits than the fuel.
unfoldable pub to_string : ℕ → Text
unfolding digits
to_string n = digits (suc n) n

value : ℕ → Text → ℕ
value acc [] = acc
value acc (c ∷ s) = value (10 * acc + (c - 48)) s

value-append : (acc : ℕ) (s : Text) (c : ℕ) → value acc (s ++ c ∷ []) ≡ 10 * value acc s + (c - 48)
unfolding value
value-append acc [] c = refl
value-append acc (x ∷ s) c = value-append (10 * acc + (x - 48)) s c

value-digits : (fuel n : ℕ) → n < fuel → value 0 (digits fuel n) ≡ n
unfolding digits
value-digits zero n h = elim h [ ]
value-digits (suc fuel) n h = elim (Bool-cases (ltb n 10)) [
  | inl e ↦ rw e (unfold value in omega arith)
  | inr e ↦
      let small : 10 ≤ n = ground arith in
      rw (e, value-append 0 (digits fuel (n / 10)) (48 + n % 10))
        (omega (arith, value-digits fuel (n / 10) (omega arith)))
]

-- Different numbers are written differently.
pub to_string-injective : (m n : ℕ) → to_string m ≡ to_string n → m ≡ n
unfolding to_string
to_string-injective m n h =
    sym (value-digits (suc m) m (omega arith))
    ∙ ap (value 0) h
    ∙ value-digits (suc n) n (omega arith)

-- The last character, or the given one.
abbrev pub last_or : ℕ → Text → ℕ
last_or d [] = d
last_or d (x ∷ s) = last_or x s

pub last_or-append : (d x : ℕ) (s t : Text) → last_or d (s ++ x ∷ t) ≡ last_or x t
last_or-append d x [] t = refl
last_or-append d x (y ∷ s) t = last_or-append y x s t

last_or-digits : (fuel d n : ℕ) → d ≤ 57 → last_or d (digits fuel n) ≤ 57
unfolding digits
last_or-digits zero d n h = h
last_or-digits (suc fuel) d n h = elim (Bool-cases (ltb n 10)) [
  | inl e ↦ let small : n < 10 = ground arith in rw e (omega arith)
  | inr e ↦ rw (e, last_or-append d (48 + n % 10) (digits fuel (n / 10)) []) (omega arith)
]

-- A number is written with a digit at the end.
pub last_or-to_string : (d n : ℕ) → d ≤ 57 → last_or d (to_string n) ≤ 57
unfolding to_string
last_or-to_string d n h = last_or-digits (suc n) d n h
