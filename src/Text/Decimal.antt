-- ===== src/Text/Decimal.antt =====
-- The decimal digits that `std::to_string` prints.
use console_calculator.Prelude.{
  ℕ, zero, suc, ◌+◌, ◌-◌, ◌*◌, ◌/◌, ◌%◌, ◌≤◌, ◌≡◌, refl, ap, ◌⊎◌, inl, inr, [], ◌∷◌, ◌++◌, arith,
  All, All-append, Bool-cases, ltb,
}
use console_calculator.Prelude.Int.{ℤ, pos, negsuc}
use console_calculator.Text.{Text, digits, to_string}

abbrev pub IsDigit : ℕ → Type 0
IsDigit c = (b'0' ≤ c) × (c ≤ b'9')

abbrev pub value : ℕ → Text → ℕ
value n [] = n
value n (c ∷ s) = value (n * 10 + (c - b'0')) s

pub value-append : (s t : Text) (n : ℕ) → value n (s ++ t) ≡ value (value n s) t
value-append [] t n = refl
value-append (c ∷ s) t n = value-append s t (n * 10 + (c - b'0'))

pub digits-IsDigit : (f n : ℕ) → All IsDigit (digits f n)
unfolding digits
digits-IsDigit zero n = omega arith
digits-IsDigit (suc f) n = ground (
  arith,
  All-append IsDigit (digits f (n / 10)) ((b'0' + n % 10) ∷ []) (digits-IsDigit f (n / 10))
      (omega arith),
)

pub value-digits : (f n : ℕ) → n ≤ f → value 0 (digits f n) ≡ n
unfolding digits
value-digits zero n h = omega arith
value-digits (suc f) n h =
    ground
      (arith, value-append (digits f (n / 10)) ((b'0' + n % 10) ∷ []) 0, value-digits f (n / 10))

pub digits-injective : (n m : ℕ) → digits n n ≡ digits m m → n ≡ m
digits-injective n m h = cc (value-digits n n (omega arith), value-digits m m (omega arith))

-- A digit text followed by a byte that is no digit ends there.
pub digits_end :
    (s t : Text) {c d : ℕ} {x y : Text}
    → All IsDigit s
    → All IsDigit t
    → ¬ IsDigit c
    → ¬ IsDigit d
    → s ++ c ∷ x ≡ t ++ d ∷ y
    → (s ≡ t) × (c ≡ d) × (x ≡ y)
digits_end [] [] hs ht hc hd e = (refl, cc, cc)
digits_end [] (a ∷ t) {c} hs ht hc hd e = let same : c ≡ a = cc in absurd (hc (rw same ht.0))
digits_end (a ∷ s) [] {d = d} hs ht hc hd e = let same : d ≡ a = cc in absurd (hd (rw same hs.0))
digits_end (a ∷ s) (b ∷ t) {c} {d} {x} {y} hs ht hc hd e =
    let rest : s ++ c ∷ x ≡ t ++ d ∷ y = cc in
    let ends = digits_end s t hs.1 ht.1 hc hd rest in
    let heads : a ≡ b = cc in (cc (ends.0), ends.1, ends.2)

not-IsDigit_minus : ¬ IsDigit b'-'
not-IsDigit_minus h = omega arith

pub digits-cons : (f n : ℕ) → (c : ℕ) × (s : Text) × (digits f n ≡ c ∷ s) × IsDigit c
unfolding digits
digits-cons zero n = (b'0' + n % 10, [], refl, omega arith)
digits-cons (suc f) n = elim (Bool-cases (ltb n 10)) [
  | inl small ↦ (b'0' + n, [], rw small, ground arith)
  | inr large ↦
      let (c, s, e, h) = digits-cons f (n / 10) in (c, s ++ (b'0' + n % 10) ∷ [], rw (large, e), h)
]

-- Two printed integers, each followed by a byte that is no digit, agree only if they are equal.
pub to_string_end :
    (a b : ℤ) {c d : ℕ} {x y : Text}
    → ¬ IsDigit c
    → ¬ IsDigit d
    → to_string a ++ c ∷ x ≡ to_string b ++ d ∷ y
    → (a ≡ b) × (c ≡ d) × (x ≡ y)
unfolding to_string
to_string_end (pos n) (pos m) hc hd e =
    let ends =
      digits_end (digits n n) (digits m m) (digits-IsDigit n n) (digits-IsDigit m m) hc hd e in
    (ap pos (digits-injective n m ends.0), ends.1, ends.2)
to_string_end (pos n) (negsuc m) hc hd e =
    let (k, s, es, hk) = digits-cons n n in
    let same : k ≡ b'-' = cc in absurd (not-IsDigit_minus (rw (← same) hk))
to_string_end (negsuc n) (pos m) hc hd e =
    let (k, s, es, hk) = digits-cons m m in
    let same : k ≡ b'-' = cc in absurd (not-IsDigit_minus (rw (← same) hk))
to_string_end (negsuc n) (negsuc m) {c} {d} {x} {y} hc hd e =
    let rest : digits (suc n) (suc n) ++ c ∷ x ≡ digits (suc m) (suc m) ++ d ∷ y = cc in
    let ends =
      digits_end (digits (suc n) (suc n)) (digits (suc m) (suc m)) (digits-IsDigit (suc n) (suc n))
        (digits-IsDigit (suc m) (suc m)) hc hd rest in
    let same : n ≡ m = omega (arith, digits-injective (suc n) (suc m) ends.0) in
    (ap negsuc same, ends.1, ends.2)

pub to_string-injective : (a b : ℤ) → to_string a ≡ to_string b → a ≡ b
to_string-injective a b e =
    (to_string_end a b {c = 0} {d = 0} {x = []} {y = []} (λ h. omega arith) (λ h. omega arith)
      (ap (λ (t : Text). t ++ 0 ∷ []) e)).0

-- The first byte of a printed integer is a digit or the minus sign.
abbrev pub IsNumeric : ℕ → Type 0
IsNumeric c = IsDigit c ⊎ (c ≡ b'-')

pub to_string-cons : (a : ℤ) → (c : ℕ) × (s : Text) × (to_string a ≡ c ∷ s) × IsNumeric c
unfolding to_string
to_string-cons (pos n) = let (c, s, e, h) = digits-cons n n in (c, s, e, inl h)
to_string-cons (negsuc n) = (b'-', digits (suc n) (suc n), refl, inr refl)
