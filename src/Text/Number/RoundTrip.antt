-- ===== src/Text/Number/RoundTrip.antt =====
-- `std::stoi` on what `std::to_string` prints.
use console_calculator.Prelude.{
  ℕ, suc, ◌+◌, ◌-◌, ◌*◌, ◌≡◌, refl, sym, ◌∙◌, ap, subst, ◌⊎◌, inl, inr, Bool, true, false, some, [],
  ◌∷◌, arith, All,
}
use console_calculator.Prelude.Int.{ℤ, pos, negsuc, InInt}
use console_calculator.Text.{Text, digits, to_string}
use console_calculator.Text.Decimal.{IsDigit, value, digits-IsDigit, value-digits, digits-cons}
use console_calculator.Support.{returned}
use console_calculator.Text.Number.{
  skip_spaces, read_digits, read_magnitude, read_signed, stoi, in_int, signed,
}

read_digits-All : (s : Text) (n : ℕ) → All IsDigit s → read_digits n s ≡ value n s
unfolding read_digits
read_digits-All [] n h = refl
read_digits-All (c ∷ s) n h = ground (arith, read_digits-All s (n * 10 + (c - b'0')) (h.1))

read_magnitude_digit :
    (c : ℕ) (s : Text) → IsDigit c → read_magnitude (c ∷ s) ≡ some (read_digits 0 (c ∷ s))
unfolding read_magnitude
read_magnitude_digit c s h = ground arith

read_magnitude-digits : (n : ℕ) → read_magnitude (digits n n) ≡ some n
read_magnitude-digits n =
    let (c, s, e, h) = digits-cons n n in
    let all_digits : All IsDigit (c ∷ s) = subst (All IsDigit) e (digits-IsDigit n n) in
    let number : read_digits 0 (c ∷ s) ≡ n =
      read_digits-All (c ∷ s) 0 all_digits
      ∙ ap (value 0) (sym e)
      ∙ value-digits n n (omega arith) in
    ap read_magnitude e ∙ read_magnitude_digit c s h ∙ ap some number

skip_spaces_printed : (c : ℕ) (s : Text) → IsDigit c ⊎ (c ≡ b'-') → skip_spaces (c ∷ s) ≡ c ∷ s
unfolding skip_spaces
skip_spaces_printed c s h = ground arith

read_signed_digit :
    (c : ℕ) (s : Text) → IsDigit c → read_signed (c ∷ s) ≡ (false, read_magnitude (c ∷ s))
unfolding read_signed
read_signed_digit c s h = ground arith

in_int_fits :
    (minus : Bool) (n : ℕ)
    → InInt (signed minus n)
    → in_int (minus, some n) ≡ returned (signed minus n)
in_int_fits minus n fits = ground arith

stoi_read :
    (s : Text) (minus : Bool) (n : ℕ) (a : ℤ)
    → read_signed (skip_spaces s) ≡ (minus, some n)
    → signed minus n ≡ a
    → InInt a
    → stoi s ≡ returned a
unfolding stoi
stoi_read s minus n a read same fits =
    ap in_int read ∙ in_int_fits minus n (subst InInt (sym same) fits) ∙ ap returned same

-- Every `int` is read back from its print.
pub stoi-to_string : (a : ℤ) → InInt a → stoi (to_string a) ≡ returned a
unfolding to_string
stoi-to_string (pos n) fits =
    let (c, s, e, h) = digits-cons n n in
    stoi_read (digits n n) false n (pos n)
      (rw
        (e, skip_spaces_printed c s (inl h), read_signed_digit c s h, ← e, read_magnitude-digits n))
      (ground arith) fits
stoi-to_string (negsuc n) fits =
    stoi_read (b'-' ∷ digits (suc n) (suc n)) true (suc n) (negsuc n)
      (rw (skip_spaces_printed b'-' (digits (suc n) (suc n)) (inr refl))
        (unfold read_signed in rw (read_magnitude-digits (suc n))))
      (ground arith) fits
