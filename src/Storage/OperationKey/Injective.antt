-- ===== src/Storage/OperationKey/Injective.antt =====
-- When two calculations have the same storage key.
use console_calculator.Prelude.{
  ℕ, ◌≡◌, ◌≢◌, refl, ap, sym, ◌∙◌, ◌↔◌, ◌⊎◌, inl, inr, ◌∷◌, ◌++◌, Option, none, some, arith, Bool,
  true,
}
use console_calculator.Prelude.Int.{ℤ}
use console_calculator.Text.{Text, codes, to_string}
use console_calculator.Text.Decimal.{
  IsDigit, IsNumeric, to_string_end, to_string-injective, to_string-cons,
}
use console_calculator.Support.{returned}
use console_calculator.Storage.OperationKey.Kinds.{
  Kind, sum, difference, product, quotient, power, factorial, commutes, key_of, symbol_of, Names,
  name-cases, make-key_of, make-unknown,
}
use console_calculator.Storage.OperationKey.{ordered, make}

-- The five symbols of the binary operations are single bytes that no number holds at that place.
abbrev pub binary_key : ℤ → ℕ → ℤ → Text
binary_key left symbol right = to_string left ++ (symbol ∷ to_string right)

abbrev pub factorial_key : ℤ → Text
factorial_key n = codes "fact(" ++ (to_string n ++ codes ")")

binary_key-injective :
    (a b c d : ℤ) {s t : ℕ}
    → ¬ IsDigit s
    → ¬ IsDigit t
    → binary_key a s b ≡ binary_key c t d
    → (a ≡ c) × (s ≡ t) × (b ≡ d)
binary_key-injective a b c d hs ht e =
    let ends = to_string_end a c hs ht e in (ends.0, ends.1, to_string-injective b d ends.2)

not-IsNumeric_f : ¬ IsNumeric b'f'
not-IsNumeric_f h = omega arith

drop_prefix : {x y : Text} → codes "fact(" ++ x ≡ codes "fact(" ++ y → x ≡ y
drop_prefix e = cc

factorial_key-injective : (a b : ℤ) → factorial_key a ≡ factorial_key b → a ≡ b
factorial_key-injective a b e =
    (to_string_end a b {c = b')'} {d = b')'} (λ h. omega arith) (λ h. omega arith)
      (drop_prefix e)).0

factorial-ne-binary : (n a b : ℤ) (s : ℕ) → factorial_key n ≢ binary_key a s b
factorial-ne-binary n a b s e =
    let (c, t, start, h) = to_string-cons a in
    let same : c ≡ b'f' = cc in not-IsNumeric_f (rw (← same) h)

-- What a calculation is, told without keys: its kind, and its operands, a pair in either order where
-- the operation commutes.
abbrev pub SameOperands : Kind → ℤ → Option ℤ → ℤ → Option ℤ → Type 0
SameOperands factorial a x b y = a ≡ b
SameOperands k a none b y = ⊥
SameOperands k a (some c) b none = ⊥
SameOperands k a (some c) b (some d) =
    ((a ≡ b) × (c ≡ d)) ⊎ ((commutes k ≡ true) × (a ≡ d) × (c ≡ b))

ordered-injective :
    (swaps : Bool) (a b c d : ℤ)
    → (ordered swaps a b).0 ≡ (ordered swaps c d).0
    → (ordered swaps a b).1 ≡ (ordered swaps c d).1
    → ((a ≡ c) × (b ≡ d)) ⊎ ((swaps ≡ true) × (a ≡ d) × (b ≡ c))
ordered-injective swaps a b c d h k = ground arith

ordered_swap : (swaps : Bool) (a b : ℤ) → swaps ≡ true → ordered swaps a b ≡ ordered swaps b a
ordered_swap swaps a b h = ground arith

byte : Kind → ℕ
byte sum = b'+'
byte difference = b'-'
byte product = b'*'
byte quotient = b'/'
byte power = b'^'
byte factorial = b'f'

byte-injective : (k l : Kind) → byte k ≡ byte l → k ≡ l
unfolding byte
byte-injective sum sum e = refl
byte-injective _ _ e = ground arith

not-IsDigit-byte : (k : Kind) → ¬ IsDigit (byte k)
unfolding byte
not-IsDigit-byte sum h = omega arith
not-IsDigit-byte _ h = omega arith

-- The key of a pair under a kind that takes two operands.
abbrev pair_key : Kind → ℤ → ℤ → Text
pair_key k a b = binary_key (ordered (commutes k) a b).0 (byte k) (ordered (commutes k) a b).1

pair_key-injective :
    (k l : Kind) (a c b d : ℤ)
    → pair_key k a c ≡ pair_key l b d
    → (k ≡ l) × (((a ≡ b) × (c ≡ d)) ⊎ ((commutes k ≡ true) × (a ≡ d) × (c ≡ b)))
pair_key-injective k l a c b d e =
    let (p, s, q) = binary_key-injective _ _ _ _ (not-IsDigit-byte k) (not-IsDigit-byte l) e in
    let same : k ≡ l = byte-injective k l s in
    let swaps : commutes l ≡ commutes k = rw same in
    (same, ordered-injective (commutes k) a c b d (rw swaps at p) (rw swaps at q))

returned-injective : {s t : Text} → returned s ≡ returned t → s ≡ t
returned-injective e = cc

pub key_of-injective :
    (k l : Kind) (a b : ℤ) (x y : Option ℤ) {t : Text}
    → key_of k a x ≡ returned t
    → key_of l b y ≡ returned t
    → (k ≡ l) × SameOperands k a x b y
unfolding byte
key_of-injective factorial factorial a b x y e f =
    (refl, factorial_key-injective a b (returned-injective (e ∙ sym f)))
key_of-injective factorial l a b x none e f = cc
key_of-injective factorial l a b x (some d) e f =
    absurd (factorial-ne-binary a _ _ (byte l) (returned-injective (e ∙ sym f)))
key_of-injective k factorial a b none y e f = cc
key_of-injective k factorial a b (some c) y e f =
    absurd (factorial-ne-binary b _ _ (byte k) (returned-injective (f ∙ sym e)))
key_of-injective k l a b none y e f = cc
key_of-injective k l a b (some c) none e f = cc
key_of-injective k l a b (some c) (some d) e f =
    pair_key-injective k l a c b d (returned-injective (e ∙ sym f))

pub key_of-SameOperands :
    (k : Kind) (a b : ℤ) (x y : Option ℤ) → SameOperands k a x b y → key_of k a x ≡ key_of k b y
key_of-SameOperands factorial a b x y h = rw h
key_of-SameOperands k a b none y h = absurd h
key_of-SameOperands k a b (some c) none h = absurd h
key_of-SameOperands k a b (some c) (some d) (inl (p, q)) = rw (p, q)
key_of-SameOperands k a b (some c) (some d) (inr (s, p, q)) =
    rw (p, q)
      (ap (λ (pair : ℤ × ℤ). returned (to_string pair.0 ++ (symbol_of k ++ to_string pair.1)))
        (ordered_swap (commutes k) d b s))

-- A key is made only for a name that storage knows, and it is the key of the name's kind.
pub make-returned :
    (op : Text) (a : ℤ) (x : Option ℤ) {t : Text}
    → make a x op ≡ returned t
    → (k : Kind) × Names op k × (key_of k a x ≡ returned t)
make-returned op a x e = elim (name-cases op) [
  | inl (k, h) ↦ (k, h, sym (make-key_of op k a x h) ∙ e)
  | inr u ↦ absurd (make-unknown op a x u e)
]

-- Two calculations that have keys have the same key exactly if their names stand for one kind of
-- operation and their operands are the same, in either order where that kind commutes.
pub make_identifies :
    (op op' : Text) (a b : ℤ) (x y : Option ℤ) {s t : Text}
    → make a x op ≡ returned s
    → make b y op' ≡ returned t
    → (s ≡ t) ↔ ((k : Kind) × Names op k × Names op' k × SameOperands k a x b y)
make_identifies op op' a b x y {s} {t} e f = (forwards, backwards)
  where
    forwards : s ≡ t → (k : Kind) × Names op k × Names op' k × SameOperands k a x b y
    forwards same =
        let (k, h, p) = make-returned op a x e in
        let (l, h', q) = make-returned op' b y f in
        let (kinds, operands) = key_of-injective k l a b x y (p ∙ ap returned same) q in
        (k, h, rw kinds h', operands)

    backwards : (k : Kind) × Names op k × Names op' k × SameOperands k a x b y → s ≡ t
    backwards (k, h, h', operands) = returned-injective (
        sym e
        ∙ make-key_of op k a x h
        ∙ key_of-SameOperands k a b x y operands
        ∙ sym (make-key_of op' k b y h')
        ∙ f)
