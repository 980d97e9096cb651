-- ===== src/Storage/OperationKey/Kinds.antt =====
-- The operation names that storage knows, and the key of each kind of operation.
use console_calculator.Prelude.{
  ◌≡◌, ◌≢◌, refl, ◌⊎◌, inl, inr, [], ◌∷◌, ◌++◌, Option, none, some, Bool-cases, Bool, true, false,
}
use console_calculator.Prelude.Int.{ℤ}
use console_calculator.Text.{Text, codes, to_string, ◌===◌}
use console_calculator.Text.Equality.{===_sound}
use console_calculator.Support.{
  Result, returned, thrown, calculator_exception, to_int, error_invalid_operation,
  error_missing_second_number, Exception,
}
use console_calculator.Storage.OperationKey.{
  ordered, make, symbol_for, is_factorial, is_commutative,
}

pub data Kind : Type 0 where
  sum difference product quotient power factorial : Kind

abbrev pub symbol_of : Kind → Text
symbol_of sum = b'+' ∷ []
symbol_of difference = b'-' ∷ []
symbol_of product = b'*' ∷ []
symbol_of quotient = b'/' ∷ []
symbol_of power = b'^' ∷ []
symbol_of factorial = codes "fact"

abbrev pub takes_one : Kind → Bool
takes_one factorial = true
takes_one _ = false

abbrev pub commutes : Kind → Bool
commutes sum = true
commutes product = true
commutes _ = false

-- The name `op` stands for `kind`.
pub record Names (op : Text) (kind : Kind) : Type 0 where
  pub symbol : symbol_for op ≡ returned (symbol_of kind)
  pub one : is_factorial op ≡ takes_one kind
  pub commutative : is_commutative op ≡ commutes kind

abbrev pub unsupported : Text → Exception
unsupported op =
    calculator_exception (to_int error_invalid_operation)
      (codes "Unsupported operation for storage key: " ++ op)

abbrev pub missing_second : Exception
missing_second =
    calculator_exception (to_int error_missing_second_number)
      (codes "Second number is required for binary operation storage key.")

pub record IsUnknown (op : Text) : Type 0 where
  pub refused : symbol_for op ≡ thrown (unsupported op)
  pub not_factorial : is_factorial op ≡ false

module _ (op : Text) where
  spelled : (name : Text) (kind : Kind) → Names name kind → (op === name) ≡ true → Names op kind
  spelled name kind h e = let same : op ≡ name = ===_sound op name e in rw same h

-- The names of a kind, in the order in which `symbol_for` tests them.
abbrev pub word : Kind → Text
word sum = codes "add"
word difference = codes "sub"
word product = codes "mul"
word quotient = codes "div"
word power = codes "pow"
word factorial = codes "fact"

abbrev sign : Kind → Text
sign sum = codes "+"
sign difference = codes "-"
sign product = codes "*"
sign quotient = codes "/"
sign power = codes "^"
sign factorial = codes "!"

pub word-Names : (k : Kind) → Names (word k) k
unfolding symbol_for is_commutative is_factorial ◌===◌
word-Names sum = record { symbol = refl; one = refl; commutative = refl }
word-Names _ = record { symbol = refl; one = refl; commutative = refl }

sign-Names : (k : Kind) → Names (sign k) k
unfolding symbol_for is_commutative is_factorial ◌===◌
sign-Names sum = record { symbol = refl; one = refl; commutative = refl }
sign-Names _ = record { symbol = refl; one = refl; commutative = refl }

factorial-Names : Names (codes "factorial") factorial
unfolding symbol_for is_commutative is_factorial ◌===◌
factorial-Names = record { symbol = refl; one = refl; commutative = refl }

-- A name is not one of the two of a kind.
abbrev Misses : Text → Kind → Type 0
Misses op k = ((op === word k) ≡ false) × ((op === sign k) ≡ false)

spells : (op : Text) (k : Kind) → Names op k ⊎ Misses op k
spells op k = elim (Bool-cases (op === word k)) [
  | inl e ↦ inl (spelled op (word k) k (word-Names k) e)
  | inr e ↦ elim (Bool-cases (op === sign k)) [
    | inl e' ↦ inl (spelled op (sign k) k (sign-Names k) e')
    | inr e' ↦ inr (e, e')
  ]
]

unknown :
    (op : Text) → ((k : Kind) → Misses op k) → (op === codes "factorial") ≡ false → IsUnknown op
unfolding symbol_for is_factorial
unknown op h long = record {
  refused = rw (
    (h sum).0,
    (h sum).1,
    (h difference).0,
    (h difference).1,
    (h product).0,
    (h product).1,
    (h quotient).0,
    (h quotient).1,
    (h power).0,
    (h power).1,
    (h factorial).0,
    (h factorial).1,
    long,
  );
  not_factorial = rw ((h factorial).0, (h factorial).1, long);
}

module _ {P Q : Kind → Type 0} (h : (k : Kind) → P k ⊎ Q k) where
  first_of_two : (k : Kind) {R : Type 0} → (Q k → ((k : Kind) × P k) ⊎ R) → ((k : Kind) × P k) ⊎ R
  first_of_two k rest = elim (h k) [ inl p ↦ inl (k, p) | inr q ↦ rest q ]

module _ (Q : Kind → Type 0) (a : Q sum) (b : Q difference) (c : Q product) (d : Q quotient)
    (e : Q power) (f : Q factorial) where
  every : (k : Kind) → Q k
  every sum = a
  every difference = b
  every product = c
  every quotient = d
  every power = e
  every factorial = f

module _ {P Q : Kind → Type 0} (h : (k : Kind) → P k ⊎ Q k) where
  some_or_every : ((k : Kind) × P k) ⊎ ((k : Kind) → Q k)
  some_or_every = first_of_two h sum λ a. first_of_two h difference λ b. first_of_two h product λ c.
      first_of_two h quotient
        λ d. first_of_two h power λ e. first_of_two h factorial λ f. inr (every Q a b c d e f)

-- Every text is the name of a kind, or storage refuses it.
pub name-cases : (op : Text) → ((k : Kind) × Names op k) ⊎ IsUnknown op
name-cases op = elim (some_or_every (spells op)) [
  | inl found ↦ inl found
  | inr missed ↦ elim (Bool-cases (op === codes "factorial")) [
    | inl e ↦ inl (factorial, spelled op (codes "factorial") factorial factorial-Names e)
    | inr e ↦ inr (unknown op missed e)
  ]
]

-- The key of a calculation, by its kind.
abbrev pub key_of : Kind → ℤ → Option ℤ → Result Text
key_of factorial a x = returned (codes "fact(" ++ (to_string a ++ codes ")"))
key_of k a none = thrown missing_second
key_of k a (some b) =
    let (left, right) = ordered (commutes k) a b in
    returned (to_string left ++ (symbol_of k ++ to_string right))

pub make-key_of :
    (op : Text) (k : Kind) (a : ℤ) (x : Option ℤ) → Names op k → make a x op ≡ key_of k a x
unfolding make
make-key_of op factorial a x h = rw h.one
make-key_of op _ a none h = rw h.one
make-key_of op _ a (some b) h = rw (h.one, h.symbol, h.commutative)

pub make-IsUnknown :
    (op : Text) (a b : ℤ) → IsUnknown op → make a (some b) op ≡ thrown (unsupported op)
unfolding make
make-IsUnknown op a b h = rw (h.not_factorial, h.refused)

pub make-unknown :
    (op : Text) (a : ℤ) (x : Option ℤ) {t : Text} → IsUnknown op → make a x op ≢ returned t
unfolding make
make-unknown op a none u e = cc (rw u.not_factorial at e)
make-unknown op a (some b) u e = cc (make-IsUnknown op a b u)
