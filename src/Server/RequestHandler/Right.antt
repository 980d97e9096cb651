-- ===== src/Server/RequestHandler/Right.antt =====
-- The records that the handler stores.
use console_calculator.Prelude.{
  suc, ◌<◌, ◌≡◌, refl, sym, ap, subst, ◌∙◌, Option, none, some, [], ◌∷◌, ◌++◌, All, All-append,
  arith,
}
use console_calculator.Prelude.Int.{ℤ, pos, negsuc, InInt}
use console_calculator.Text.{Text, codes, digits, to_string}
use console_calculator.Text.Decimal.{IsDigit, digits-IsDigit}
use console_calculator.Support.{returned}
use console_calculator.Core.Abacus.{MathLib, MathError, map_math_error}
use console_calculator.Storage.{OperationRecord}
use console_calculator.Storage.Storable.{HasNoZero, FitsOptional, IsStorable}
use console_calculator.Storage.OperationKey.{ordered}
use console_calculator.Storage.OperationKey.Kinds.{
  Kind, factorial, word, symbol_of, commutes, key_of,
}
use console_calculator.Storage.OperationKey.Injective.{key_of-injective}
use console_calculator.Server.RequestHandler.Meaning.{
  evaluate-SameOperands, operand_of, or_zero, admit, value_of, call, evaluate, IsArithmetic, Holds,
}
use console_calculator.Server.RequestHandler.Given.{Fits}
use console_calculator.Server.RequestHandler.Outcome.{stored, stored-Holds, cache_key-stored}

module _ (M : MathLib) where
  -- The record holds the outcome of a calculation with this key.
  abbrev pub IsOutcome : Text → OperationRecord → Type 0
  IsOutcome key r =
      (k : Kind) × (a : ℤ) × (x : Option ℤ) × (key_of k a x ≡ returned key)
      × Holds r (evaluate M k a x)

  abbrev pub IsRight : OperationRecord → Type 0
  IsRight r = IsStorable r × IsOutcome r.cache_key r

pub evaluate-operand_of :
    (M : MathLib) (k : Kind) (a : ℤ) (x : Option ℤ)
    → evaluate M k a (operand_of k x) ≡ evaluate M k a x
evaluate-operand_of M factorial a x = refl
evaluate-operand_of M _ a x = refl

digits_no_zero : (s : Text) → All IsDigit s → HasNoZero s
digits_no_zero [] h = tt
digits_no_zero (c ∷ s) h = (omega (arith, h.0), digits_no_zero s h.1)

to_string-HasNoZero : (a : ℤ) → HasNoZero (to_string a)
unfolding to_string
to_string-HasNoZero (pos n) = digits_no_zero (digits n n) (digits-IsDigit n n)
to_string-HasNoZero (negsuc n) =
    (omega arith, digits_no_zero (digits (suc n) (suc n)) (digits-IsDigit (suc n) (suc n)))

symbol_of-HasNoZero : (k : Kind) → HasNoZero (symbol_of k)
symbol_of-HasNoZero factorial = ground arith
symbol_of-HasNoZero k = ground arith

word-HasNoZero : (k : Kind) → HasNoZero (word k)
word-HasNoZero k = ground arith

append_no_zero : (s t : Text) → HasNoZero s → HasNoZero t → HasNoZero (s ++ t)
append_no_zero s t h k = All-append (λ c. 0 < c) s t h k

binary-HasNoZero : (a b : ℤ) (k : Kind) → HasNoZero (to_string a ++ (symbol_of k ++ to_string b))
binary-HasNoZero a b k =
    append_no_zero (to_string a) (symbol_of k ++ to_string b) (to_string-HasNoZero a)
      (append_no_zero (symbol_of k) (to_string b) (symbol_of-HasNoZero k) (to_string-HasNoZero b))

key_of-HasNoZero :
    (k : Kind) (a : ℤ) (x : Option ℤ) {key : Text} → key_of k a x ≡ returned key → HasNoZero key
key_of-HasNoZero factorial a x {key} e =
    let same : codes "fact(" ++ (to_string a ++ codes ")") ≡ key = cc in
    subst HasNoZero same (
      append_no_zero (codes "fact(") (to_string a ++ codes ")") (ground arith)
        (append_no_zero (to_string a) (codes ")") (to_string-HasNoZero a) (ground arith)))
key_of-HasNoZero k a none e = cc
key_of-HasNoZero k a (some b) {key} e =
    let (left, right) = ordered (commutes k) a b in
    let same : to_string left ++ (symbol_of k ++ to_string right) ≡ key = cc in
    subst HasNoZero same (binary-HasNoZero left right k)

operand-FitsOptional : (k : Kind) (a : ℤ) (x : Option ℤ) → Fits a x → FitsOptional (operand_of k x)
operand-FitsOptional factorial a x h = tt
operand-FitsOptional k a none h = tt
operand-FitsOptional _ a (some b) h = h.1

first-Fits : (a : ℤ) (x : Option ℤ) → Fits a x → InInt a
first-Fits a none h = h
first-Fits a (some b) h = h.0

-- What is stored of an outcome of the library fits the table.
stored-IsStorable :
    (k : Kind) (a : ℤ) (x : Option ℤ) (key : Text) (o : MathError × ℤ)
    → Fits a x
    → HasNoZero key
    → (o.0 ≡ MathError.error_none → InInt o.1)
    → IsStorable (stored k a x key (value_of o))
unfolding map_math_error
stored-IsStorable k a x key (MathError.error_none, v) fits clean range = (
  first-Fits a x fits,
  operand-FitsOptional k a x fits,
  word-HasNoZero k,
  range refl,
  omega arith,
  clean,
)
stored-IsStorable k a x key (e, v) fits clean range = (
  first-Fits a x fits,
  operand-FitsOptional k a x fits,
  word-HasNoZero k,
  tt,
  ground arith,
  clean,
)

-- What is stored of an admitted calculation is right.
pub stored-IsRight :
    (M : MathLib) (k : Kind) (a : ℤ) (x : Option ℤ) (key : Text)
    → IsArithmetic M
    → Fits a x
    → key_of k a (operand_of k x) ≡ returned key
    → admit k a x ≡ returned tt
    → IsRight M (stored k a x key (value_of (call M k a (or_zero x))))
stored-IsRight M k a x key laws fits e admitted =
    let o = call M k a (or_zero x) in
    let r = stored k a x key (value_of o) in
    let holds : Holds r (evaluate M k a x) = rw admitted (stored-Holds k a x key o) in
    (
      stored-IsStorable k a x key o fits (key_of-HasNoZero k a (operand_of k x) e)
          (laws.in_range k a (or_zero x)),
      (
        k,
        a,
        operand_of k x,
        e ∙ ap returned (sym (cache_key-stored k a x key o)),
        subst (Holds r) (sym (evaluate-operand_of M k a x)) holds,
      ),
    )

-- A record of an outcome with the key of a calculation holds the outcome of that calculation.
pub outcome-Holds :
    (M : MathLib) (k : Kind) (a : ℤ) (x : Option ℤ) (key : Text) (r : OperationRecord)
    → IsArithmetic M
    → key_of k a (operand_of k x) ≡ returned key
    → IsOutcome M key r
    → Holds r (evaluate M k a x)
outcome-Holds M k a x key r laws e (l, b, y, e', h) =
    let (kinds, operands) = key_of-injective k l a b (operand_of k x) y e e' in
    let same : evaluate M l b y ≡ evaluate M k a x =
      ap (λ (z : Kind). evaluate M z b y) (sym kinds)
      ∙ sym (evaluate-SameOperands M k a b (operand_of k x) y laws operands)
      ∙ evaluate-operand_of M k a x in
    subst (Holds r) same h
