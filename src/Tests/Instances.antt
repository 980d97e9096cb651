-- ===== src/Tests/Instances.antt =====
-- An arithmetic library and a protocol library that meet what is assumed of them.
use console_calculator.Prelude.{
  Bool-cases, inl, inr, ℕ, zero, suc, ◌*◌, ◌/◌, ◌≡◌, ◌≢◌, refl, ap, not, ◌&&◌, Option, none, some,
  List, [], ◌∷◌, arith, if◌then◌else◌, ◌==◌,
}
use console_calculator.Prelude.Int.{
  ℤ, pos, negsuc, pos_part, sub_ℕ, ◌+ℤ◌, ◌-ℤ◌, ◌*ℤ◌, +ℤ_comm, ltb_ℤ, eqb_ℤ, int_min, int_max, InInt,
}
use console_calculator.Text.{Text, codes}
use console_calculator.Protocol.{ProtocolOperation, ProtocolStatus, ResultSource}
use console_calculator.Support.{Result, returned, thrown, undefined, protocol_error}
use console_calculator.Core.Abacus.{MathLib, MathError}
use console_calculator.Server.ProtocolLib.{ProtocolLib, IsLawful, Answer}
use console_calculator.Server.RequestHandler.Meaning.{call, IsArithmetic}
use console_calculator.Storage.OperationKey.Kinds.{Kind}

-- The exact value if it fits `int`; else an overflow, with `*result` left alone.
abbrev checked : ℤ → ℤ → MathError × ℤ
checked v r =
    if not (ltb_ℤ v int_min) && not (ltb_ℤ int_max v)
    then (MathError.error_none, v)
    else (MathError.error_overflow, r)

-- Division towards zero.
abbrev quotient_ℤ : ℤ → ℤ → ℤ
quotient_ℤ (pos a) (pos b) = pos (a / b)
quotient_ℤ (pos a) (negsuc b) = sub_ℕ 0 (a / suc b)
quotient_ℤ (negsuc a) (pos b) = sub_ℕ 0 (suc a / b)
quotient_ℤ (negsuc a) (negsuc b) = pos (suc a / suc b)

unfoldable pub power_ℤ : ℤ → ℕ → ℤ
power_ℤ a zero = pos 1
power_ℤ a (suc n) = a *ℤ power_ℤ a n

unfoldable pub factorial_ℕ : ℕ → ℕ
factorial_ℕ zero = 1
factorial_ℕ (suc n) = suc n * factorial_ℕ n

abbrev pub safe_math : MathLib
safe_math = record {
  addition = λ a b r. checked (a +ℤ b) r;
  subtraction = λ a b r. checked (a -ℤ b) r;
  multiplication = λ a b r. checked (a *ℤ b) r;
  division = λ a b r.
      if eqb_ℤ b (pos 0) then (MathError.error_division_by_zero, r) else checked (quotient_ℤ a b) r;
  exponentiation = λ a b r. checked (power_ℤ a (pos_part b)) r;
  factorial = λ a r. checked (pos (factorial_ℕ (pos_part a))) r;
}

*ℤ_comm : (a b : ℤ) → a *ℤ b ≡ b *ℤ a
unfolding ◌*ℤ◌
*ℤ_comm a b = grind arith

checked-in_range : (v r : ℤ) → (checked v r).0 ≡ MathError.error_none → InInt (checked v r).1
checked-in_range v r e = ground arith

safe_math-in_range :
    (k : Kind) (a b : ℤ)
    → (call safe_math k a b).0 ≡ MathError.error_none
    → InInt (call safe_math k a b).1
safe_math-in_range Kind.sum a b e = checked-in_range (a +ℤ b) (pos 0) e
safe_math-in_range Kind.difference a b e = checked-in_range (a -ℤ b) (pos 0) e
safe_math-in_range Kind.product a b e = checked-in_range (a *ℤ b) (pos 0) e
safe_math-in_range Kind.quotient a b e = elim (Bool-cases (eqb_ℤ b (pos 0))) [
  | inl z ↦ rw z (omega arith)
  | inr nz ↦ rw nz (checked-in_range (quotient_ℤ a b) (pos 0) (rw nz at e))
]
safe_math-in_range Kind.power a b e = checked-in_range (power_ℤ a (pos_part b)) (pos 0) e
safe_math-in_range Kind.factorial a b e =
    checked-in_range (pos (factorial_ℕ (pos_part a))) (pos 0) e

pub safe_math-IsArithmetic : IsArithmetic safe_math
safe_math-IsArithmetic = record {
  addition_comm = λ a b r.
      (ap (λ v. (checked v r).0) (+ℤ_comm a b), λ _. ap (λ v. (checked v r).1) (+ℤ_comm a b));
  multiplication_comm = λ a b r.
      (ap (λ v. (checked v r).0) (*ℤ_comm a b), λ _. ap (λ v. (checked v r).1) (*ℤ_comm a b));
  in_range = safe_math-in_range;
}

pub record Request : Type 0 where
  pub id : Text
  pub operation : ProtocolOperation
  pub operands : List ℤ

pub record Response : Type 0 where
  pub answer : Answer
  pub source : Option ResultSource
  pub duration : ℕ
  pub field : Option Text

abbrev operation_code : ℕ → ProtocolOperation
operation_code c =
    if c == b'+'
    then ProtocolOperation.addition
    else if c == b'-'
    then ProtocolOperation.subtraction
    else if c == b'*'
    then ProtocolOperation.multiplication
    else if c == b'/'
    then ProtocolOperation.division
    else if c == b'^'
    then ProtocolOperation.exponentiation
    else if c == b'!'
    then ProtocolOperation.factorial
    else ProtocolOperation.unknown

abbrev small : List ℕ → List ℤ
small [] = []
small (n ∷ rest) = pos n ∷ small rest

-- A request is its operation's sign and its operands, a byte each; the empty text is malformed.
unfoldable pub parse : Text → Result Request
parse [] = thrown (protocol_error ProtocolStatus.invalid_json (codes "empty") none)
parse (c ∷ rest) =
    returned (record { id = codes "req"; operation = operation_code c; operands = small rest })

abbrev bare_response : Answer → Response
bare_response a = record { answer = a; source = none; duration = 0; field = none }

-- A response is printed as its identifier.
abbrev pub plain_protocol : ProtocolLib
plain_protocol = record {
  Request = Request;
  Response = Response;
  ErrorInfo = Unit {0};
  parse_request = parse;
  request_id = λ r. r.id;
  operation = λ r. r.operation;
  operands = λ r. r.operands;
  success =
      λ id v. bare_response (record { answers = id; status = ProtocolStatus.ok; value = some v });
  failure = λ id s message. bare_response (record { answers = id; status = s; value = none });
  error_info = λ r. none;
  set_field = λ f e. e;
  set_error_info = λ e r. r;
  set_result_source = λ c r. record r { source = some c };
  set_timing_info = λ t r. record r { duration = t };
  serialize_response = λ r. r.answer.answers;
}

pub plain_protocol-IsLawful : IsLawful plain_protocol
plain_protocol-IsLawful = record {
  answer = λ r. r.answer;
  source = λ r. r.source;
  answer-success = λ id v. refl;
  answer-failure = λ id s message. refl;
  answer-set_error_info = λ e r. refl;
  answer-set_result_source = λ c r. refl;
  answer-set_timing_info = λ t r. refl;
  source-set_result_source = λ c r. refl;
  source-set_timing_info = λ t r. refl;
}

pub parse-ne-undefined : (json : Text) → parse json ≢ undefined
unfolding parse
parse-ne-undefined [] = cc
parse-ne-undefined (c ∷ rest) = cc
