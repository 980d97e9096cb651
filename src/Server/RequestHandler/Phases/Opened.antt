-- ===== src/Server/RequestHandler/Phases/Opened.antt =====
-- What the first phase of a request leaves to be done.
use console_calculator.Prelude.{◌≡◌, refl, ◌⊎◌, inl, inr, none, List, [], ◌∷◌, Option, Option-cases}
use console_calculator.Prelude.Int.{ℤ, pos}
use console_calculator.Text.{Text}
use console_calculator.Support.{ErrorCode, returned, Result-cases}
use console_calculator.Support.Exec.{chain}
use console_calculator.Core.{CalculatorData}
use console_calculator.Core.Abacus.{MathLib}
use console_calculator.Storage.{OperationRecord}
use console_calculator.Storage.OperationKey.{make}
use console_calculator.Server.OperationStorage.{OperationStorage}
use console_calculator.Server.RequestHandler.Meaning.{operation_of, second_of, operand_of}
use console_calculator.Server.RequestHandler.Given.{
  Fits, given, to_calculator_data-given, operation_to_storage_name-word, second_number-given,
}
use console_calculator.Server.RequestHandler.Total.{
  operation-cases, operands-cases, bare, to_calculator_data-bare, second_number-bare,
}
use console_calculator.Storage.OperationKey.Kinds.{
  Kind, factorial, word, word-Names, key_of, make-key_of,
}
use console_calculator.Server.ProtocolLib.{ProtocolLib}
use console_calculator.Server.RequestHandler.{
  to_calculator_data, operation_to_storage_name, second_number_for_storage,
}
use console_calculator.Server.RequestHandler.Handle.{cached_response}
use console_calculator.Server.RequestHandler.Phases.{
  Opening, finished, missed, look_up, open_request,
}

module _ (P : ProtocolLib) where
  -- The text is a request of a known operation, whose first operand is there and whose operands fit `int`.
  abbrev pub Asks : Text → P.Request → Kind → ℤ → List ℤ → Type 0
  Asks json request k a rest =
      (P.parse_request json ≡ returned request)
      × (P.operation request ≡ operation_of k)
      × (P.operands request ≡ a ∷ rest)
      × Fits a (second_of rest)

  -- The data, the name of the operation and a key were there.
  abbrev pub HasKey : P.Request → CalculatorData → Text → Type 0
  HasKey request d operation =
      (to_calculator_data (P.operation request) (P.operands request) ≡ returned d)
      × (operation_to_storage_name (P.operation request) ≡ returned operation)
      × ((key : Text) × (make d.first_number (second_number_for_storage d) operation
            ≡ returned key))

  -- What such a request is: one that the handler can calculate, or a factorial without operands.
  abbrev pub IsAsked : P.Request → CalculatorData → Type 0
  IsAsked request d =
      ((k : Kind) × (a : ℤ) × (rest : List ℤ) × (P.operation request ≡ operation_of k)
        × (P.operands request ≡ a ∷ rest)
        × Fits a (second_of rest))
      ⊎ (d ≡ bare factorial)

  bare-IsAsked :
      (request : P.Request) (k : Kind) (d : CalculatorData) (operation : Text)
      → P.operation request ≡ operation_of k
      → P.operands request ≡ []
      → HasKey request d operation
      → IsAsked request d
  bare-IsAsked request factorial d operation is_k no_operands (e, e', keyed) =
      inr (cc (rw (is_k, no_operands, to_calculator_data-bare factorial) at e))
  bare-IsAsked request k d operation is_k no_operands (e, e', (key, f)) =
      let same : d ≡ bare k = cc (rw (is_k, no_operands, to_calculator_data-bare k) at e) in
      let name : operation ≡ word k = cc (rw (is_k, operation_to_storage_name-word k) at e') in
      absurd (
        cc (
          rw (same, name, second_number-bare k, make-key_of (word k) k (pos 0) none (word-Names k))
            at f))

  known-IsAsked :
      (request : P.Request) (k : Kind) (operands : List ℤ) (d : CalculatorData) (operation : Text)
      → P.operation request ≡ operation_of k
      → P.operands request ≡ operands
      → HasKey request d operation
      → IsAsked request d
  known-IsAsked request k [] d operation is_k are_operands has_key =
      bare-IsAsked request k d operation is_k are_operands has_key
  known-IsAsked request k (a ∷ rest) d operation is_k are_operands has_key =
      elim (operands-cases k a rest) [
        | inl fits ↦ inl (k, a, rest, is_k, are_operands, fits)
        | inr (e, refused) ↦ absurd (cc (rw (is_k, are_operands, refused) at has_key.0))
      ]

  pub HasKey-IsAsked :
      (request : P.Request) (d : CalculatorData) (operation : Text)
      → HasKey request d operation
      → IsAsked request d
  unfolding to_calculator_data
  HasKey-IsAsked request d operation has_key = elim (operation-cases (P.operation request)) [
    | inl (k, is_k) ↦ known-IsAsked request k (P.operands request) d operation is_k refl has_key
    | inr (e, unknown) ↦ absurd (cc (rw unknown at has_key.0))
  ]

  -- The data, the name and the key of a request that can be calculated.
  pub HasKey-given :
      (request : P.Request) (k : Kind) (a : ℤ) (rest : List ℤ) (d : CalculatorData)
      (operation : Text)
      → P.operation request ≡ operation_of k
      → P.operands request ≡ a ∷ rest
      → Fits a (second_of rest)
      → HasKey request d operation
      → (d ≡ given k a (second_of rest))
        × (operation ≡ word k)
        × ((key : Text) × (key_of k a (operand_of k (second_of rest)) ≡ returned key))
  HasKey-given request k a rest d operation is_k are_operands fits (e, e', (key, f)) =
      let x = second_of rest in
      let same : d ≡ given k a x =
        cc (rw (is_k, are_operands, to_calculator_data-given k a rest fits) at e) in
      let name : operation ≡ word k = cc (rw (is_k, operation_to_storage_name-word k) at e') in
      (
        same,
        name,
        (
          key,
          rw
              (
                same,
                name,
                second_number-given k a x (pos 0) ErrorCode.error_none,
                make-key_of (word k) k a (operand_of k x) (word-Names k),
              )
              at f,
        ),
      )

  module _ (M : MathLib) (st : OperationStorage) (view : st.State → Text → Option OperationRecord)
      (find_lem : (a : ℤ) (x : Option ℤ) (op : Text) (s : st.State)
        → st.find a x op s ≡ (chain (make a x op) (λ key. returned (view s key)), s)) where
    abbrev pub IsOver : st.State → Opening P × st.State → Type 0
    IsOver s (finished r, s') = s' ≡ s
    IsOver s _ = ⊥

    pub over_state : (s : st.State) (out : Opening P × st.State) → IsOver s out → out.1 ≡ s
    over_state s (finished r, s') over = over
    over_state s (missed request d operation, s') over = absurd over

    -- The first phase changes nothing; it is over, or it leaves a request that has its key.
    abbrev pub IsOpened : Text → st.State → Type 0
    IsOpened json s =
        IsOver s (open_request P M st json s)
        ⊎ ((request : P.Request) × (d : CalculatorData) × (operation : Text) × (P.parse_request json
              ≡ returned request)
            × (open_request P M st json s ≡ (missed request d operation, s))
            × HasKey request d operation)

    key-IsOpened :
        (json : Text) (request : P.Request) (d : CalculatorData) (operation : Text) (s : st.State)
        → P.parse_request json ≡ returned request
        → to_calculator_data (P.operation request) (P.operands request) ≡ returned d
        → operation_to_storage_name (P.operation request) ≡ returned operation
        → IsOpened json s
    unfolding open_request look_up
    key-IsOpened json request d operation s parsed e e' =
        let found = find_lem d.first_number (second_number_for_storage d) operation s in
        elim (Result-cases (make d.first_number (second_number_for_storage d) operation)) [
          | inr (inl (x, f)) ↦ inl (rw (open_request, parsed, look_up, e, e', found, f) refl)
          | inr (inr f) ↦ inl (rw (open_request, parsed, look_up, e, e', found, f) refl)
          | inl (key, f) ↦ elim (Option-cases (view s key)) [
            | inl g ↦ inr (
              request,
              d,
              operation,
              parsed,
              rw (open_request, parsed, look_up, e, e', found, f, g),
              (e, e', (key, f)),
            )
            | inr (r, g) ↦ elim (Result-cases (cached_response P (P.request_id request) r)) [
              | inl (response, h) ↦
                  inl (rw (open_request, parsed, look_up, e, e', found, f, g, h) refl)
              | inr (inl (x, h)) ↦
                  inl (rw (open_request, parsed, look_up, e, e', found, f, g, h) refl)
              | inr (inr h) ↦ inl (rw (open_request, parsed, look_up, e, e', found, f, g, h) refl)
            ]
          ]
        ]

    pub open_request-IsOpened : (json : Text) (s : st.State) → IsOpened json s
    unfolding open_request look_up
    open_request-IsOpened json s = elim (Result-cases (P.parse_request json)) [
      | inr (inl (x, parsed)) ↦ inl (rw (open_request, parsed) refl)
      | inr (inr parsed) ↦ inl (rw (open_request, parsed) refl)
      | inl (request, parsed) ↦
          elim (Result-cases (to_calculator_data (P.operation request) (P.operands request))) [
            | inr (inl (x, e)) ↦ inl (rw (open_request, parsed, look_up, e) refl)
            | inr (inr e) ↦ inl (rw (open_request, parsed, look_up, e) refl)
            | inl (d, e) ↦ elim (Result-cases (operation_to_storage_name (P.operation request))) [
              | inr (inl (x, e')) ↦ inl (rw (open_request, parsed, look_up, e, e') refl)
              | inr (inr e') ↦ inl (rw (open_request, parsed, look_up, e, e') refl)
              | inl (operation, e') ↦ key-IsOpened json request d operation s parsed e e'
            ]
          ]
    ]
