-- ===== src/Server/ProtocolLib.antt =====
-- The parts of the shared protocol library that request-handler.cpp uses, and what is assumed of
-- its response type: the observers read back what the constructors and setters wrote.
use console_calculator.Prelude.{ℕ, ◌≡◌, Option, none, some, List}
use console_calculator.Prelude.Int.{ℤ}
use console_calculator.Text.{Text}
use console_calculator.Protocol.{ProtocolOperation, ProtocolStatus, ResultSource}
use console_calculator.Support.{Result}

pub record ProtocolLib : Type 1 where
  pub Request : Type 0
  pub Response : Type 0
  pub ErrorInfo : Type 0
  pub parse_request : Text → Result Request
  pub request_id : Request → Text
  pub operation : Request → ProtocolOperation
  pub operands : Request → List ℤ
  pub success : Text → ℤ → Response
  pub failure : Text → ProtocolStatus → Text → Response
  pub error_info : Response → Option ErrorInfo
  pub set_field : Text → ErrorInfo → ErrorInfo
  pub set_error_info : ErrorInfo → Response → Response
  pub set_result_source : ResultSource → Response → Response
  pub set_timing_info : ℕ → Response → Response
  pub serialize_response : Response → Text

-- What a client reads in a response, apart from its timing and its error text.
pub record Answer : Type 0 where
  pub answers : Text
  pub status : ProtocolStatus
  pub value : Option ℤ

pub record IsLawful (P : ProtocolLib) : Type 0 where
  pub answer : P.Response → Answer
  pub source : P.Response → Option ResultSource
  pub answer-success :
      (id : Text) (v : ℤ)
      → answer (P.success id v)
        ≡ record { answers = id; status = ProtocolStatus.ok; value = some v }
  pub answer-failure :
      (id : Text) (s : ProtocolStatus) (message : Text)
      → answer (P.failure id s message) ≡ record { answers = id; status = s; value = none }
  pub answer-set_error_info :
      (e : P.ErrorInfo) (r : P.Response) → answer (P.set_error_info e r) ≡ answer r
  pub answer-set_result_source :
      (c : ResultSource) (r : P.Response) → answer (P.set_result_source c r) ≡ answer r
  pub answer-set_timing_info : (t : ℕ) (r : P.Response) → answer (P.set_timing_info t r) ≡ answer r
  pub source-set_result_source :
      (c : ResultSource) (r : P.Response) → source (P.set_result_source c r) ≡ some c
  pub source-set_timing_info : (t : ℕ) (r : P.Response) → source (P.set_timing_info t r) ≡ source r
