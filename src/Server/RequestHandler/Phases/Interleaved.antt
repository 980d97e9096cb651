-- ===== src/Server/RequestHandler/Phases/Interleaved.antt =====
-- Any number of requests at once, as the threads of the server handle them: between the look-up of a
-- request and its second phase, every other request may look up, calculate and save.
use console_calculator.Prelude.{
  ◌≡◌, ◌≢◌, sym, subst, List, [], ◌∷◌, ◌++◌, All, All-append, All-split,
}
use console_calculator.Prelude.Int.{ℤ}
use console_calculator.Text.{Text}
use console_calculator.Support.{Result, undefined}
use console_calculator.Core.Abacus.{MathLib}
use console_calculator.Storage.OperationKey.Kinds.{Kind}
use console_calculator.Server.OperationStorage.{OperationStorage, IsReliable}
use console_calculator.Server.ProtocolLib.{ProtocolLib, IsLawful}
use console_calculator.Server.RequestHandler.Meaning.{second_of, evaluate, IsArithmetic}
use console_calculator.Server.RequestHandler.Answers.{answer_of, Carries}
use console_calculator.Server.RequestHandler.Right.{IsRight}
use console_calculator.Server.RequestHandler.Sound.{IsSound}
use console_calculator.Server.RequestHandler.Total.{Returns}
use console_calculator.Server.RequestHandler.Phases.{Opening, open_request, finish_opening}
use console_calculator.Server.RequestHandler.Phases.Opened.{Asks}
use console_calculator.Server.RequestHandler.Phases.Promise.{
  IsAnswered, IsPromise, open_request-IsPromise,
}

module _ (P : ProtocolLib) (M : MathLib) (st : OperationStorage) where
  -- The storage that the requests share, the requests behind their first phase, and the results so far.
  pub record Requests : Type 0 where
    pub storage : st.State
    pub in_flight : List (Text × Opening P)
    pub results : List (Text × Result P.Response)

  unfoldable pub arrive : Text → Requests → Requests
  arrive json v =
      let (o, s) = open_request P M st json v.storage in
      record v { storage = s; in_flight = (json, o) ∷ v.in_flight }

  unfoldable pub finish :
      List (Text × Opening P) → Text → Opening P → List (Text × Opening P) → Requests → Requests
  finish before json o behind v =
      let (r, s) = finish_opening P M st (o, v.storage) in
      record { storage = s; in_flight = before ++ behind; results = (json, r) ∷ v.results }

  pub data Reaches (s : st.State) : Requests → Type 0 where
    begin : Reaches s (record { storage = s; in_flight = []; results = [] })
    arrives : {v : Requests} (json : Text) → Reaches s v → Reaches s (arrive json v)
    finishes :
        {v : Requests} (before : List (Text × Opening P)) (json : Text) (o : Opening P)
        (behind : List (Text × Opening P))
        → Reaches s v
        → v.in_flight ≡ before ++ (json, o) ∷ behind
        → Reaches s (finish before json o behind v)

module _ {P : ProtocolLib} {M : MathLib} {st : OperationStorage} (lawful : IsLawful P)
    (reliable : IsReliable (IsRight M) st) (laws : IsArithmetic M) where
  abbrev pub PromiseOf : Text × Opening P → Type 0
  PromiseOf (json, o) = IsPromise lawful reliable laws json o

  abbrev pub AnswerOf : Text × Result P.Response → Type 0
  AnswerOf (json, r) = IsAnswered lawful reliable laws json r

  -- The storage is sound, each request in flight is a promise, and each result is an answer.
  abbrev pub IsServed : Requests P M st → Type 0
  IsServed v = IsSound M reliable v.storage × All PromiseOf v.in_flight × All AnswerOf v.results

  pub arrive-IsServed :
      (json : Text) (v : Requests P M st) → IsServed v → IsServed (arrive P M st json v)
  unfolding arrive
  arrive-IsServed json v (sound, promises, answers) =
      let (promise, same) = open_request-IsPromise lawful reliable laws json v.storage sound in
      (subst (IsSound M reliable) (sym same) sound, (promise, promises), answers)

  pub finish-IsServed :
      (before : List (Text × Opening P)) (json : Text) (o : Opening P)
      (behind : List (Text × Opening P)) (v : Requests P M st)
      → v.in_flight ≡ before ++ (json, o) ∷ behind
      → IsServed v
      → IsServed (finish P M st before json o behind v)
  unfolding finish
  finish-IsServed before json o behind v e (sound, promises, answers) =
      let (early, promise, late) =
        All-split PromiseOf before behind (subst (All PromiseOf) e promises) in
      let (answer, sound') = promise v.storage sound in
      (sound', All-append PromiseOf before behind early late, (answer, answers))

  Reaches-IsServed :
      (s : st.State) (v : Requests P M st) → IsSound M reliable s → Reaches P M st s v → IsServed v
  Reaches-IsServed s _ sound begin = (sound, tt, tt)
  Reaches-IsServed s _ sound (arrives {v} json reached) =
      arrive-IsServed json v (Reaches-IsServed s v sound reached)
  Reaches-IsServed s _ sound (finishes {v} before json o behind reached e) =
      finish-IsServed before json o behind v e (Reaches-IsServed s v sound reached)

  result-IsAnswered :
      (s : st.State) (v : Requests P M st) (newer older : List (Text × Result P.Response))
      (json : Text) (r : Result P.Response)
      → IsSound M reliable s
      → Reaches P M st s v
      → v.results ≡ newer ++ (json, r) ∷ older
      → IsAnswered lawful reliable laws json r
  result-IsAnswered s v newer older json r sound reached e =
      let (_, _, answers) = Reaches-IsServed s v sound reached in
      (All-split AnswerOf newer older (subst (All AnswerOf) e answers)).1

  -- Given a protocol library that is lawful, a storage that works and a library whose sums and products
  -- do not depend on the order of the operands and whose values fit `int`:
  -- Start from a sound storage, and let any requests arrive and finish in any order, others between the
  -- look-up and the end of each. The storage stays sound, and each result for a request of a known
  -- operation, whose first operand is there and whose operands fit `int`, carries the value or the error
  -- of its calculation.
  pub Reaches-Carries :
      (s : st.State) (v : Requests P M st) (newer older : List (Text × Result P.Response))
      (json : Text) (r : Result P.Response) (request : P.Request) (k : Kind) (a : ℤ) (rest : List ℤ)
      → IsSound M reliable s
      → Reaches P M st s v
      → v.results ≡ newer ++ (json, r) ∷ older
      → Asks P json request k a rest
      → Carries lawful r (answer_of (P.request_id request) (evaluate M k a (second_of rest)))
        × IsSound M reliable v.storage
  Reaches-Carries s v newer older json r request k a rest sound reached e asks = (
    (result-IsAnswered s v newer older json r sound reached e).1 request k a rest asks,
    (Reaches-IsServed s v sound reached).0,
  )

  -- Given the same: each result for a text on which the parser has no undefined behaviour is a
  -- response.
  pub Reaches-Returns :
      (s : st.State) (v : Requests P M st) (newer older : List (Text × Result P.Response))
      (json : Text) (r : Result P.Response)
      → IsSound M reliable s
      → Reaches P M st s v
      → v.results ≡ newer ++ (json, r) ∷ older
      → P.parse_request json ≢ undefined
      → Returns lawful reliable laws r
  Reaches-Returns s v newer older json r sound reached e defined =
      (result-IsAnswered s v newer older json r sound reached e).0 defined
