-- ===== src/Server/Clients/Replies.antt =====
-- The replies of a session whose calls of the handler overlap with those of the others.
use console_calculator.Prelude.{
  ◌≡◌, ◌≢◌, ◌≤◌, ◌<◌, refl, sym, subst, ◌∙◌, ℕ, suc, true, false, Option, none, some, List, [], ◌∷◌,
  ◌++◌, All, arith, ltb, length,
}
use console_calculator.Prelude.Int.{ℤ}
use console_calculator.Text.{Text}
use console_calculator.Text.Equality.{===_refl}
use console_calculator.Support.{returned, undefined}
use console_calculator.Support.Exec.{Exec}
use console_calculator.Core.Abacus.{MathLib}
use console_calculator.Server.OperationStorage.{OperationStorage, IsReliable}
use console_calculator.Server.ProtocolLib.{ProtocolLib, IsLawful, Answer}
use console_calculator.Server.RequestHandler.{make_timing}
use console_calculator.Server.RequestHandler.Meaning.{IsArithmetic}
use console_calculator.Server.RequestHandler.Right.{IsRight}
use console_calculator.Server.RequestHandler.Sound.{IsSound}
use console_calculator.Server.RequestHandler.Deserved.{deserved, Matches}
use console_calculator.Server.RequestHandler.Phases.{Opening, finish_opening}
use console_calculator.Server.RequestHandler.Phases.Promise.{IsPromise, open_request-IsPromise}
use console_calculator.Server.RequestHandler.Phases.Interleaved.{
  IsServed, arrive-IsServed, finish-IsServed,
}
use console_calculator.Server.RequestHandler.Phases.Matched.{answered-Matches}
use console_calculator.Server.TcpJsonServer.{
  Place, Session, reading, closed, writing, drop_return, split_line, on_read, close, Reaches, start,
  receive, read, read_error, wrote, write_error,
}
use console_calculator.Server.TcpJsonServer.Framing.{joined, in_flight, IsLine, Reaches-Serves}
use console_calculator.Server.Clients.Wire.{IsReply, AreReplies}
use console_calculator.Server.Clients.{
  Exchange, ask, answer, Overlaps, begins, other_arrives, other_finishes, receives, asks, answers,
  too_large, read_fails, writes, write_fails,
}
use console_calculator.Server.Clients.Given.{Reply, given_reply, Answered-AreReplies}

module _ {P : ProtocolLib} {M : MathLib} {st : OperationStorage} (lawful : IsLawful P)
    (reliable : IsReliable (IsRight M) st) (laws : IsArithmetic M)
    (total : (json : Text) → P.parse_request json ≢ undefined) (max_message_size : ℕ) where
  abbrev serve_reply : Text → Exec (Reply lawful reliable laws total max_message_size) Text
  serve_reply = given_reply lawful reliable laws total max_message_size

  -- What the session is handling is a promise, for a line within the limit, while it is in no other call.
  abbrev IsHandled : Place → Option (Text × Opening P) → Type 0
  IsHandled place none = Unit {0}
  IsHandled place (some (line, o)) =
      IsPromise lawful reliable laws (drop_return line) o
      × (place ≡ reading)
      × (suc (length line) ≤ max_message_size)

  abbrev IsKept : Text → Exchange P M st → Type 0
  IsKept received x =
      Reaches serve_reply max_message_size received x.session
      × IsServed lawful reliable laws x.others
      × IsHandled x.session.place x.handling

  ask-IsKept :
      (received line : Text) (x : Exchange P M st)
      → x.session.place ≡ reading
      → suc (length line) ≤ max_message_size
      → IsKept received x
      → IsKept received (ask P M st line x)
  unfolding ask
  ask-IsKept received line x waits fits (reached, (sound, promises, results), _) =
      let (promise, same) =
        open_request-IsPromise lawful reliable laws (drop_return line) x.others.storage sound in
      (
        reached,
        (subst (IsSound M reliable) (sym same) sound, promises, results),
        (promise, waits, fits),
      )

  -- A response that matches goes out as a reply.
  matched-IsReply :
      (line : Text) (response : P.Response) (d : Option Answer) (t : ℕ)
      → Matches lawful reliable laws d (returned response)
      → Matches lawful reliable laws d (returned (P.set_timing_info t response))
  matched-IsReply line response none t h = tt
  matched-IsReply line response (some answer) t h = lawful.answer-set_timing_info t response ∙ h

  read_within :
      (line rest response : Text) (v : Session)
      (is_reply : IsReply lawful reliable laws total max_message_size line (response ++ 10 ∷ []))
      → suc (length line) ≤ max_message_size
      → (on_read serve_reply max_message_size line rest v (some (line, response, is_reply))).0
        ≡ returned (record v { place = writing (response ++ 10 ∷ []); buffer = rest })
  unfolding on_read
  read_within line rest response v is_reply fits =
      let small : ltb max_message_size (suc (length line)) ≡ false = ground (arith, fits) in
      rw (small, ===_refl (drop_return line))

  read_large :
      (line rest : Text) (v : Session)
      → max_message_size < suc (length line)
      → (on_read serve_reply max_message_size line rest v none).0 ≡ returned (close v)
  unfolding on_read
  read_large line rest v large =
      let is_large : ltb max_message_size (suc (length line)) ≡ true = ground (arith, large) in
      rw is_large

  answer-IsKept :
      (received line rest : Text) (started_at now : ℤ) (o : Opening P) (response : P.Response)
      (x : Exchange P M st)
      → x.handling ≡ some (line, o)
      → split_line x.session.buffer ≡ some (line, rest)
      → (finish_opening P M st (o, x.others.storage)).0 ≡ returned response
      → IsKept received x
      → IsKept received (answer P M st started_at now rest o response x)
  unfolding answer on_read
  answer-IsKept received line rest started_at now o response x busy there e
        (reached, served, handled) =
      let (promise, waits, fits) = rw busy at handled in
      let (sound, promises, results) = served in
      let (answered, sound') = promise x.others.storage sound in
      let matched = rw e at (
        answered-Matches lawful reliable laws (drop_return line)
          (finish_opening P M st (o, x.others.storage)).0 (total (drop_return line)) answered) in
      let timed = P.set_timing_info (make_timing started_at now) response in
      let is_reply : IsReply lawful reliable laws total max_message_size line
          (P.serialize_response timed ++ 10 ∷ []) =
        (
          timed,
          refl,
          matched-IsReply line response (deserved P M (drop_return line))
              (make_timing started_at now) matched,
        ) in
      (
        read line rest (some (line, P.serialize_response timed, is_reply)) reached waits there
            (read_within line rest (P.serialize_response timed) x.session is_reply fits),
        (sound', promises, results),
        tt,
      )

  free-IsHandled :
      (place next : Place) (text : Text) (handling : Option (Text × Opening P))
      → place ≡ writing text
      → IsHandled place handling
      → IsHandled next handling
  free-IsHandled place next text none flies handled = tt
  free-IsHandled place next text (some (line, o)) flies (_, waits, _) = absurd (cc (flies, waits))

  Overlaps-IsKept :
      (s : st.State) (received : Text) (x : Exchange P M st)
      → IsSound M reliable s
      → Overlaps P M st max_message_size s received x
      → IsKept received x
  Overlaps-IsKept s _ _ sound begins = (start, (sound, tt, tt), tt)
  Overlaps-IsKept s received _ sound (other_arrives {x = x} json talk) =
      let (reached, served, handled) = Overlaps-IsKept s received x sound talk in
      (reached, arrive-IsServed lawful reliable laws json x.others served, handled)
  Overlaps-IsKept s received _ sound (other_finishes {x = x} before json o behind talk e) =
      let (reached, served, handled) = Overlaps-IsKept s received x sound talk in
      (
        reached,
        finish-IsServed lawful reliable laws before json o behind x.others e served,
        handled,
      )
  Overlaps-IsKept s _ _ sound (receives {received} {x} chunk talk) =
      let (reached, served, handled) = Overlaps-IsKept s received x sound talk in
      (receive chunk reached, served, handled)
  Overlaps-IsKept s received _ sound (asks {x = x} line rest talk waits idle there fits) =
      ask-IsKept received line x waits fits (Overlaps-IsKept s received x sound talk)
  Overlaps-IsKept s received _ sound
        (answers {x = x} started_at now line rest o response talk busy there e) =
      answer-IsKept received line rest started_at now o response x busy there e
        (Overlaps-IsKept s received x sound talk)
  Overlaps-IsKept s received _ sound (too_large {x = x} line rest talk waits idle there large) =
      let (reached, served, _) = Overlaps-IsKept s received x sound talk in
      (
        read line rest none reached waits there (read_large line rest x.session large),
        served,
        rw idle tt,
      )
  Overlaps-IsKept s received _ sound (read_fails {x = x} talk waits idle) =
      let (reached, served, _) = Overlaps-IsKept s received x sound talk in
      (read_error reached waits, served, rw idle tt)
  Overlaps-IsKept s received _ sound (writes {x = x} text talk flies) =
      let (reached, served, handled) = Overlaps-IsKept s received x sound talk in
      (
        wrote text reached flies,
        served,
        free-IsHandled x.session.place reading text x.handling flies handled,
      )
  Overlaps-IsKept s received _ sound (write_fails {x = x} text talk flies) =
      let (reached, served, handled) = Overlaps-IsKept s received x sound talk in
      (
        write_error text reached flies,
        served,
        free-IsHandled x.session.place closed text x.handling flies handled,
      )

  -- Given a protocol library that is lawful and whose parser has no undefined behaviour, a storage
  -- that works and a library whose sums and products do not depend on the order of the operands and
  -- whose values fit `int`: start from a sound storage, and let bytes arrive in chunks, writes end,
  -- and the requests of other sessions arrive and finish, also between the look-up of a request of
  -- this session and its end. Until the session closes, what it received is lines within the limit
  -- and what is in its buffer, and the texts that it has sent or is sending are the replies to these
  -- lines, one for each, in their order, with the answer that the line deserves where it deserves
  -- one.
  pub Overlaps-AreReplies :
      (s : st.State) (received : Text) (x : Exchange P M st)
      → IsSound M reliable s
      → Overlaps P M st max_message_size s received x
      → x.session.place ≢ closed
      → (lines : List Text) × (received ≡ joined lines ++ x.session.buffer)
        × All (IsLine max_message_size) lines
        × AreReplies lawful reliable laws total max_message_size lines
            (x.session.sent ++ in_flight x.session.place)
  Overlaps-AreReplies s received x sound talk is_open =
      let (reached, _, _) = Overlaps-IsKept s received x sound talk in
      let (lines, all, fit, answered) =
        Reaches-Serves serve_reply max_message_size received x.session reached is_open in
      (
        lines,
        all,
        fit,
        Answered-AreReplies lawful reliable laws total max_message_size lines
            (x.session.sent ++ in_flight x.session.place) answered,
      )
