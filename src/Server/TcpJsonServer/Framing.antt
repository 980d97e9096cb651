-- ===== src/Server/TcpJsonServer/Framing.antt =====
-- The lines of a session: the bytes it has received, and the responses it has sent.
use console_calculator.Prelude.{
  ℕ, suc, ◌≤◌, ◌≡◌, ◌≢◌, refl, sym, ap, subst, ◌∙◌, some, List, [], ◌∷◌, ◌++◌, ltb, length, All,
  All-append, append_assoc, append-nil, arith, Bool-cases, Option-cases, inl, inr,
}
use console_calculator.Text.{Text}
use console_calculator.Support.{Result, returned, thrown, undefined}
use console_calculator.Support.Exec.{Exec}
use console_calculator.Server.TcpJsonServer.{
  Place, Session, reading, closed, writing, split_line, drop_return, close, write_answer, on_read,
  Reaches, start, receive, read, read_error, wrote, write_error,
}

abbrev pub joined : List Text → Text
joined [] = []
joined (line ∷ lines) = line ++ 10 ∷ joined lines

joined-append :
    (lines : List Text) (line rest : Text)
    → joined (lines ++ line ∷ []) ++ rest ≡ joined lines ++ (line ++ 10 ∷ rest)
joined-append [] line rest = append_assoc line (10 ∷ []) rest
joined-append (l ∷ lines) line rest =
    append_assoc l (10 ∷ joined (lines ++ line ∷ [])) rest
    ∙ ap (λ s. l ++ 10 ∷ s) (joined-append lines line rest)
    ∙ sym (append_assoc l (10 ∷ joined lines) (line ++ 10 ∷ rest))

split_line_lem :
    (s line rest : Text)
    → split_line s ≡ some (line, rest)
    → (s ≡ line ++ 10 ∷ rest) × All (λ c. c ≢ 10) line
unfolding split_line
split_line_lem [] line rest e = cc
split_line_lem (c ∷ s) line rest e = elim (Option-cases (split_line s)) [
  | inl n ↦ ground arith
  | inr ((before, behind), f) ↦
      let (same, no_feed) = split_line_lem s before behind f in ground arith
]

reading-ne-closed : reading ≢ closed
reading-ne-closed = cc

writing-ne-closed : (text : Text) → writing text ≢ closed
writing-ne-closed text = cc

-- What is on its way.
abbrev pub in_flight : Place → List Text
in_flight (writing text) = text ∷ []
in_flight _ = []

write_answer_lem :
    (v v' : Session) (rest : Text) (r : Result Text)
    → write_answer v rest r ≡ returned v'
    → (response : Text) × (r ≡ returned response)
      × (v'.place ≡ writing (response ++ 10 ∷ []))
      × (v'.buffer ≡ rest)
      × (v'.sent ≡ v.sent)
write_answer_lem v v' rest (returned response) e =
    (response, refl, ground arith, ground arith, ground arith)
write_answer_lem v v' rest (thrown x) e = cc
write_answer_lem v v' rest undefined e = cc

large_closes : (v v' : Session) → returned (close v) ≡ returned v' → v'.place ≡ closed
unfolding close
large_closes v v' e = ground arith

-- A line without its line feed, with which it is within the limit.
abbrev pub IsLine : ℕ → Text → Type 0
IsLine max_message_size line = All (λ c. c ≢ 10) line × (suc (length line) ≤ max_message_size)

module _ {S : Type 0} (handle : Text → Exec S Text) (max_message_size : ℕ) where
  -- Each response is what the handler answered, in some state of its own, to the line in its place.
  pub data Answered : List Text → List Text → Type 0 where
    none_yet : Answered [] []
    one_more :
        {lines responses : List Text} (line response : Text) (s : S)
        → Answered lines responses
        → (handle (drop_return line) s).0 ≡ returned response
        → Answered (lines ++ line ∷ []) (responses ++ (response ++ 10 ∷ []) ∷ [])

  abbrev pub Serves : Text → Session → Type 0
  Serves received v =
      (lines : List Text) × (received ≡ joined lines ++ v.buffer)
      × All (IsLine max_message_size) lines
      × Answered lines (v.sent ++ in_flight v.place)

  on_read-Serves :
      (received line rest : Text) (v v' : Session) (s : S)
      → v.place ≡ reading
      → split_line v.buffer ≡ some (line, rest)
      → (on_read handle max_message_size line rest v s).0 ≡ returned v'
      → v'.place ≢ closed
      → Serves received v
      → Serves received v'
  unfolding on_read close
  on_read-Serves received line rest v v' s waits there e is_open (lines, all, fit, answered) =
      elim (Bool-cases (ltb max_message_size (suc (length line)))) [
        | inl large ↦ absurd (is_open (large_closes v v' (rw large at e)))
        | inr fits ↦
            let (response, handled, place, behind, sent) =
              write_answer_lem v v' rest (handle (drop_return line) s).0 (rw fits at e) in
            let (same, no_feed) = split_line_lem v.buffer line rest there in
            let earlier : v.sent ++ in_flight v.place ≡ v.sent =
              ap (λ p. v.sent ++ in_flight p) waits ∙ append-nil v.sent in
            (
              lines ++ line ∷ [],
              all
                  ∙ ap (λ b. joined lines ++ b) same
                  ∙ sym (joined-append lines line rest)
                  ∙ ap (λ b. joined (lines ++ line ∷ []) ++ b) (sym behind),
              All-append (IsLine max_message_size) lines (line ∷ []) fit
                  ((no_feed, ground arith), tt),
              rw (sent, place)
                  (one_more line response s (subst (Answered lines) earlier answered) handled),
            )
      ]

  -- However the bytes arrive in chunks, whatever the other sessions do, and until the session closes:
  -- what was received is the lines read so far, each with its line feed and within the limit, and what
  -- is still in the buffer; and the responses sent and on their way are the handler's answers to these
  -- lines, one for each, in their order.
  pub Reaches-Serves :
      (received : Text) (v : Session)
      → Reaches handle max_message_size received v
      → v.place ≢ closed
      → Serves received v
  Reaches-Serves _ _ start is_open = ([], refl, tt, none_yet)
  Reaches-Serves _ _ (receive {received} {v} chunk reached) is_open =
      let (lines, all, fit, answered) = Reaches-Serves received v reached is_open in
      (lines, ap (λ s. s ++ chunk) all ∙ append_assoc (joined lines) v.buffer chunk, fit, answered)
  Reaches-Serves received v' (read {v = v} line rest s reached waits there e) is_open =
      let was_open : v.place ≢ closed = λ h. absurd (reading-ne-closed (sym waits ∙ h)) in
      on_read-Serves received line rest v v' s waits there e is_open
        (Reaches-Serves received v reached was_open)
  Reaches-Serves _ _ (read_error reached waits) is_open = absurd (is_open refl)
  Reaches-Serves received _ (wrote {v = v} text reached flies) is_open =
      let was_open : v.place ≢ closed = λ h. absurd (writing-ne-closed text (sym flies ∙ h)) in
      let (lines, all, fit, answered) = Reaches-Serves received v reached was_open in
      let arrived : v.sent ++ in_flight v.place ≡ (v.sent ++ text ∷ []) ++ [] =
        ap (λ p. v.sent ++ in_flight p) flies ∙ sym (append-nil (v.sent ++ text ∷ [])) in
      (lines, all, fit, subst (Answered lines) arrived answered)
  Reaches-Serves _ _ (write_error text reached flies) is_open = absurd (is_open refl)
