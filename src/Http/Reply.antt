-- ===== src/Http/Reply.antt =====
-- Replies as the calls that the code makes of an `http.ResponseWriter`, in their order, and the
-- encoders that the transport.go files of management, command, checkin and connect have in common.
use micromdm.Base.{
  ◌<>◌, ℕ, String, Option, none, some, List, [], ◌∷◌, ◌++◌, Error, Result, ok, err, panic, ◌≡◌, eqb,
  if◌then◌else◌,
}

pub data Call : Type 0 where
  set_header : String → String → Call
  write_header : ℕ → Call
  write : String → Call

-- `json.NewEncoder(w).Encode` and `json.MarshalIndent(v, "", "  ")`, on values of any type.
pub record Json : Type 1 where
  pub encode : (A : Type 0) → A → Result String
  pub indent : (A : Type 0) → A → Result String

-- `map[string]interface{}{"error": err.Error()}`
pub record ErrorBody : Type 0 where
  pub error : String

-- What an encoder does: its calls, and what it returns.
pub record Written : Type 0 where
  pub calls : List Call
  pub outcome : Result (Unit {0})

abbrev pub written : List Call → Written
written cs = record { calls = cs; outcome = ok tt }

-- What `encodeResponse` sees of a response by its type assertions: the methods `error`, `status` and
-- `encodeList`, where the type has them, and the encoding of the whole.
pub record Shape : Type 0 where
  pub errorer : Option (Option Error)
  pub statuser : Option ℕ
  pub list_encoder : Option (Result String)
  pub whole : Result String

-- `if e, ok := response.(errorer); ok && e.error() != nil`
abbrev pub failing : Option (Option Error) → Option Error
failing none = none
failing (some e) = e

abbrev pub json_type : Call
json_type = set_header "Content-Type" "application/json; charset=utf-8"

-- Calls, and then those of another encoder.
abbrev pub after : List Call → Written → Written
after cs w = record w { calls = cs ++ w.calls }

-- `json.NewEncoder(w).Encode(v)`, or that of plist: a failure to encode is returned.
abbrev pub encode : Result String → Written
encode (ok s) = written (write s ∷ [])
encode (err e) = record { calls = []; outcome = err e }
encode panic = record { calls = []; outcome = panic }

-- The same where the error is dropped.
abbrev pub encode_dropping : Result String → List Call
encode_dropping (ok s) = write s ∷ []
encode_dropping (err e) = []
encode_dropping panic = []

-- The `encodeList` methods of package management.
abbrev pub encode_list : Result String → Written
encode_list (ok s) = written (json_type ∷ write s ∷ [])
encode_list (err e) = record { calls = []; outcome = err e }
encode_list panic = record { calls = []; outcome = panic }

-- The end of `encodeResponse`: a collection, or the response itself.
abbrev pub encode_value :
    (Result String → Written) → Option (Result String) → Result String → Written
encode_value list (some items) whole = list items
encode_value list none whole = encode whole

-- From the statuser on; a reply without content ends there.
abbrev pub encode_success : Option ℕ → Written → Written
encode_success none rest = rest
encode_success (some n) rest =
    if eqb n 204 then written (write_header n ∷ []) else after (write_header n ∷ []) rest

-- `encodeResponse` where `heading` is what it sets before a success, and `body` what ends it.
abbrev pub respond_with : (Error → List Call) → List Call → Shape → Written → Option Error → Written
respond_with encode_error heading s body (some e) = written (encode_error e)
respond_with encode_error heading s body none = after heading (encode_success s.statuser body)

-- `if httperr, ok := err.(kithttp.Error); ok { err = httperr.Err }`
abbrev pub unwrap : Error → Error
unwrap (Error.kit e) = e
unwrap e = e

-- What net/http documents of the status that the client gets for a handler's calls.
pub record IsStatus (status : List Call → ℕ) : Type 0 where
  pub nothing_sent : status [] ≡ 200
  pub header : (k v : String) (cs : List Call) → status (set_header k v ∷ cs) ≡ status cs
  pub explicit : (n : ℕ) (cs : List Call) → status (write_header n ∷ cs) ≡ n
  pub implicit : (s : String) (cs : List Call) → status (write s ∷ cs) ≡ 200

-- The handler replies, and the client gets the status `n`.
abbrev pub Answers : (List Call → ℕ) → ℕ → Result (List Call) → Type 0
Answers status n (ok cs) = status cs ≡ n
Answers status n (err e) = ⊥
Answers status n panic = ⊥

-- The body of the reply: what the calls write, in their order.
abbrev pub body : List Call → String
body [] = ""
body (set_header k v ∷ cs) = body cs
body (write_header n ∷ cs) = body cs
body (write s ∷ cs) = s <> body cs

-- The handler replies with the status `n` and the body `s`.
abbrev pub Sends : (List Call → ℕ) → ℕ → String → Result (List Call) → Type 0
Sends status n s (ok cs) = (status cs ≡ n) × (body cs ≡ s)
Sends status n s (err e) = ⊥
Sends status n s panic = ⊥
