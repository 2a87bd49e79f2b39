-- ===== src/Http/Server.antt =====
-- Requests, routes, and go-kit's server, which turns a decoder, an endpoint and two encoders into a
-- handler.
use micromdm.Base.{
  String, Bool, true, false, Option, none, some, List, [], ◌∷◌, ◌++◌, Error, Result, ok, err, panic,
  Action, ◌≡◌, ◌≢◌,
}
use micromdm.Http.Reply.{Call, Written}

-- A request as a decoder sees it: `mux.Vars(r)`, and what reading `r.Body` gives.
pub record Request : Type 0 where
  pub vars : String → Option String
  pub body : Result String

-- What `json.NewDecoder(r.Body).Decode(&v)` leaves in `v`, and the error that it returns.
pub record Decoded (A : Type 0) : Type 0 where
  pub value : A
  pub error : Option Error

-- `err == io.EOF`
abbrev pub is_eof : Option Error → Bool
is_eof (some Error.eof) = true
is_eof _ = false

-- A pattern of gorilla/mux, as "/management/v1/profiles/{uuid}".
pub data Segment : Type 0 where
  part : String → Segment
  hole : String → Segment

-- A request that a router hands to the handler of a pattern has all the pattern's variables.
abbrev pub Matched : List Segment → Request → Type 0
Matched [] r = Unit
Matched (part s ∷ p) r = Matched p r
Matched (hole v ∷ p) r = (r.vars v ≢ none) × Matched p r

-- `kithttp.NewServer(ctx, endpoint, decoder, encoder, ServerErrorEncoder(encodeError)).ServeHTTP`
pub record Kit (W : Type 0) : Type 1 where
  pub serve :
      (A B : Type 0)
      → (A → Action W B)
      → (Request → Result A)
      → (B → Written)
      → (Error → List Call)
      → Request
      → Action W (List Call)

-- `r.Handle(pattern, handler).Methods(method)`
pub record Route (W : Type 0) : Type 0 where
  pub method : String
  pub pattern : List Segment
  pub handler : Request → Action W (List Call)

-- What go-kit documents of its server: what is returned, and the world left, in each case.
pub record IsKit {W : Type 0} (k : Kit W) : Type 1 where
  pub undecoded :
      (A B : Type 0) (f : A → Action W B) (d : Request → Result A) (enc : B → Written)
      (ee : Error → List Call) (r : Request) (w : W) (e : Error)
      → d r ≡ err e
      → k.serve A B f d enc ee r w ≡ (ok (ee (Error.kit e)), w)
  pub undecoded_panic :
      (A B : Type 0) (f : A → Action W B) (d : Request → Result A) (enc : B → Written)
      (ee : Error → List Call) (r : Request) (w : W)
      → d r ≡ panic
      → k.serve A B f d enc ee r w ≡ (panic, w)
  pub answered :
      (A B : Type 0) (f : A → Action W B) (d : Request → Result A) (enc : B → Written)
      (ee : Error → List Call) (r : Request) (w w' : W) (a : A) (b : B)
      → d r ≡ ok a
      → f a w ≡ (ok b, w')
      → (enc b).outcome ≡ ok tt
      → k.serve A B f d enc ee r w ≡ (ok (enc b).calls, w')
  pub unencoded :
      (A B : Type 0) (f : A → Action W B) (d : Request → Result A) (enc : B → Written)
      (ee : Error → List Call) (r : Request) (w w' : W) (a : A) (b : B) (e : Error)
      → d r ≡ ok a
      → f a w ≡ (ok b, w')
      → (enc b).outcome ≡ err e
      → k.serve A B f d enc ee r w ≡ (ok ((enc b).calls ++ ee (Error.kit e)), w')
  pub crashed :
      (A B : Type 0) (f : A → Action W B) (d : Request → Result A) (enc : B → Written)
      (ee : Error → List Call) (r : Request) (w w' : W) (a : A)
      → d r ≡ ok a
      → f a w ≡ (panic, w')
      → k.serve A B f d enc ee r w ≡ (panic, w')
