-- ===== src/Enroll/Topic.antt =====
-- enroll/certificates.go: the topic of the push certificate.
use micromdm.Base.{
  String, ◌==◌, Option, none, some, List, [], ◌∷◌, Error, Result, ok, err, panic, Action, return,
  ◌>>=◌, if◌then◌else◌,
}

-- An attribute of `cert.Subject.Names`: the text of its type, and its value where this is a string.
pub record Name : Type 0 where
  pub type : String
  pub value : Option String

abbrev pub push_topic_asn1 : String
push_topic_asn1 = "0.9.2342.19200300.100.1.1"

-- `v.Value.(string)`
abbrev pub text_of : Option String → Result String
text_of none = panic
text_of (some s) = ok s

unfoldable pub find_topic : List Name → Result String
find_topic [] = err (Error.new "Could not find Push Topic in the provided pkcs12 bundle.")
find_topic (v ∷ names) =
    let rest = find_topic names in if v.type == push_topic_asn1 then text_of v.value else rest

-- `read_file` is `ioutil.ReadFile`, `decode` is `pkcs12.Decode` down to the certificate's names.
unfoldable pub get_push_topic_from_pkcs12 :
    {W : Type 0} (read_file : String → Action W String)
    → (decode : String → String → Result (List Name)) (cert_path cert_pass : String)
    → Action W String
get_push_topic_from_pkcs12 read_file decode cert_path cert_pass = do
  cert_data ← read_file cert_path
  names ← return (decode cert_data cert_pass)
  return (find_topic names)
