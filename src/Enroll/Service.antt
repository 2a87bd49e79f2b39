-- ===== src/Enroll/Service.antt =====
-- enroll/service.go
use micromdm.Base.{
  String, ◌<>◌, ◌==◌, true, List, [], ◌∷◌, ◌++◌, Result, ok, Action, pure, ◌>>=◌, if◌then◌else◌,
}
use micromdm.Enroll.Profile.{
  Profile, Payload, MdmPayloadContent, ScepPayloadContent, Content, Item, new_profile, new_payload,
}
use micromdm.Enroll.Topic.{Name, get_push_topic_from_pkcs12}

-- The struct `service`.
pub record Config : Type 0 where
  pub url : String
  pub scep_url : String
  pub scep_challenge : String
  pub scep_subject : List (List (List String))
  pub topic : String
  pub ca_cert : String
  pub tls_cert : String

-- The interface.
pub record Service (W : Type 0) : Type 0 where
  pub enroll : Action W Profile

abbrev pub scep_subject : List (List (List String))
scep_subject =
    (("O" ∷ "MicroMDM" ∷ []) ∷ []) ∷ (("CN" ∷ "MDM Identity Certificate UDID" ∷ []) ∷ []) ∷ []

module _ {W : Type 0} (read_file : String → Action W String) where
  -- `if path != "" { cert, err = ioutil.ReadFile(path) … }`
  abbrev pub optional_file : String → Action W String
  optional_file path = if path == "" then pure "" else read_file path

  unfoldable pub configure :
      (decode : String → String → Result (List Name))
      (push_cert_path push_cert_pass ca_cert_path scep_url scep_challenge url
        tls_cert_path : String)
      → Action W Config
  configure decode push_cert_path push_cert_pass ca_cert_path scep_url scep_challenge url
        tls_cert_path =
      do
        push_topic ← get_push_topic_from_pkcs12 read_file decode push_cert_path push_cert_pass
        ca_cert ← optional_file ca_cert_path
        tls_cert ← optional_file tls_cert_path
        pure (record {
          url = url;
          scep_url = scep_url;
          scep_challenge = scep_challenge;
          scep_subject = scep_subject;
          topic = push_topic;
          ca_cert = ca_cert;
          tls_cert = tls_cert;
        })

abbrev pub described_profile : Profile → Profile
described_profile p = record p {
  payload_identifier = "com.github.micromdm.micromdm.mdm";
  payload_organization = "MicroMDM";
  payload_display_name = "Enrollment Profile";
  payload_description = "The server may alter your settings";
  payload_scope = "System";
}

abbrev pub mdm_payload : Payload → Payload
mdm_payload p = record p {
  payload_description = "Enrolls with the MDM server";
  payload_organization = "MicroMDM";
  payload_identifier = "com.github.micromdm.mdm";
  payload_scope = "System";
}

module _ (svc : Config) where
  abbrev pub mdm_payload_content : Payload → MdmPayloadContent
  mdm_payload_content p = record {
    payload = mdm_payload p;
    access_rights = 8191;
    check_in_url = svc.url <> "/mdm/checkin";
    check_out_when_removed = true;
    identity_certificate_uuid = "";
    server_capabilities = [];
    server_url = svc.url <> "/mdm/connect";
    topic = svc.topic;
  }

  abbrev pub scep_content : ScepPayloadContent
  scep_content = record {
    ca_fingerprint = "";
    challenge = if svc.scep_challenge == "" then "" else svc.scep_challenge;
    keysize = 1024;
    key_type = "RSA";
    key_usage = 0;
    name = "Device Management Identity Certificate";
    subject = svc.scep_subject;
    url = svc.scep_url;
  }

  abbrev pub scep_payload : Payload → Payload
  scep_payload p = record p {
    payload_description = "Configures SCEP";
    payload_display_name = "SCEP";
    payload_identifier = "com.github.micromdm.scep";
    payload_organization = "MicroMDM";
    payload_content = Content.scep scep_content;
    payload_scope = "System";
  }

  abbrev pub ca_payload : Payload → Payload
  ca_payload p = record p {
    payload_display_name = "Root certificate for MicroMDM";
    payload_description = "Installs the root CA certificate for MicroMDM";
    payload_identifier = "com.github.micromdm.ssl.ca";
    payload_content = Content.bytes svc.ca_cert;
  }

  abbrev pub tls_payload : Payload → Payload
  tls_payload p = record p {
    payload_display_name = "Self-signed TLS certificate for MicroMDM";
    payload_description = "Installs the TLS certificate for MicroMDM";
    payload_identifier = "com.github.micromdm.tls";
    payload_content = Content.bytes svc.tls_cert;
  }

module _ {W : Type 0} (new_v4 : W → String × W) where
  -- `if len(cert) > 0 { … }`
  abbrev pub certificate_items : String → String → (Payload → Payload) → W → List Item × W
  certificate_items cert payload_type fill w =
      if cert == ""
      then ([], w)
      else let (p, w') = new_payload new_v4 payload_type w in (Item.plain (fill p) ∷ [], w')

  module _ (svc : Config) where
    -- The payloads of the identity: that of SCEP where a URL is set, then that of MDM, which refers to it.
    abbrev pub identity_items : MdmPayloadContent → W → List Item × W
    identity_items m w =
        if svc.scep_url == ""
        then (Item.mdm m ∷ [], w)
        else let (p, w') = new_payload new_v4 "com.apple.security.scep" w in
          (
            Item.plain (scep_payload svc p)
                ∷ Item.mdm (record m { identity_certificate_uuid = p.payload_uuid })
                ∷ [],
            w',
          )

    unfoldable pub enroll : Action W Profile
    enroll w0 =
        let (profile, w1) = new_profile new_v4 w0 in
        let (p, w2) = new_payload new_v4 "com.apple.mdm" w1 in
        let (identity, w3) = identity_items (mdm_payload_content svc p) w2 in
        let (ca, w4) =
          certificate_items svc.ca_cert "com.apple.security.root" (ca_payload svc) w3 in
        let (tls, w5) =
          certificate_items svc.tls_cert "com.apple.security.pkcs1" (tls_payload svc) w4 in
        (ok (record (described_profile profile) { payload_content = identity ++ (ca ++ tls) }), w5)

-- `NewService`
unfoldable pub new_service :
    {W : Type 0} (new_v4 : W → String × W) (read_file : String → Action W String)
    → (decode : String → String → Result (List Name))
    → (push_cert_path push_cert_pass ca_cert_path scep_url scep_challenge url
        tls_cert_path : String)
    → Action W (Service W)
new_service new_v4 read_file decode push_cert_path push_cert_pass ca_cert_path scep_url
      scep_challenge url tls_cert_path =
    do
      svc ←
          configure read_file decode push_cert_path push_cert_pass ca_cert_path scep_url
            scep_challenge url tls_cert_path
      pure (record { enroll = enroll new_v4 svc })
