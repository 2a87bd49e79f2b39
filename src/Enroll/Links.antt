-- ===== src/Enroll/Links.antt =====
-- enroll/service.go: how the payloads of an enrollment profile refer to the server and to each other.
use package.text.Mathlib.TextEquality.{eq_iff}
use micromdm.Base.{
  String, ◌<>◌, ◌==◌, List, [], ◌∷◌, map, Result, ok, err, panic, ◌≡◌, refl, if◌then◌else◌, arith,
}
use micromdm.Enroll.Profile.{
  Profile, Payload, MdmPayloadContent, Content, Item, new_profile, new_payload,
}
use micromdm.Enroll.Service.{Config, mdm_payload_content, enroll}

-- The MDM payloads, and the others of a type.
abbrev pub mdm_payloads : List Item → List MdmPayloadContent
mdm_payloads [] = []
mdm_payloads (Item.mdm m ∷ is) = m ∷ mdm_payloads is
mdm_payloads (Item.plain p ∷ is) = mdm_payloads is

abbrev pub payloads_of : String → List Item → List Payload
payloads_of t [] = []
payloads_of t (Item.mdm m ∷ is) = payloads_of t is
payloads_of t (Item.plain p ∷ is) =
    let rest = payloads_of t is in if p.payload_type == t then p ∷ rest else rest

abbrev pub unless_empty : {A : Type 0} → String → A → List A
unless_empty s a = if s == "" then [] else a ∷ []

-- The profile's MDM payload `m` leads to the server, its identity is that of the only SCEP payload, and the
-- certificates are those of the configuration.
abbrev pub Describes : Config → MdmPayloadContent → Profile → Type 0
Describes svc m p =
    (mdm_payloads p.payload_content ≡ m ∷ [])
    × (m.check_in_url ≡ svc.url <> "/mdm/checkin")
    × (m.server_url ≡ svc.url <> "/mdm/connect")
    × (m.topic ≡ svc.topic)
    × (map (λ s. s.payload_uuid) (payloads_of "com.apple.security.scep" p.payload_content)
        ≡ unless_empty svc.scep_url m.identity_certificate_uuid)
    × (map (λ s. s.payload_content) (payloads_of "com.apple.security.root" p.payload_content)
        ≡ unless_empty svc.ca_cert (Content.bytes svc.ca_cert))
    × (map (λ s. s.payload_content) (payloads_of "com.apple.security.pkcs1" p.payload_content)
        ≡ unless_empty svc.tls_cert (Content.bytes svc.tls_cert))

abbrev pub IsLinked : Config → Result Profile → Type 0
IsLinked svc (ok p) = (m : MdmPayloadContent) × Describes svc m p
IsLinked svc (err e) = ⊥
IsLinked svc panic = ⊥

-- Enroll returns a profile, whatever the configuration: it has exactly one MDM payload, whose
-- check-in and server URLs are the server's with /mdm/checkin and /mdm/connect, with the topic of
-- the push certificate; the UUID of the identity in it is that of the only SCEP payload, where a
-- SCEP URL is set, and there is no SCEP payload otherwise; and there is one root and one PKCS1
-- payload, with the configured certificate, where that certificate is not empty, and none
-- otherwise.
pub enroll-IsLinked :
    {W : Type 0} (new_v4 : W → String × W) (svc : Config) (w : W)
    → IsLinked svc (enroll new_v4 svc w).0
unfolding enroll new_profile new_payload
enroll-IsLinked new_v4 svc w =
    let w2 = (new_v4 (new_v4 w).1).1 in
    let p = (new_payload new_v4 "com.apple.mdm" (new_v4 w).1).0 in
    (
      record (mdm_payload_content svc p) {
        identity_certificate_uuid = if svc.scep_url == "" then "" else (new_v4 w2).0;
      },
      (
        ground arith,
        refl,
        refl,
        refl,
        ground (
          arith,
          eq_iff "com.apple.security.scep" "com.apple.security.scep",
          eq_iff "com.apple.security.root" "com.apple.security.scep",
          eq_iff "com.apple.security.pkcs1" "com.apple.security.scep",
        ),
        ground (
          arith,
          eq_iff "com.apple.security.scep" "com.apple.security.root",
          eq_iff "com.apple.security.root" "com.apple.security.root",
          eq_iff "com.apple.security.pkcs1" "com.apple.security.root",
        ),
        ground (
          arith,
          eq_iff "com.apple.security.scep" "com.apple.security.pkcs1",
          eq_iff "com.apple.security.root" "com.apple.security.pkcs1",
          eq_iff "com.apple.security.pkcs1" "com.apple.security.pkcs1",
        ),
      ),
    )
