-- ===== src/Enroll/Profile.antt =====
-- enroll/profile.go: the structs of a configuration profile, and their constructors, which take a
-- random UUID (`uuid.NewV4().String()`) from the world.
use micromdm.Base.{ℕ, String, Bool, false, Option, none, List, []}

pub record ScepPayloadContent : Type 0 where
  pub ca_fingerprint : String
  pub challenge : String
  pub keysize : ℕ
  pub key_type : String
  pub key_usage : ℕ
  pub name : String
  pub subject : List (List (List String))
  pub url : String

-- What the interface value `PayloadContent` holds: nil, a SCEP payload's content, or bytes.
pub data Content : Type 0 where
  empty : Content
  scep : ScepPayloadContent → Content
  bytes : String → Content

pub record Payload : Type 0 where
  pub payload_type : String
  pub payload_version : ℕ
  pub payload_identifier : String
  pub payload_uuid : String
  pub payload_display_name : String
  pub payload_description : String
  pub payload_organization : String
  pub payload_scope : String
  pub payload_content : Content

pub record MdmPayloadContent : Type 0 where
  pub payload : Payload
  pub access_rights : ℕ
  pub check_in_url : String
  pub check_out_when_removed : Bool
  pub identity_certificate_uuid : String
  pub server_capabilities : List String
  pub server_url : String
  pub topic : String

-- An element of a profile's `PayloadContent`.
pub data Item : Type 0 where
  plain : Payload → Item
  mdm : MdmPayloadContent → Item

-- The dates and the duration are in the units of their encodings; the package sets none of them.
pub record Profile : Type 0 where
  pub payload_content : List Item
  pub payload_description : String
  pub payload_display_name : String
  pub payload_expiration_date : Option ℕ
  pub payload_identifier : String
  pub payload_organization : String
  pub payload_uuid : String
  pub payload_removal_disallowed : Bool
  pub payload_type : String
  pub payload_version : ℕ
  pub payload_scope : String
  pub removal_date : Option ℕ
  pub duration_until_removal : ℕ
  pub consent_text : List (String × String)

module _ {W : Type 0} (new_v4 : W → String × W) where
  unfoldable pub new_profile : W → Profile × W
  new_profile w =
      let (uuid, w') = new_v4 w in
      (
        record {
          payload_content = [];
          payload_description = "";
          payload_display_name = "";
          payload_expiration_date = none;
          payload_identifier = "";
          payload_organization = "";
          payload_uuid = uuid;
          payload_removal_disallowed = false;
          payload_type = "Configuration";
          payload_version = 1;
          payload_scope = "";
          removal_date = none;
          duration_until_removal = 0;
          consent_text = [];
        },
        w',
      )

  unfoldable pub new_payload : String → W → Payload × W
  new_payload payload_type w =
      let (uuid, w') = new_v4 w in
      (
        record {
          payload_type = payload_type;
          payload_version = 1;
          payload_identifier = "";
          payload_uuid = uuid;
          payload_display_name = "";
          payload_description = "";
          payload_organization = "";
          payload_scope = "";
          payload_content = Content.empty;
        },
        w',
      )
