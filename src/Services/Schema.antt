-- ===== src/Services/Schema.antt =====
-- The tables as migrations/ leaves them: the defaults of their columns, their unique columns and their
-- references. Columns have no types here: the syntax of `uuid`, the day of a `date`, NOT NULL and CHECK
-- are left out, as are primary keys but that of workflow_profile, and UNIQUE (name, version) of
-- applications.
use micromdm.Base.{String, Bool, ◌==◌, ◌||◌, List, [], ◌∷◌, if◌then◌else◌}
use micromdm.Services.Sql.{null, text, time, bool, Row, member}

-- The text columns of `devices` that are NOT NULL DEFAULT ''.
abbrev pub blank_columns : List String
blank_columns =
    "model" ∷ "description" ∷ "imei" ∷ "meid" ∷ "workflow_uuid" ∷ "device_name" ∷ "os_version"
    ∷ "build_version" ∷ "product_name" ∷ []

-- The columns whose default is Go's zero time.
abbrev pub zero_time_columns : List String
zero_time_columns =
    "dep_profile_assign_time" ∷ "dep_profile_push_time" ∷ "dep_profile_assigned_date"
    ∷ "last_checkin" ∷ []

device_defaults : Row
device_defaults c =
    if member c blank_columns then text "" else if member c zero_time_columns then time 0 else null

-- The column that each table fills with `uuid_generate_v4()`.
unfoldable pub uuid_column : String → String
uuid_column t =
    if t == "devices"
    then "device_uuid"
    else if t == "workflows"
    then "workflow_uuid"
    else if t == "profiles"
    then "profile_uuid"
    else if t == "devices_certificates"
    then "certificate_uuid"
    else "application_uuid"

unfoldable pub defaults : String → Row
unfolding device_defaults
defaults t c =
    if t == "devices"
    then device_defaults c
    else if t == "devices_certificates"
    then if c == "is_identity" then bool Bool.false else null
    else null

-- The columns that refer to a row of another table, by the column of the same name there.
unfoldable pub foreign : String → List (String × String)
foreign t =
    if t == "workflow_profile"
    then ("workflow_uuid", "workflows") ∷ ("profile_uuid", "profiles") ∷ []
    else if t == "devices_certificates" || t == "devices_applications"
    then ("device_uuid", "devices") ∷ []
    else []

-- The tables that refer to a table, where deleting a row that is referred to is an error.
unfoldable pub referring : String → List String
referring t = if t == "workflows" || t == "profiles" then "workflow_profile" ∷ [] else []

-- Unique indexes, each a list of columns.
unfoldable pub unique : String → List (List String)
unique t =
    if t == "devices"
    then ("serial_number" ∷ []) ∷ ("udid" ∷ []) ∷ []
    else if t == "workflows"
    then ("name" ∷ []) ∷ []
    else if t == "profiles"
    then ("payload_identifier" ∷ []) ∷ []
    else if t == "workflow_profile"
    then ("workflow_uuid" ∷ "profile_uuid" ∷ []) ∷ []
    else []
