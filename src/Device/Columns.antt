-- ===== src/Device/Columns.antt =====
-- The `db` tags of device/device.go: the column of each field of a `Device`. sqlx names a field
-- without a tag by its name in lower case.
use micromdm.Base.{
  ℕ, String, ◌==◌, Bool, List, [], ◌∷◌, Error, Result, ok, err, panic, if◌then◌else◌,
}
use micromdm.Services.Sql.{Value, null, text, bool, time, Row}
use micromdm.Device.Model.{
  JsonNullString, scan_string, null_string, null_string_value, Device, zero_device, status_value,
  status_scan,
}

-- The named parameter `:column` of a device.
unfoldable pub named : Device → Row
named d c =
    if c == "device_uuid"
    then text d.uuid
    else if c == "udid"
    then null_string_value d.udid
    else if c == "serial_number"
    then null_string_value d.serial_number
    else if c == "os_version"
    then text d.os_version
    else if c == "build_version"
    then text d.build_version
    else if c == "product_name"
    then text d.product_name
    else if c == "imei"
    then text d.imei
    else if c == "meid"
    then text d.meid
    else if c == "apple_mdm_topic"
    then text d.mdm_topic
    else if c == "apple_push_magic"
    then text d.push_magic
    else if c == "awaiting_configuration"
    then bool d.awaiting_configuration
    else if c == "apple_mdm_token"
    then text d.token
    else if c == "unlock_token"
    then text d.unlock_token
    else if c == "mdm_enrolled"
    then bool d.enrolled
    else if c == "workflow_uuid"
    then text d.workflow
    else if c == "dep_device"
    then bool d.dep_device
    else if c == "description"
    then text d.description
    else if c == "model"
    then text d.model
    else if c == "color"
    then text d.color
    else if c == "asset_tag"
    then text d.asset_tag
    else if c == "dep_profile_status"
    then status_value d.dep_profile_status
    else if c == "dep_profile_uuid"
    then text d.dep_profile_uuid
    else if c == "dep_profile_assign_time"
    then time d.dep_profile_assign_time
    else if c == "dep_profile_push_time"
    then time d.dep_profile_push_time
    else if c == "dep_profile_assigned_date"
    then time d.dep_profile_assigned_date
    else if c == "dep_profile_assigned_by"
    then text d.dep_profile_assigned_by
    else if c == "last_checkin"
    then time d.last_checkin
    else if c == "device_name"
    then text d.device_name
    else if c == "last_query_response"
    then text d.last_query_response
    else null

abbrev unscannable : {A : Type 0} → Result A
unscannable = err (Error.fault "sql: Scan error on column")

-- A NULL cannot be scanned into a Go string, bool or time.Time.
abbrev as_text : Value → (String → Device) → Result Device
as_text (text s) f = ok (f s)
as_text _ f = unscannable

abbrev as_bool : Value → (Bool → Device) → Result Device
as_bool (bool b) f = ok (f b)
as_bool _ f = unscannable

abbrev as_time : Value → (ℕ → Device) → Result Device
as_time (time t) f = ok (f t)
as_time _ f = unscannable

abbrev as_null_string : Value → (JsonNullString → Device) → Result Device
as_null_string (text s) f = ok (f (scan_string s))
as_null_string null f = ok (f null_string)
as_null_string _ f = unscannable

-- A []byte takes a NULL as nil.
abbrev as_bytes : Value → (String → Device) → Result Device
as_bytes (text s) f = ok (f s)
as_bytes null f = ok (f "")
as_bytes _ f = unscannable

abbrev as_status : Result String → (String → Device) → Result Device
as_status (ok s) f = ok (f s)
as_status (err e) f = err e
as_status panic f = panic

-- One column of a result row into its field.
unfoldable pub scan_column : String → Value → Device → Result Device
scan_column c v d =
    if c == "device_uuid"
    then as_text v (λ s. record d { uuid = s })
    else if c == "udid"
    then as_null_string v (λ s. record d { udid = s })
    else if c == "serial_number"
    then as_null_string v (λ s. record d { serial_number = s })
    else if c == "os_version"
    then as_text v (λ s. record d { os_version = s })
    else if c == "build_version"
    then as_text v (λ s. record d { build_version = s })
    else if c == "product_name"
    then as_text v (λ s. record d { product_name = s })
    else if c == "imei"
    then as_text v (λ s. record d { imei = s })
    else if c == "meid"
    then as_text v (λ s. record d { meid = s })
    else if c == "apple_mdm_topic"
    then as_text v (λ s. record d { mdm_topic = s })
    else if c == "apple_push_magic"
    then as_text v (λ s. record d { push_magic = s })
    else if c == "awaiting_configuration"
    then as_bool v (λ b. record d { awaiting_configuration = b })
    else if c == "apple_mdm_token"
    then as_text v (λ s. record d { token = s })
    else if c == "unlock_token"
    then as_text v (λ s. record d { unlock_token = s })
    else if c == "mdm_enrolled"
    then as_bool v (λ b. record d { enrolled = b })
    else if c == "workflow_uuid"
    then as_text v (λ s. record d { workflow = s })
    else if c == "dep_device"
    then as_bool v (λ b. record d { dep_device = b })
    else if c == "description"
    then as_text v (λ s. record d { description = s })
    else if c == "model"
    then as_text v (λ s. record d { model = s })
    else if c == "color"
    then as_text v (λ s. record d { color = s })
    else if c == "asset_tag"
    then as_text v (λ s. record d { asset_tag = s })
    else if c == "dep_profile_status"
    then as_status (status_scan v) (λ s. record d { dep_profile_status = s })
    else if c == "dep_profile_uuid"
    then as_text v (λ s. record d { dep_profile_uuid = s })
    else if c == "dep_profile_assign_time"
    then as_time v (λ t. record d { dep_profile_assign_time = t })
    else if c == "dep_profile_push_time"
    then as_time v (λ t. record d { dep_profile_push_time = t })
    else if c == "dep_profile_assigned_date"
    then as_time v (λ t. record d { dep_profile_assigned_date = t })
    else if c == "dep_profile_assigned_by"
    then as_text v (λ s. record d { dep_profile_assigned_by = s })
    else if c == "last_checkin"
    then as_time v (λ t. record d { last_checkin = t })
    else if c == "device_name"
    then as_text v (λ s. record d { device_name = s })
    else if c == "last_query_response"
    then as_bytes v (λ s. record d { last_query_response = s })
    else err (Error.fault "missing destination name")

abbrev scan_more : Result Device → (Device → Result Device) → Result Device
scan_more (ok d) f = f d
scan_more (err e) f = err e
scan_more panic f = panic

-- The selected columns of a row, in their order, into a device that is zero elsewhere.
abbrev scan_into : List String → Row → Device → Result Device
scan_into [] r d = ok d
scan_into (c ∷ cs) r d = scan_more (scan_column c (r c) d) (scan_into cs r)

unfoldable pub scan_device : List String → Row → Result Device
unfolding scan_column
scan_device columns r = scan_into columns r zero_device

abbrev collect : Result Device → Result (List Device) → Result (List Device)
collect (ok d) (ok ds) = ok (d ∷ ds)
collect (ok d) (err e) = err e
collect (ok d) panic = panic
collect (err e) _ = err e
collect panic _ = panic

unfoldable pub scan_devices : List String → List Row → Result (List Device)
unfolding scan_device
scan_devices columns [] = ok []
scan_devices columns (r ∷ rs) = collect (scan_device columns r) (scan_devices columns rs)
