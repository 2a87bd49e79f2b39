-- ===== src/Management/Shape.antt =====
-- management/endpoint_*.go: the methods of the responses by which `encodeResponse` treats them.
use micromdm.Base.{none, some, List}
use micromdm.Workflow.Model.{Profile, Workflow}
use micromdm.Device.Model.{Device}
use micromdm.Certificate.Datastore.{Certificate}
use micromdm.Http.Reply.{Shape, Json}
use micromdm.Management.Endpoint.{
  AddProfileResponse, ListProfilesResponse, ShowProfileResponse, DeleteProfileResponse,
  AddWorkflowResponse, ListWorkflowsResponse, ListDevicesResponse, ShowDeviceResponse,
  UpdateDeviceResponse, PushResponse, FetchDepDevicesResponse, InstalledAppsResponse,
  InstalledAppsFields, ListCertificatesResponse,
}

module _ (json : Json) where
  -- 201 Created
  abbrev pub add_profile_shape : AddProfileResponse → Shape
  add_profile_shape r = record {
    errorer = some r.error;
    statuser = some 201;
    list_encoder = none;
    whole = json.encode AddProfileResponse r;
  }

  abbrev pub list_profiles_shape : ListProfilesResponse → Shape
  list_profiles_shape r = record {
    errorer = some r.error;
    statuser = none;
    list_encoder = some (json.indent (List Profile) r.profiles);
    whole = json.encode ListProfilesResponse r;
  }

  abbrev pub show_profile_shape : ShowProfileResponse → Shape
  show_profile_shape r = record {
    errorer = some r.error;
    statuser = none;
    list_encoder = none;
    whole = json.encode ShowProfileResponse r;
  }

  -- 204 No Content
  abbrev pub delete_profile_shape : DeleteProfileResponse → Shape
  delete_profile_shape r = record {
    errorer = some r.error;
    statuser = some 204;
    list_encoder = none;
    whole = json.encode DeleteProfileResponse r;
  }

  abbrev pub add_workflow_shape : AddWorkflowResponse → Shape
  add_workflow_shape r = record {
    errorer = some r.error;
    statuser = some 201;
    list_encoder = none;
    whole = json.encode AddWorkflowResponse r;
  }

  abbrev pub list_workflows_shape : ListWorkflowsResponse → Shape
  list_workflows_shape r = record {
    errorer = some r.error;
    statuser = none;
    list_encoder = some (json.indent (List Workflow) r.workflows);
    whole = json.encode ListWorkflowsResponse r;
  }

  abbrev pub list_devices_shape : ListDevicesResponse → Shape
  list_devices_shape r = record {
    errorer = some r.error;
    statuser = none;
    list_encoder = some (json.indent (List Device) r.devices);
    whole = json.encode ListDevicesResponse r;
  }

  abbrev pub show_device_shape : ShowDeviceResponse → Shape
  show_device_shape r = record {
    errorer = some r.error;
    statuser = none;
    list_encoder = none;
    whole = json.encode ShowDeviceResponse r;
  }

  abbrev pub update_device_shape : UpdateDeviceResponse → Shape
  update_device_shape r = record {
    errorer = some r.error;
    statuser = some 204;
    list_encoder = none;
    whole = json.encode UpdateDeviceResponse r;
  }

  abbrev pub push_shape : PushResponse → Shape
  push_shape r = record {
    errorer = some r.error;
    statuser = none;
    list_encoder = none;
    whole = json.encode PushResponse r;
  }

  abbrev pub fetch_devices_shape : FetchDepDevicesResponse → Shape
  fetch_devices_shape r = record {
    errorer = some r.error;
    statuser = none;
    list_encoder = none;
    whole = json.encode FetchDepDevicesResponse r;
  }

  -- The type has no methods, and its applications are not exported.
  abbrev pub installed_apps_shape : InstalledAppsResponse → Shape
  installed_apps_shape r = record {
    errorer = none;
    statuser = none;
    list_encoder = none;
    whole = json.encode InstalledAppsFields (record { error = r.error });
  }

  abbrev pub certificates_shape : ListCertificatesResponse → Shape
  certificates_shape r = record {
    errorer = some r.error;
    statuser = none;
    list_encoder = some (json.indent (List Certificate) r.certificates);
    whole = json.encode ListCertificatesResponse r;
  }
