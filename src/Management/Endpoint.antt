-- ===== src/Management/Endpoint.antt =====
-- management/endpoint_*.go: the requests, responses and endpoints of the administrator's API. The
-- responses' methods are in Management/Shape.
use micromdm.Base.{String, Option, none, some, List, [], Error, Action, pure, respond}
use micromdm.Workflow.Model.{Profile, Workflow}
use micromdm.Device.Model.{Device}
use micromdm.Application.Datastore.{Application}
use micromdm.Certificate.Datastore.{Certificate}
use micromdm.Management.Service.{Service}

pub record AddProfileRequest : Type 0 where
  pub profile : Profile

pub record AddProfileResponse : Type 0 where
  pub profile : Option Profile
  pub error : Option Error

pub record ListProfilesResponse : Type 0 where
  pub profiles : List Profile
  pub error : Option Error

pub record ShowProfileRequest : Type 0 where
  pub uuid : String

pub record ShowProfileResponse : Type 0 where
  pub profile : Option Profile
  pub error : Option Error

pub record DeleteProfileRequest : Type 0 where
  pub uuid : String

pub record DeleteProfileResponse : Type 0 where
  pub error : Option Error

pub record AddWorkflowRequest : Type 0 where
  pub workflow : Workflow

pub record AddWorkflowResponse : Type 0 where
  pub workflow : Option Workflow
  pub error : Option Error

pub record ListWorkflowsResponse : Type 0 where
  pub workflows : List Workflow
  pub error : Option Error

pub record ListDevicesResponse : Type 0 where
  pub devices : List Device
  pub error : Option Error

pub record ShowDeviceRequest : Type 0 where
  pub uuid : String

pub record ShowDeviceResponse : Type 0 where
  pub device : Option Device
  pub error : Option Error

pub record UpdateDeviceRequest : Type 0 where
  pub device_uuid : String
  pub workflow : Option String

pub record UpdateDeviceResponse : Type 0 where
  pub error : Option Error

pub record PushRequest : Type 0 where
  pub udid : String

pub record PushResponse : Type 0 where
  pub status : String
  pub id : String
  pub error : Option Error

pub record FetchDepDevicesResponse : Type 0 where
  pub error : Option Error

pub record InstalledAppsRequest : Type 0 where
  pub uuid : String

pub record InstalledAppsResponse : Type 0 where
  pub applications : List Application
  pub error : Option Error

-- The exported fields of an InstalledAppsResponse.
pub record InstalledAppsFields : Type 0 where
  pub error : Option Error

pub record ListCertificatesRequest : Type 0 where
  pub uuid : String

pub record ListCertificatesResponse : Type 0 where
  pub certificates : List Certificate
  pub error : Option Error

module _ {W : Type 0} (svc : Service W) where
  unfoldable pub add_profile_endpoint : AddProfileRequest → Action W AddProfileResponse
  add_profile_endpoint req =
      respond (λ pf. record { profile = some pf; error = none })
        (λ e. record { profile = none; error = some e }) (svc.add_profile req.profile)

  unfoldable pub list_profiles_endpoint : Unit {0} → Action W ListProfilesResponse
  list_profiles_endpoint _ =
      respond (λ ps. record { profiles = ps; error = none })
        (λ e. record { profiles = []; error = some e }) svc.profiles

  unfoldable pub show_profile_endpoint : ShowProfileRequest → Action W ShowProfileResponse
  show_profile_endpoint req =
      respond (λ pf. record { profile = some pf; error = none })
        (λ e. record { profile = none; error = some e }) (svc.profile req.uuid)

  unfoldable pub delete_profile_endpoint : DeleteProfileRequest → Action W DeleteProfileResponse
  delete_profile_endpoint req =
      respond (λ _. record { error = none }) (λ e. record { error = some e })
        (svc.delete_profile req.uuid)

  unfoldable pub add_workflow_endpoint : AddWorkflowRequest → Action W AddWorkflowResponse
  add_workflow_endpoint req =
      respond (λ wf. record { workflow = some wf; error = none })
        (λ e. record { workflow = none; error = some e }) (svc.add_workflow req.workflow)

  unfoldable pub list_workflows_endpoint : Unit {0} → Action W ListWorkflowsResponse
  list_workflows_endpoint _ =
      respond (λ ws. record { workflows = ws; error = none })
        (λ e. record { workflows = []; error = some e }) svc.workflows

  unfoldable pub list_devices_endpoint : Unit {0} → Action W ListDevicesResponse
  list_devices_endpoint _ =
      respond (λ ds. record { devices = ds; error = none })
        (λ e. record { devices = []; error = some e }) svc.devices

  unfoldable pub show_device_endpoint : ShowDeviceRequest → Action W ShowDeviceResponse
  show_device_endpoint req =
      respond (λ d. record { device = some d; error = none })
        (λ e. record { device = none; error = some e }) (svc.device req.uuid)

  -- Without a workflow in the request nothing is done.
  abbrev assign : String → Option String → Action W (Unit {0})
  assign device_uuid none = pure tt
  assign device_uuid (some workflow) = svc.assign_workflow device_uuid workflow

  unfoldable pub update_device_endpoint : UpdateDeviceRequest → Action W UpdateDeviceResponse
  update_device_endpoint req =
      respond (λ _. record { error = none }) (λ e. record { error = some e })
        (assign req.device_uuid req.workflow)

  unfoldable pub push_endpoint : PushRequest → Action W PushResponse
  push_endpoint req =
      respond (λ id. record { status = "success"; id = id; error = none })
        (λ e. record { status = "failure"; id = ""; error = some e }) (svc.push req.udid)

  unfoldable pub fetch_devices_endpoint : Unit {0} → Action W FetchDepDevicesResponse
  fetch_devices_endpoint _ =
      respond (λ _. record { error = none }) (λ e. record { error = some e }) svc.fetch_dep_devices

  unfoldable pub installed_apps_endpoint : InstalledAppsRequest → Action W InstalledAppsResponse
  installed_apps_endpoint req =
      respond (λ as_. record { applications = as_; error = none })
        (λ e. record { applications = []; error = some e }) (svc.installed_apps req.uuid)

  unfoldable pub certificates_endpoint : ListCertificatesRequest → Action W ListCertificatesResponse
  certificates_endpoint req =
      respond (λ cs. record { certificates = cs; error = none })
        (λ e. record { certificates = []; error = some e }) (svc.certificates req.uuid)
