-- ===== src/Management/Service.antt =====
-- management/service.go
use micromdm.Base.{
  String, List, [], ◌∷◌, Bool, Error, Action, pure, raise, wrapping, ◌>>=◌, if◌then◌else◌,
}
use micromdm.Mdm.{DepDevice}
use micromdm.Device.Model.{Device, new_from_dep}
use micromdm.Device.Datastore as DeviceStore
use micromdm.Workflow.Model.{Profile, Workflow}
use micromdm.Workflow.Datastore as WorkflowStore
use micromdm.Application.Datastore as ApplicationStore
use micromdm.Application.Datastore.{Application}
use micromdm.Certificate.Datastore as CertificateStore
use micromdm.Certificate.Datastore.{Certificate}

pub record Service (W : Type 0) : Type 0 where
  pub add_profile : Profile → Action W Profile
  pub profiles : Action W (List Profile)
  pub profile : String → Action W Profile
  pub delete_profile : String → Action W (Unit {0})
  pub add_workflow : Workflow → Action W Workflow
  pub workflows : Action W (List Workflow)
  pub devices : Action W (List Device)
  pub device : String → Action W Device
  pub installed_apps : String → Action W (List Application)
  pub certificates : String → Action W (List Certificate)
  pub assign_workflow : String → String → Action W (Unit {0})
  pub push : String → Action W String
  pub fetch_dep_devices : Action W (Unit {0})

-- Apple's push service through buford: a notification to a device token that carries the device's
-- push magic, and returns the notification's identifier. DEP's list of devices, as
-- `FetchDevices(dep.Limit(100))` returns it.
pub record Apple (W : Type 0) : Type 0 where
  pub send : String → String → Action W String
  pub fetch_devices : Action W (List DepDevice)

-- `is_device_token_valid` is buford's `push.IsDeviceTokenValid`.
module _ {W : Type 0} (devices_db : DeviceStore.Datastore W)
    (workflows_db : WorkflowStore.Datastore W) (is_device_token_valid : String → Bool)
    (apple : Apple W) (applications_db : ApplicationStore.Datastore W)
    (certificates_db : CertificateStore.Datastore W) where
  abbrev pub notify : Device → Action W String
  notify dev =
      if is_device_token_valid dev.token
      then apple.send dev.token dev.push_magic
      else raise (Error.new "invalid push token")

  unfoldable pub push : String → Action W String
  push device_udid =
      wrapping "retrieving device by UDID" (
        devices_db.get_device_by_udid device_udid
          ("device_uuid" ∷ "apple_push_magic" ∷ "apple_mdm_token" ∷ []))
      >>= notify

  unfoldable pub add_profile : Profile → Action W Profile
  add_profile prf = workflows_db.create_profile prf

  unfoldable pub profiles : Action W (List Profile)
  profiles = workflows_db.profiles []

  -- `&rows[0]`, or `ErrNotFound`
  abbrev pub the_first : {A : Type 0} → List A → Action W A
  the_first [] = raise Error.not_found
  the_first (a ∷ _) = pure a

  unfoldable pub profile : String → Action W Profile
  profile uuid = do
    found ← workflows_db.profiles (WorkflowStore.profile_uuid uuid ∷ [])
    the_first found

  unfoldable pub delete_profile : String → Action W (Unit {0})
  unfolding profile
  delete_profile uuid = do pr ← profile uuid; workflows_db.delete_profile pr

  -- The loop of `FetchDEPDevices`
  unfoldable pub store_fetched : List DepDevice → Action W (Unit {0})
  store_fetched [] = pure tt
  store_fetched (d ∷ ds) =
      wrapping "management: dep fetch" (devices_db.new "fetch" (new_from_dep d)) >>= λ _.
      store_fetched ds

  unfoldable pub fetch_dep_devices : Action W (Unit {0})
  unfolding store_fetched
  fetch_dep_devices = wrapping "management: dep fetch" apple.fetch_devices >>= store_fetched

  unfoldable pub add_workflow : Workflow → Action W Workflow
  add_workflow wf = workflows_db.create_workflow wf

  unfoldable pub workflows : Action W (List Workflow)
  workflows = workflows_db.workflows []

  unfoldable pub devices : Action W (List Device)
  devices = devices_db.devices []

  unfoldable pub device : String → Action W Device
  device uuid = do found ← devices_db.devices (DeviceStore.uuid uuid ∷ []); the_first found

  unfoldable pub assign_workflow : String → String → Action W (Unit {0})
  assign_workflow device_uuid workflow_uuid =
      wrapping "management: assign workflow"
        (devices_db.get_device_by_uuid device_uuid ("device_uuid" ∷ []))
      >>= λ dev. devices_db.save "assignWorkflow" (record dev { workflow = workflow_uuid })

  unfoldable pub installed_apps : String → Action W (List Application)
  installed_apps device_uuid =
      wrapping "management: installed apps"
        (applications_db.get_applications_by_device_uuid device_uuid)

  unfoldable pub certificates : String → Action W (List Certificate)
  certificates device_uuid =
      wrapping "management: certificates"
        (certificates_db.get_certificates_by_device_uuid device_uuid)

  -- `NewService`
  abbrev pub new_service : Service W
  new_service = record {
    add_profile = add_profile;
    profiles = profiles;
    profile = profile;
    delete_profile = delete_profile;
    add_workflow = add_workflow;
    workflows = workflows;
    devices = devices;
    device = device;
    installed_apps = installed_apps;
    certificates = certificates;
    assign_workflow = assign_workflow;
    push = push;
    fetch_dep_devices = fetch_dep_devices;
  }
