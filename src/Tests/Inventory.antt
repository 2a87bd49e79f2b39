-- ===== src/Tests/Inventory.antt =====
-- The inventory that the device of the fixture reports.
use micromdm.Base.{string_dec, [], ◌∷◌, refl}
use micromdm.Mdm.{Response}
use micromdm.Services.Backend.{all_refer, exists_same}
use micromdm.Connect.Service.{ack_installed_application_list}
use micromdm.Main.Server.{command_svc, device_db, apps_db, certs_db}
use micromdm.Main.Inventory.{Lists, report_replaces_applications}
use micromdm.Tests.Data.{
  world, library, build, environment, model-IsEnvironment, server, request, device_row,
}

abbrev two_applications : Response
two_applications = record (request "Acknowledged" "list-1") {
  installed_applications =
      record {
        name = "Mail";
        identifier = "com.example.mail";
        short_version = "1";
        version = "1.0";
        bundle_size = 10;
        dynamic_size = 20;
      }
      ∷ record {
        name = "Maps";
        identifier = "";
        short_version = "";
        version = "";
        bundle_size = 0;
        dynamic_size = 0;
      }
      ∷ [];
}

report_replaces_applications_example :
    let (r, w) =
      ack_installed_application_list
        (device_db library environment)
        (apps_db library environment)
        (certs_db library environment)
        (command_svc library environment)
        library.marshal
        environment.now
        two_applications
        server in
    Lists "id-1" two_applications.installed_applications [] server r w
unfolding string_dec all_refer exists_same
report_replaces_applications_example =
    report_replaces_applications world environment library build [] model-IsEnvironment
      two_applications "id-1" device_row server refl refl refl refl refl
