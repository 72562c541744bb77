-- ===== src/Tests/Manager.antt =====
-- Installing, loading and removing a service.
use svc_hostify.Base.{codes, eq_text, take_while, ◌≡◌, refl, arith}
use svc_hostify.Effects.{start, ok}
use svc_hostify.Config.{to_msgpack_base64, error_checker}
use svc_hostify.Manager.{
  new_manager, install, uninstall, installed, with_scm, ensure_scm, require, create_request,
  install_created, set_description,
}
use svc_hostify.Registry.{
  set_registry_string, set_registry, decompose_registry_path, decompose_entry, find_first_of,
  store_value, check_registry_error,
}
use svc_hostify.Registry.Wide.{wide_bytes}
use svc_hostify.Manager.Keeps.{Balanced}
use svc_hostify.Manager.Handles.{handles_closed}
use svc_hostify.Manager.Store.{IsPlainName}
use svc_hostify.Worker.{make_configured, make_service_worker_from_registry}
use svc_hostify.Worker.Load.{Transcribes, configuration_read, install-load}
use svc_hostify.Tests.Platform.{essence, sample, codec}
use svc_hostify.Tests.Registry.{trims, hive, hive-ReadsTexts}

sample-IsPlainName : IsPlainName sample.name
unfolding codes
sample-IsPlainName = (omega arith, omega arith)

sample-Transcribes : Transcribes essence codec sample
unfolding codes to_msgpack_base64
sample-Transcribes = record {
  plain = sample-IsPlainName;
  name_back = refl;
  text_back = refl;
  text_plain = omega arith;
  reads_back = record { msgpack = refl; base64 = refl };
}

sample_installed : (install hive essence codec (new_manager hive essence sample) start).0 ≡ ok tt
unfolding install with_scm ensure_scm require error_checker create_request install_created
    set_description new_manager set_registry_string set_registry decompose_registry_path
    decompose_entry find_first_of store_value check_registry_error codes eq_text take_while
    to_msgpack_base64 wide_bytes
sample_installed = refl

handles_closed_example :
    let m = new_manager hive essence sample in
    Balanced hive 7 start (install hive essence codec m start).1 0
    × Balanced hive 7 start (uninstall hive essence m start).1 0
    × Balanced hive 7 start (installed hive essence m start).1 0
handles_closed_example = handles_closed hive 7 essence codec (new_manager hive essence sample) start

install-load_example :
    make_service_worker_from_registry hive essence codec
      (codes "Svc")
      (install hive essence codec (new_manager hive essence sample) start).1
    ≡ make_configured hive essence codec sample (
        configuration_read hive essence trims codec hive-ReadsTexts sample
          (install hive essence codec (new_manager hive essence sample) start).1)
install-load_example =
    install-load hive essence trims codec hive-ReadsTexts sample start sample-Transcribes
      sample_installed
