-- ===== src/Tests/System.antt =====
-- The path of the process on the concrete platform.
use svc_hostify.Base.{codes, ◌≡◌, refl, arith}
use svc_hostify.Effects.{of_process}
use svc_hostify.System.{max_path, get_module_path}
use svc_hostify.System.Paths.{FillsName, whole, shortened, get_module_path-FillsName}
use svc_hostify.Tests.Platform.{os, essence, process_file, name_rest}

process_FillsName : FillsName process_file max_path (os.module_file_name 7 max_path)
unfolding codes
process_FillsName = whole name_rest (omega arith) refl

get_module_path-FillsName_example :
    get_module_path os essence of_process ≡ shortened max_path process_file
get_module_path-FillsName_example =
    get_module_path-FillsName os essence of_process 7 process_file refl process_FillsName
