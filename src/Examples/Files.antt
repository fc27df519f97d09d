-- ===== src/Examples/Files.antt =====
-- The theorems on the plugin and on whole files at a small service.
use mathlib.Core.List.{Perm}
use proteus_java.Common.{
  ◌≡◌, ◌≢◌, refl, true, false, [], ◌∷◌, map, some, arith, codes, All, for_each,
}
use proteus_java.Emit.Values.{values}
use proteus_java.Ids.{method_id_field_name, method_id}
use proteus_java.Generate.{
  lite, normal, service_java_package, generate_interface, generate_client, generate_server,
}
use proteus_java.Generate.Package.{PackageOf, service_java_package-PackageOf}
use proteus_java.Emit.Braces.{braces}
use proteus_java.Generate.Braces.{generate_braces}
use proteus_java.Generate.Safe.{Completes, generate-Completes}
use proteus_java.Agree.{request_channel, request_text, metadata_text, case_text, constant_text}
use proteus_java.Agree.Calls.{handler_cases, client_calls, server_cases, declared_constants}
use proteus_java.Plugin.{java_package_to_dir, read_options, generate}
use proteus_java.Plugin.Dir.{
  package_of_dir, java_package_to_dir-dotless, package_of_dir-java_package_to_dir,
}
use proteus_java.Plugin.Options.{with_keys, given_option, read_options-given_option}
use proteus_java.Plugin.FileNames.{
  client_file, last_byte, IsBase, last_byte-IsBase, service_files-apart,
}
use proteus_java.Plugin.Files.{classes, described, file_of, generate_files}
use proteus_java.Examples.{hello_file, hello, hello_build, counter, two_options}

generate-Completes_example :
    Completes counter (generate_interface hello_build hello normal false)
    × Completes counter (generate_client hello_build hello normal false)
    × Completes counter (generate_server hello_build hello normal false)
generate-Completes_example = generate-Completes counter hello_build hello normal false

generate_braces_example :
    (braces (generate_interface hello_build hello normal false) 0 ≡ some 0)
    × (braces (generate_client hello_build hello normal false) 0 ≡ some 0)
    × (braces (generate_server hello_build hello normal false) 0 ≡ some 0)
generate_braces_example = generate_braces hello_build hello normal false

generate_files_example :
    ((generate
        (λ parameter. two_options)
        hello_build
        hello_file
        (hello ∷ [])
        (codes "lite,noversion")).0
      ≡ true)
    × (map described
          (generate
            (λ parameter. two_options)
            hello_build
            hello_file
            (hello ∷ [])
            (codes "lite,noversion")).1
        ≡ map
            (file_of (java_package_to_dir (service_java_package hello_build hello_file)))
            (for_each (hello ∷ []) classes))
    × All
        (λ f. Completes counter f.effects)
        (generate
          (λ parameter. two_options)
          hello_build
          hello_file
          (hello ∷ [])
          (codes "lite,noversion")).1
generate_files_example =
    generate_files counter (λ parameter. two_options) hello_build hello_file (hello ∷ [])
      (codes "lite,noversion")

client_calls_example :
    (values
        (request_text request_channel)
        "method_id_name"
        []
        (generate_client hello_build hello normal false)
      ≡ handler_cases request_channel (generate_server hello_build hello normal false))
    × (values
          (metadata_text request_channel)
          "method_id_name"
          []
          (generate_client hello_build hello normal false)
        ≡ handler_cases request_channel (generate_server hello_build hello normal false))
client_calls_example = client_calls hello_build hello normal false request_channel

server_cases_example :
    Perm
      (values case_text "method_id_name" [] (generate_server hello_build hello normal false))
      (values constant_text "method_id_name" [] (generate_interface hello_build hello normal false))
server_cases_example = server_cases hello_build hello normal false

declared_constants_example :
    (values constant_text "method_id_name" [] (generate_interface hello_build hello lite true)
      ≡ map method_id_field_name hello.methods)
    × (values constant_text "method_id" [] (generate_interface hello_build hello lite true)
        ≡ map method_id hello.methods)
declared_constants_example = declared_constants hello_build hello lite true

service_java_package-PackageOf_example :
    PackageOf (codes "com.example.HelloOuterClass") (service_java_package hello_build hello_file)
service_java_package-PackageOf_example = service_java_package-PackageOf hello_build hello_file

java_package_to_dir-dotless_example :
    All (λ c. c ≢ b'.') (java_package_to_dir (codes "com.example"))
java_package_to_dir-dotless_example = java_package_to_dir-dotless (codes "com.example")

package_of_dir-java_package_to_dir_example :
    package_of_dir (java_package_to_dir (codes "com.ex")) ≡ some (codes "com.ex")
package_of_dir-java_package_to_dir_example =
    package_of_dir-java_package_to_dir (codes "com.ex") (ground arith)

read_options-given_option_example :
    read_options two_options (record { flavor = normal; disable_version = false })
    ≡ with_keys
        (given_option (codes "lite") two_options)
        (given_option (codes "noversion") two_options)
        (record { flavor = normal; disable_version = false })
read_options-given_option_example =
    read_options-given_option two_options (record { flavor = normal; disable_version = false })

hello_name-IsBase : IsBase hello.name
unfolding last_byte
hello_name-IsBase = last_byte-IsBase hello.name (omega arith) (omega arith)

service_files-apart_example : (client_file ≡ client_file) × (hello.name ≡ hello.name)
service_files-apart_example =
    service_files-apart hello_build (record { flavor = normal; disable_version = false })
      (codes "com/example/") hello hello client_file client_file hello_name-IsBase hello_name-IsBase
      refl
