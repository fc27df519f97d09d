-- ===== src/Interface.antt =====
-- `PrintInterface` of `compiler/src/java_plugin/cpp/java_generator.cpp`: the Java interface of a
-- service, with the numbers of the service and of its methods as constants.
pub mod Safe
pub mod Braces
use proteus_java.Common.{Bool, if◌then◌else◌, for_each}
use proteus_java.Descriptor.{ServiceDescriptor, MethodDescriptor, Build}
use proteus_java.Emit.{Program, assign, print, print_text, indent, outdent, ◌>>◌}
use proteus_java.Ids.{
  lower_method_name, method_id_field_name, method_id, message_full_java_name, service_id_field_name,
  service_id, namespace_id_field_name, namespace_id,
}
use proteus_java.Service.{has_fields, assign_version}
use proteus_java.Javadoc.{write_service_doc_comment, write_method_doc_comment}

unfoldable pub interface_vars : Build → Bool → ServiceDescriptor → Program
interface_vars build disable_version service = do
  assign "service_name" service.name
  assign "namespace_id_name" (namespace_id_field_name service)
  assign "namespace_id" (namespace_id service)
  assign "service_id_name" (service_id_field_name service)
  assign "service_id" (service_id service)
  assign "file_name" service.file.name
  assign_version build disable_version

unfoldable pub interface_start : Program
interface_start = do
  print
      "@$Generated$(\n    value = \"by Proteus proto compiler$proteus_version$\",\n    comments = \"Source: $file_name$\")\npublic interface $service_name$ {\n"
  indent
  print "int $namespace_id_name$ = $namespace_id$;\n"
  print "int $service_id_name$ = $service_id$;\n"

unfoldable pub interface_constant : MethodDescriptor → Program
interface_constant method = do
  assign "method_id_name" (method_id_field_name method)
  assign "method_id" (method_id method)
  print "int $method_id_name$ = $method_id$;\n"

-- What a method returns.
unfoldable pub interface_result : MethodDescriptor → Program
interface_result method =
    if method.server_streaming
    then print "$Flux$<$output_type$> $lower_method_name$"
    else if method.client_streaming
    then print "$Mono$<$output_type$> $lower_method_name$"
    else if has_fields method
    then print "$Mono$<$output_type$> $lower_method_name$"
    else print "$Mono$<Void> $lower_method_name$"

unfoldable pub interface_arguments : MethodDescriptor → Program
interface_arguments method =
    if method.client_streaming
    then print "($Publisher$<$input_type$> messages, $ByteBuf$ metadata);\n"
    else print "($input_type$ message, $ByteBuf$ metadata);\n"

unfoldable pub interface_method : Build → MethodDescriptor → Program
interface_method build method = do
  assign "input_type" (message_full_java_name build method.input_type)
  assign "output_type" (message_full_java_name build method.output_type)
  assign "lower_method_name" (lower_method_name method)
  print_text "\n"
  write_method_doc_comment method
  interface_result method
  interface_arguments method

unfoldable pub interface_end : Program
interface_end = do outdent; print_text "}\n"

unfoldable pub print_interface : Build → Bool → ServiceDescriptor → Program
print_interface build disable_version service = do
  interface_vars build disable_version service
  write_service_doc_comment service
  interface_start
  for_each service.methods interface_constant
  for_each service.methods (interface_method build)
  interface_end
