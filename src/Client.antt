-- ===== src/Client.antt =====
-- `PrintClient` of `compiler/src/java_plugin/cpp/java_generator.cpp`: the Java class through which
-- a program calls a service. The methods that it prints are in the child modules.
pub mod Methods
pub mod Codec
pub mod Safe
pub mod Braces
use proteus_java.Common.{Bool, if◌then◌else◌, for_each}
use proteus_java.Descriptor.{ServiceDescriptor, MethodDescriptor, Build}
use proteus_java.Emit.{Program, assign, print, print_text, indent, outdent, ◌>>◌}
use proteus_java.Ids.{
  lower_method_name, message_full_java_name, service_id_field_name, namespace_id_field_name,
  client_class_name,
}
use proteus_java.Service.{has_fields, assign_version}
use Methods.{client_method}
use Codec.{client_serialize, client_deserializer}

unfoldable pub client_vars : Build → Bool → ServiceDescriptor → Program
client_vars build disable_version service = do
  assign "service_name" service.name
  assign "namespace_id_name" (namespace_id_field_name service)
  assign "service_id_name" (service_id_field_name service)
  assign "file_name" service.file.name
  assign "client_class_name" (client_class_name service)
  assign_version build disable_version

unfoldable pub client_start : Program
client_start = do
  print
      "@$Generated$(\n    value = \"by Proteus proto compiler$proteus_version$\",\n    comments = \"Source: $file_name$\")\npublic final class $client_class_name$ implements $service_name$ {\n"
  indent
  print "private final $RSocket$ rSocket;\n"

-- The field with the metrics of a method.
unfoldable pub client_field : Build → MethodDescriptor → Program
client_field build method = do
  assign "output_type" (message_full_java_name build method.output_type)
  assign "lower_method_name" (lower_method_name method)
  if method.server_streaming
      then print
          "private final $Function$<? super $Publisher$<$output_type$>, ? extends $Publisher$<$output_type$>> $lower_method_name$;\n"
      else if method.client_streaming
      then print
          "private final $Function$<? super $Publisher$<$output_type$>, ? extends $Publisher$<$output_type$>> $lower_method_name$;\n"
      else if has_fields method
      then print
          "private final $Function$<? super $Publisher$<$output_type$>, ? extends $Publisher$<$output_type$>> $lower_method_name$;\n"
      else print
          "private final $Function$<? super $Publisher$<Void>, ? extends $Publisher$<Void>> $lower_method_name$;\n"

unfoldable pub client_constructor_start : Program
client_constructor_start = do
  print "\npublic $client_class_name$($RSocket$ rSocket) {\n"
  indent
  print "this.rSocket = rSocket;\n"

unfoldable pub client_identity : MethodDescriptor → Program
client_identity method = do
  assign "lower_method_name" (lower_method_name method)
  print "this.$lower_method_name$ = $Function$.identity();\n"

unfoldable pub client_constructor_end : Program
client_constructor_end = do outdent; print_text "}\n\n"

unfoldable pub client_metrics_start : Program
client_metrics_start = do
  print "public $client_class_name$($RSocket$ rSocket, $MeterRegistry$ registry) {\n"
  indent
  print "this.rSocket = rSocket;\n"

unfoldable pub client_timed : MethodDescriptor → Program
client_timed method = do
  assign "lower_method_name" (lower_method_name method)
  print
      "this.$lower_method_name$ = $ProteusMetrics$.timed(registry, \"proteus.client\", \"namespace\", \"$Package$\", \"service\", \"$service_name$\", \"method\", \"$lower_method_name$\");\n"

unfoldable pub client_metrics_end : Program
client_metrics_end = do outdent; print_text "}\n\n"

unfoldable pub client_end : Program
client_end = do outdent; print_text "}\n"

unfoldable pub print_client : Build → Bool → ServiceDescriptor → Program
print_client build disable_version service = do
  client_vars build disable_version service
  client_start
  for_each service.methods (client_field build)
  client_constructor_start
  for_each service.methods client_identity
  client_constructor_end
  client_metrics_start
  for_each service.methods client_timed
  client_metrics_end
  for_each service.methods (client_method build)
  client_serialize
  client_deserializer
  client_end
