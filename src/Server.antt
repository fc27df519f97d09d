-- ===== src/Server.antt =====
-- `PrintServer` of `compiler/src/java_plugin/cpp/java_generator.cpp`: the Java class that hands the
-- requests for a service to its implementation. Its handlers are in the child modules.
pub mod Groups
pub mod Handlers
pub mod Codec
pub mod Safe
pub mod Braces
use proteus_java.Common.{Bool, if◌then◌else◌, for_each}
use proteus_java.Descriptor.{ServiceDescriptor, MethodDescriptor, Build}
use proteus_java.Emit.{Program, assign, print, print_text, indent, outdent, ◌>>◌}
use proteus_java.Ids.{
  lower_method_name, service_id_field_name, namespace_id_field_name, server_class_name,
}
use proteus_java.Service.{has_fields, assign_version}
use Groups.{group}
use Handlers.FireAndForget.{fire_and_forget_handler}
use Handlers.RequestResponse.{request_response_handler}
use Handlers.RequestStream.{request_stream_handler}
use Handlers.RequestChannel.{request_channel_handler, channel_publisher_handler}
use Codec.{server_serializer, server_deserializer}

unfoldable pub server_vars : Build → Bool → ServiceDescriptor → Program
server_vars build disable_version service = do
  assign "service_name" service.name
  assign "namespace_id_name" (namespace_id_field_name service)
  assign "service_id_name" (service_id_field_name service)
  assign "file_name" service.file.name
  assign "server_class_name" (server_class_name service)
  assign_version build disable_version

unfoldable pub server_start : Program
server_start = do
  print
      "@$Generated$(\n    value = \"by Proteus proto compiler$proteus_version$\",\n    comments = \"Source: $file_name$\")\npublic final class $server_class_name$ extends $AbstractProteusService$ {\n"
  indent
  print "private final $service_name$ service;\n"

-- The field with the metrics of a method.
unfoldable pub server_field : MethodDescriptor → Program
server_field method = do
  assign "lower_method_name" (lower_method_name method)
  if method.server_streaming
      then print
          "private final $Function$<? super $Publisher$<$Payload$>, ? extends $Publisher$<$Payload$>> $lower_method_name$;\n"
      else if method.client_streaming
      then print
          "private final $Function$<? super $Publisher$<$Payload$>, ? extends $Publisher$<$Payload$>> $lower_method_name$;\n"
      else if has_fields method
      then print
          "private final $Function$<? super $Publisher$<$Payload$>, ? extends $Publisher$<$Payload$>> $lower_method_name$;\n"
      else print
          "private final $Function$<? super $Publisher$<Void>, ? extends $Publisher$<Void>> $lower_method_name$;\n"

unfoldable pub server_constructor_start : Program
server_constructor_start = do
  print "\npublic $server_class_name$($service_name$ service) {\n"
  indent
  print "this.service = service;\n"

unfoldable pub server_identity : MethodDescriptor → Program
server_identity method = do
  assign "lower_method_name" (lower_method_name method)
  print "this.$lower_method_name$ = $Function$.identity();\n"

unfoldable pub server_constructor_end : Program
server_constructor_end = do outdent; print_text "}\n\n"

unfoldable pub server_metrics_start : Program
server_metrics_start = do
  print "public $server_class_name$($service_name$ service, $MeterRegistry$ registry) {\n"
  indent
  print "this.service = service;\n"

unfoldable pub server_timed : MethodDescriptor → Program
server_timed method = do
  assign "lower_method_name" (lower_method_name method)
  print
      "this.$lower_method_name$ = $ProteusMetrics$.timed(registry, \"proteus.server\", \"namespace\", \"$Package$\", \"service\", \"$service_name$\", \"method\", \"$lower_method_name$\");\n"

unfoldable pub server_metrics_end : Program
server_metrics_end = do outdent; print_text "}\n\n"

-- `getNamespaceId` and `getServiceId`.
unfoldable pub server_ids : Program
server_ids = do
  print "@$Override$\npublic int getNamespaceId() {\n"
  indent
  print "return $service_name$.$namespace_id_name$;\n"
  outdent
  print_text "}\n\n"
  print "@$Override$\npublic int getServiceId() {\n"
  indent
  print "return $service_name$.$service_id_name$;\n"
  outdent
  print_text "}\n\n"

unfoldable pub server_end : Program
server_end = do outdent; print_text "}\n"

unfoldable pub print_server : Build → Bool → ServiceDescriptor → Program
print_server build disable_version service = do
  server_vars build disable_version service
  server_start
  for_each service.methods server_field
  server_constructor_start
  for_each service.methods server_identity
  server_constructor_end
  server_metrics_start
  for_each service.methods server_timed
  server_metrics_end
  server_ids
  let groups = group service.methods
  fire_and_forget_handler build groups.fire_and_forget
  request_response_handler build groups.request_response
  request_stream_handler build groups.request_stream
  request_channel_handler build groups.request_channel
  channel_publisher_handler groups.request_channel
  server_serializer
  server_deserializer
  server_end
