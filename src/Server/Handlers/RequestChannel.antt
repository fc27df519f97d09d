-- ===== src/Server/Handlers/RequestChannel.antt =====
-- The two handlers `requestChannel`, for methods that take a stream of messages.
use proteus_java.Common.{List, [], ◌∷◌, if◌then◌else◌, for_each}
use proteus_java.Descriptor.{MethodDescriptor, Build}
use proteus_java.Emit.{Program, assign, print, print_text, indent, outdent, ◌>>◌}
use proteus_java.Ids.{lower_method_name, message_full_java_name, method_id_field_name}
use proteus_java.Server.Handlers.End.{handler_end}

unfoldable pub request_channel_start : Program
request_channel_start = do
  print
      "@$Override$\npublic $Flux$<$Payload$> requestChannel($Payload$ payload, $Flux$<$Payload$> publisher) {\n"
  indent

unfoldable pub request_channel_case : Build → MethodDescriptor → Program
request_channel_case build method = do
  assign "input_type" (message_full_java_name build method.input_type)
  assign "output_type" (message_full_java_name build method.output_type)
  assign "lower_method_name" (lower_method_name method)
  assign "method_id_name" (method_id_field_name method)
  print "case $service_name$.$method_id_name$: {\n"
  indent
  print "$Flux$<$input_type$> messages =\n"
  indent
  print "publisher.map(deserializer($input_type$.parser()));\n"
  outdent
  if method.server_streaming
      then print
          "return service.$lower_method_name$(messages, metadata).map(serializer).transform($lower_method_name$);\n"
      else print
          "return service.$lower_method_name$(messages, metadata).map(serializer).transform($lower_method_name$).$flux$();\n"
  outdent
  print_text "}\n"

unfoldable pub request_channel_switch : Program
request_channel_switch = do
  print "try {\n"
  indent
  print
      "$ByteBuf$ metadata = payload.sliceMetadata();\nswitch($ProteusMetadata$.methodId(metadata)) {\n"
  indent

unfoldable pub request_channel_default : Program
request_channel_default = do
  print "default: {\n"
  indent
  print "return $Flux$.error(new UnsupportedOperationException());\n"
  outdent
  print_text "}\n"
  outdent
  print_text "}\n"
  outdent
  print_text "} catch (Throwable t) {\n"
  indent
  print "return $Flux$.error(t);\n"
  outdent
  print_text "}\n"

unfoldable pub request_channel_dispatch : Build → List MethodDescriptor → Program
request_channel_dispatch build [] =
    print
      "return $Flux$.error(new UnsupportedOperationException(\"Request-Channel not implemented.\"));\n"
request_channel_dispatch build (method ∷ methods) = do
  request_channel_switch
  for_each (method ∷ methods) (request_channel_case build)
  request_channel_default

unfoldable pub request_channel_handler : Build → List MethodDescriptor → Program
request_channel_handler build request_channel = do
  request_channel_start
  request_channel_dispatch build request_channel
  handler_end

unfoldable pub channel_publisher_start : Program
channel_publisher_start = do
  print "@$Override$\npublic $Flux$<$Payload$> requestChannel($Publisher$<$Payload$> payloads) {\n"
  indent

unfoldable pub channel_publisher_body : List MethodDescriptor → Program
channel_publisher_body [] =
    print
      "return $Flux$.error(new UnsupportedOperationException(\"Request-Channel not implemented.\"));\n"
channel_publisher_body (method ∷ methods) = do
  print
      "return new $SwitchTransform$<$Payload$, $Payload$>(payloads, new $BiFunction$<$Payload$, $Flux$<$Payload$>, $Publisher$<? extends $Payload$>>() {\n"
  indent
  print
      "@$Override$\npublic $Publisher$<$Payload$> apply($Payload$ payload, $Flux$<$Payload$> publisher) {\n"
  indent
  print "return requestChannel(payload, publisher);\n"
  outdent
  print_text "}\n"
  outdent
  print_text "});\n"

-- `requestChannel(Publisher)`, which hands over to `requestChannel(Payload, Flux)`.
unfoldable pub channel_publisher_handler : List MethodDescriptor → Program
channel_publisher_handler request_channel = do
  channel_publisher_start
  channel_publisher_body request_channel
  handler_end
