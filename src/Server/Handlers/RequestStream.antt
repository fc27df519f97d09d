-- ===== src/Server/Handlers/RequestStream.antt =====
-- The handler `requestStream`, for methods with one message and a stream of answers.
use proteus_java.Common.{List, [], ◌∷◌, for_each}
use proteus_java.Descriptor.{MethodDescriptor, Build}
use proteus_java.Emit.{Program, assign, print, print_text, indent, outdent, ◌>>◌}
use proteus_java.Ids.{lower_method_name, message_full_java_name, method_id_field_name}
use proteus_java.Server.Handlers.End.{handler_end}

unfoldable pub request_stream_start : Program
request_stream_start = do
  print "@$Override$\npublic $Flux$<$Payload$> requestStream($Payload$ payload) {\n"
  indent

unfoldable pub request_stream_case : Build → MethodDescriptor → Program
request_stream_case build method = do
  assign "input_type" (message_full_java_name build method.input_type)
  assign "output_type" (message_full_java_name build method.output_type)
  assign "lower_method_name" (lower_method_name method)
  assign "method_id_name" (method_id_field_name method)
  print "case $service_name$.$method_id_name$: {\n"
  indent
  print
      "$CodedInputStream$ is = $CodedInputStream$.newInstance(payload.getData());\nreturn service.$lower_method_name$($input_type$.parseFrom(is), metadata).map(serializer).transform($lower_method_name$);\n"
  outdent
  print_text "}\n"

unfoldable pub request_stream_switch : Program
request_stream_switch = do
  print "try {\n"
  indent
  print
      "$ByteBuf$ metadata = payload.sliceMetadata();\nswitch($ProteusMetadata$.methodId(metadata)) {\n"
  indent

unfoldable pub request_stream_default : Program
request_stream_default = do
  print "default: {\n"
  indent
  print "return $Flux$.error(new UnsupportedOperationException());\n"
  outdent
  print_text "}\n"
  outdent
  print_text "}\n"
  outdent
  print_text "} catch (Throwable t) {\n"
  indent
  print "return $Flux$.error(t);\n"
  outdent
  print_text "} finally {\n"
  indent
  print_text "payload.release();\n"
  outdent
  print_text "}\n"

unfoldable pub request_stream_dispatch : Build → List MethodDescriptor → Program
request_stream_dispatch build [] =
    print
      "return $Flux$.error(new UnsupportedOperationException(\"Request-Stream not implemented.\"));\n"
request_stream_dispatch build (method ∷ methods) = do
  request_stream_switch
  for_each (method ∷ methods) (request_stream_case build)
  request_stream_default

unfoldable pub request_stream_handler : Build → List MethodDescriptor → Program
request_stream_handler build request_stream = do
  request_stream_start
  request_stream_dispatch build request_stream
  handler_end
