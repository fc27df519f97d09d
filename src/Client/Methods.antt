-- ===== src/Client/Methods.antt =====
-- The two Java methods that `PrintClient` prints for each method of a service: one with empty
-- metadata, and the one that it calls, which sends the request.
use proteus_java.Common.{if◌then◌else◌}
use proteus_java.Descriptor.{MethodDescriptor, Build}
use proteus_java.Emit.{Program, assign, print, print_text, indent, outdent, ◌>>◌}
use proteus_java.Ids.{lower_method_name, message_full_java_name, method_id_field_name}
use proteus_java.Service.{has_fields}

unfoldable pub short_result : MethodDescriptor → Program
short_result method =
    if method.server_streaming
    then print "public $Flux$<$output_type$> $lower_method_name$"
    else if method.client_streaming
    then print "public $Mono$<$output_type$> $lower_method_name$"
    else if has_fields method
    then print "public $Mono$<$output_type$> $lower_method_name$"
    else print "public $Mono$<Void> $lower_method_name$"

unfoldable pub short_body_streaming : Program
short_body_streaming = do
  print "($Publisher$<$input_type$> messages) {\n"
  indent
  print "return $lower_method_name$(messages, $Unpooled$.EMPTY_BUFFER);\n"
  outdent
  print_text "}\n\n"

unfoldable pub short_body_single : Program
short_body_single = do
  print "($input_type$ message) {\n"
  indent
  print "return $lower_method_name$(message, $Unpooled$.EMPTY_BUFFER);\n"
  outdent
  print_text "}\n\n"

unfoldable pub short_method : MethodDescriptor → Program
unfolding short_result short_body_streaming short_body_single
short_method method = do
  short_result method
  if method.client_streaming then short_body_streaming else short_body_single

unfoldable pub long_result : MethodDescriptor → Program
long_result method =
    if method.server_streaming
    then print "@$Override$\npublic $Flux$<$output_type$> $lower_method_name$"
    else if method.client_streaming
    then print "@$Override$\npublic $Mono$<$output_type$> $lower_method_name$"
    else if has_fields method
    then print "@$Override$\npublic $Mono$<$output_type$> $lower_method_name$"
    else print "@$Override$\npublic $Mono$<Void> $lower_method_name$"

-- The body for client streaming and bidirectional streaming.
unfoldable pub channel_start : Program
channel_start = do
  print "($Publisher$<$input_type$> messages, $ByteBuf$ metadata) {\n"
  indent
  print "return rSocket.requestChannel($Flux$.$from$(messages).map(\n"
  indent
  print "new $Function$<$MessageLite$, $Payload$>() {\n"
  indent
  print "boolean once;\n\n@$Override$\npublic $Payload$ apply($MessageLite$ message) {\n"
  indent
  print "$ByteBuf$ data = serialize(message);\nif (!once) {\n"
  indent
  print
      "final int length = $ProteusMetadata$.computeLength();\nfinal $ByteBuf$ metadataBuf = $ByteBufAllocator$.DEFAULT.directBuffer(length);\n$ProteusMetadata$.encode(metadataBuf, $service_name$.$namespace_id_name$, $service_name$.$service_id_name$, $service_name$.$method_id_name$, metadata);\nreturn $ByteBufPayload$.create(data, metadataBuf);\n"
  outdent
  print_text "} else {\n"
  indent
  print "return $ByteBufPayload$.create(data);\n"
  outdent
  print_text "}\n"
  outdent
  print_text "}\n"
  outdent

unfoldable pub channel_end : MethodDescriptor → Program
channel_end method = do
  if method.server_streaming
      then print "})).map(deserializer($output_type$.parser())).transform($lower_method_name$);\n"
      else print
          "})).map(deserializer($output_type$.parser())).single().transform($lower_method_name$);\n"
  outdent
  outdent
  print_text "}\n\n"

unfoldable pub single_start : Program
single_start = do print "($input_type$ message, $ByteBuf$ metadata) {\n"; indent

unfoldable pub request_stream_body : Program
request_stream_body = do
  print "return $Flux$.defer(new $Supplier$<$Flux$<$Payload$>>() {\n"
  indent
  print "@$Override$\npublic $Flux$<$Payload$> get() {\n"
  indent
  print
      "final int length = $ProteusMetadata$.computeLength();\n$ByteBuf$ metadataBuf = $ByteBufAllocator$.DEFAULT.directBuffer(length);\n$ProteusMetadata$.encode(metadataBuf, $service_name$.$namespace_id_name$, $service_name$.$service_id_name$, $service_name$.$method_id_name$, metadata);\n$ByteBuf$ data = serialize(message);\nreturn rSocket.requestStream($ByteBufPayload$.create(data, metadataBuf));\n"
  outdent
  print_text "}\n"
  outdent
  print "}).map(deserializer($output_type$.parser())).transform($lower_method_name$);\n"

unfoldable pub request_response_body : Program
request_response_body = do
  print "return $Mono$.defer(new $Supplier$<$Mono$<$Payload$>>() {\n"
  indent
  print "@$Override$\npublic $Mono$<$Payload$> get() {\n"
  indent
  print
      "final int length = $ProteusMetadata$.computeLength();\n$ByteBuf$ metadataBuf = $ByteBufAllocator$.DEFAULT.directBuffer(length);\n$ProteusMetadata$.encode(metadataBuf, $service_name$.$namespace_id_name$, $service_name$.$service_id_name$, $service_name$.$method_id_name$, metadata);\n$ByteBuf$ data = serialize(message);\nreturn rSocket.requestResponse($ByteBufPayload$.create(data, metadataBuf));\n"
  outdent
  print_text "}\n"
  outdent
  print "}).map(deserializer($output_type$.parser())).transform($lower_method_name$);\n"

unfoldable pub fire_and_forget_body : Program
fire_and_forget_body = do
  print "return $Mono$.defer(new $Supplier$<$Mono$<Void>>() {\n"
  indent
  print "@$Override$\npublic $Mono$<Void> get() {\n"
  indent
  print
      "final int length = $ProteusMetadata$.computeLength();\n$ByteBuf$ metadataBuf = $ByteBufAllocator$.DEFAULT.directBuffer(length);\n$ProteusMetadata$.encode(metadataBuf, $service_name$.$namespace_id_name$, $service_name$.$service_id_name$, $service_name$.$method_id_name$, metadata);\n$ByteBuf$ data = serialize(message);\nreturn rSocket.fireAndForget($ByteBufPayload$.create(data, metadataBuf));\n"
  outdent
  print_text "}\n"
  outdent
  print "}).transform($lower_method_name$);\n"

-- The body for server streaming and for a simple call.
unfoldable pub single_request : MethodDescriptor → Program
single_request method =
    if method.server_streaming
    then request_stream_body
    else if has_fields method
    then request_response_body
    else fire_and_forget_body

unfoldable pub single_end : Program
single_end = do outdent; print_text "}\n\n"

unfoldable pub channel_method : MethodDescriptor → Program
channel_method method = do channel_start; channel_end method

unfoldable pub single_method : MethodDescriptor → Program
single_method method = do single_start; single_request method; single_end

unfoldable pub long_method : MethodDescriptor → Program
long_method method = do
  long_result method
  if method.client_streaming then channel_method method else single_method method

unfoldable pub client_method : Build → MethodDescriptor → Program
client_method build method = do
  assign "input_type" (message_full_java_name build method.input_type)
  assign "output_type" (message_full_java_name build method.output_type)
  assign "lower_method_name" (lower_method_name method)
  assign "method_id_name" (method_id_field_name method)
  short_method method
  long_method method
