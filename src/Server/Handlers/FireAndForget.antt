-- ===== src/Server/Handlers/FireAndForget.antt =====
-- The handler `fireAndForget`, for methods with an empty answer.
use proteus_java.Common.{List, [], ◌∷◌, for_each}
use proteus_java.Descriptor.{MethodDescriptor, Build}
use proteus_java.Emit.{Program, assign, print, print_text, indent, outdent, ◌>>◌}
use proteus_java.Ids.{lower_method_name, message_full_java_name, method_id_field_name}
use proteus_java.Server.Handlers.End.{handler_end}

unfoldable pub fire_and_forget_start : Program
fire_and_forget_start = do
  print "@$Override$\npublic $Mono$<Void> fireAndForget($Payload$ payload) {\n"
  indent

unfoldable pub fire_and_forget_case : Build → MethodDescriptor → Program
fire_and_forget_case build method = do
  assign "input_type" (message_full_java_name build method.input_type)
  assign "lower_method_name" (lower_method_name method)
  assign "method_id_name" (method_id_field_name method)
  print "case $service_name$.$method_id_name$: {\n"
  indent
  print
      "$CodedInputStream$ is = $CodedInputStream$.newInstance(payload.getData());\nreturn service.$lower_method_name$($input_type$.parseFrom(is), metadata);\n"
  outdent
  print_text "}\n"

unfoldable pub fire_and_forget_switch : Program
fire_and_forget_switch = do
  print "try {\n"
  indent
  print
      "$ByteBuf$ metadata = payload.sliceMetadata();\nswitch($ProteusMetadata$.methodId(metadata)) {\n"
  indent

unfoldable pub fire_and_forget_default : Program
fire_and_forget_default = do
  print "default: {\n"
  indent
  print "return $Mono$.error(new UnsupportedOperationException());\n"
  outdent
  print_text "}\n"
  outdent
  print_text "}\n"
  outdent
  print_text "} catch (Throwable t) {\n"
  indent
  print "return $Mono$.error(t);\n"
  outdent
  print_text "} finally {\n"
  indent
  print_text "payload.release();\n"
  outdent
  print_text "}\n"

unfoldable pub fire_and_forget_dispatch : Build → List MethodDescriptor → Program
fire_and_forget_dispatch build [] =
    print
      "return $Mono$.error(new UnsupportedOperationException(\"Fire and forget not implemented.\"));\n"
fire_and_forget_dispatch build (method ∷ methods) = do
  fire_and_forget_switch
  for_each (method ∷ methods) (fire_and_forget_case build)
  fire_and_forget_default

unfoldable pub fire_and_forget_handler : Build → List MethodDescriptor → Program
fire_and_forget_handler build fire_and_forget = do
  fire_and_forget_start
  fire_and_forget_dispatch build fire_and_forget
  handler_end
