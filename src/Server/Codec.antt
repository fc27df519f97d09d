-- ===== src/Server/Codec.antt =====
-- The `serializer` and the `deserializer` that `PrintServer` prints at the end of the class.
use proteus_java.Emit.{Program, print, print_text, indent, outdent, ◌>>◌}

unfoldable pub server_serializer : Program
server_serializer = do
  print "private static final $Function$<$MessageLite$, $Payload$> serializer =\n"
  indent
  print "new $Function$<$MessageLite$, $Payload$>() {\n"
  indent
  print "@$Override$\npublic $Payload$ apply($MessageLite$ message) {\n"
  indent
  print
      "$ByteBuf$ byteBuf = $ByteBufAllocator$.DEFAULT.directBuffer(message.getSerializedSize());\n"
  print_text "try {\n"
  indent
  print
      "message.writeTo($CodedOutputStream$.newInstance(byteBuf.nioBuffer(0, byteBuf.writableBytes())));\nbyteBuf.writerIndex(byteBuf.capacity());\nreturn $ByteBufPayload$.create(byteBuf);\n"
  outdent
  print_text "} catch (Throwable t) {\n"
  indent
  print_text "byteBuf.release();\nthrow new RuntimeException(t);\n"
  outdent
  print_text "}\n"
  outdent
  print_text "}\n"
  outdent
  print_text "};\n\n"
  outdent

unfoldable pub server_deserializer : Program
server_deserializer = do
  print "private static <T> $Function$<$Payload$, T> deserializer(final $Parser$<T> parser) {\n"
  indent
  print "return new $Function$<$Payload$, T>() {\n"
  indent
  print "@$Override$\npublic T apply($Payload$ payload) {\n"
  indent
  print "try {\n"
  indent
  print
      "$CodedInputStream$ is = $CodedInputStream$.newInstance(payload.getData());\nreturn parser.parseFrom(is);\n"
  outdent
  print_text "} catch (Throwable t) {\n"
  indent
  print "throw new RuntimeException(t);\n"
  outdent
  print_text "} finally {\n"
  indent
  print_text "payload.release();\n"
  outdent
  print_text "}\n"
  outdent
  print_text "}\n"
  outdent
  print_text "};\n"
  outdent
  print_text "}\n"
