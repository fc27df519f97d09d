-- ===== src/Generate.antt =====
-- `GenerateInterface`, `GenerateClient`, `GenerateServer` and `ServiceJavaPackage` of
-- `compiler/src/java_plugin/cpp/java_generator.cpp`: the three Java files of a service.
pub mod Package
pub mod Safe
pub mod Braces
use proteus_java.Common.{
  ℕ, suc, Bool, [], ◌∷◌, Option, none, some, ◌==◌, if◌then◌else◌, Bytes, codes,
}
use proteus_java.Common.Lists.{take}
use proteus_java.Descriptor.{FileDescriptor, ServiceDescriptor, Build}
use proteus_java.Emit.{Program, skip, assign, print_with, ◌>>◌}
use proteus_java.Interface.{print_interface}
use proteus_java.Client.{print_client}
use proteus_java.Server.{print_server}

-- The flavor is handed down, and no text depends on it.
pub data ProtoFlavor : Type 0 where
  normal lite : ProtoFlavor

-- `s.find_last_of(c)`
pub find_last_of : ℕ → Bytes → Option ℕ
find_last_of c [] = none
find_last_of c (x ∷ s) = elim (find_last_of c s) [
  | some i ↦ some (suc i)
  | none ↦ if x == c then some 0 else none
]

unfoldable pub service_java_package : Build → FileDescriptor → Bytes
unfolding find_last_of
service_java_package build file = elim (find_last_of b'.' (build.file_class_name file)) [
  | some last_dot_pos ↦ take last_dot_pos (build.file_class_name file)
  | none ↦ []
]

unfoldable pub print_package : Bytes → Program
print_package [] = skip
print_package (c ∷ package_name) =
    print_with "package $package_name$;\n\n" "package_name" (c ∷ package_name)

unfoldable pub interface_imports : Program
interface_imports = do
  assign "Flux" (codes "reactor.core.publisher.Flux")
  assign "Mono" (codes "reactor.core.publisher.Mono")
  assign "Publisher" (codes "org.reactivestreams.Publisher")
  assign "Generated" (codes "javax.annotation.Generated")
  assign "ByteBuf" (codes "io.netty.buffer.ByteBuf")

unfoldable pub generate_interface : Build → ServiceDescriptor → ProtoFlavor → Bool → Program
generate_interface build service flavor disable_version = do
  interface_imports
  print_package (service_java_package build service.file)
  assign "Package" service.file.package_name
  print_interface build disable_version service

unfoldable pub client_imports : Program
client_imports = do
  assign "Flux" (codes "reactor.core.publisher.Flux")
  assign "Mono" (codes "reactor.core.publisher.Mono")
  assign "from" (codes "from")
  assign "Function" (codes "java.util.function.Function")
  assign "Supplier" (codes "java.util.function.Supplier")
  assign "Override" (codes "java.lang.Override")
  assign "Publisher" (codes "org.reactivestreams.Publisher")
  assign "Generated" (codes "javax.annotation.Generated")
  assign "RSocket" (codes "io.rsocket.RSocket")
  assign "Payload" (codes "io.rsocket.Payload")
  assign "ByteBufPayload" (codes "io.rsocket.util.ByteBufPayload")
  assign "ByteBuf" (codes "io.netty.buffer.ByteBuf")
  assign "ByteBufAllocator" (codes "io.netty.buffer.ByteBufAllocator")
  assign "Unpooled" (codes "io.netty.buffer.Unpooled")
  assign "ByteBuffer" (codes "java.nio.ByteBuffer")
  assign "CodedInputStream" (codes "com.google.protobuf.CodedInputStream")
  assign "CodedOutputStream" (codes "com.google.protobuf.CodedOutputStream")
  assign "ProteusMetadata" (codes "io.netifi.proteus.frames.ProteusMetadata")
  assign "ProteusMetrics" (codes "io.netifi.proteus.metrics.ProteusMetrics")
  assign "MeterRegistry" (codes "io.micrometer.core.instrument.MeterRegistry")
  assign "MessageLite" (codes "com.google.protobuf.MessageLite")
  assign "Parser" (codes "com.google.protobuf.Parser")

unfoldable pub generate_client : Build → ServiceDescriptor → ProtoFlavor → Bool → Program
generate_client build service flavor disable_version = do
  client_imports
  print_package (service_java_package build service.file)
  assign "Package" service.file.package_name
  print_client build disable_version service

unfoldable pub server_imports : Program
server_imports = do
  assign "Flux" (codes "reactor.core.publisher.Flux")
  assign "Mono" (codes "reactor.core.publisher.Mono")
  assign "from" (codes "from")
  assign "flux" (codes "flux")
  assign "flatMap" (codes "flatMapMany")
  assign "Function" (codes "java.util.function.Function")
  assign "Supplier" (codes "java.util.function.Supplier")
  assign "BiFunction" (codes "java.util.function.BiFunction")
  assign "Override" (codes "java.lang.Override")
  assign "Publisher" (codes "org.reactivestreams.Publisher")
  assign "Generated" (codes "javax.annotation.Generated")
  assign "RSocket" (codes "io.rsocket.RSocket")
  assign "Payload" (codes "io.rsocket.Payload")
  assign "ByteBufPayload" (codes "io.rsocket.util.ByteBufPayload")
  assign "SwitchTransform" (codes "io.rsocket.internal.SwitchTransform")
  assign "AbstractProteusService" (codes "io.netifi.proteus.AbstractProteusService")
  assign "ProteusMetadata" (codes "io.netifi.proteus.frames.ProteusMetadata")
  assign "ProteusMetrics" (codes "io.netifi.proteus.metrics.ProteusMetrics")
  assign "MeterRegistry" (codes "io.micrometer.core.instrument.MeterRegistry")
  assign "ByteBuf" (codes "io.netty.buffer.ByteBuf")
  assign "ByteBuffer" (codes "java.nio.ByteBuffer")
  assign "ByteBufAllocator" (codes "io.netty.buffer.ByteBufAllocator")
  assign "CodedInputStream" (codes "com.google.protobuf.CodedInputStream")
  assign "CodedOutputStream" (codes "com.google.protobuf.CodedOutputStream")
  assign "MessageLite" (codes "com.google.protobuf.MessageLite")
  assign "Parser" (codes "com.google.protobuf.Parser")

unfoldable pub generate_server : Build → ServiceDescriptor → ProtoFlavor → Bool → Program
generate_server build service flavor disable_version = do
  server_imports
  print_package (service_java_package build service.file)
  assign "Package" service.file.package_name
  print_server build disable_version service
