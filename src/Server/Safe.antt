-- ===== src/Server/Safe.antt =====
-- The variables and the indentation of `PrintServer`, part by part.
use proteus_java.Common.{Bool, refl, arith}
use proteus_java.Descriptor.{ServiceDescriptor, MethodDescriptor, Build}
use proteus_java.Emit.Printer.{depth_after}
use proteus_java.Emit.Template.{covered}
use proteus_java.Emit.Safe.{
  IsSafe, IsSafe-run, IsSafe-for_each, Moves, Moves-run, ◌⨾◌, ◌⊳◌, within, Provides, provided,
}
use proteus_java.Service.Safe.{assign_version-Provides}
use proteus_java.Server.{
  server_vars, server_start, server_field, server_constructor_start, server_identity,
  server_constructor_end, server_metrics_start, server_timed, server_metrics_end, server_ids,
  server_end, print_server,
}
use proteus_java.Server.Groups.{group}
use proteus_java.Server.Codec.{server_serializer, server_deserializer}
use proteus_java.Server.Handlers.Safe.{
  given, own, fire_and_forget_handler-Moves, request_response_handler-Moves,
  request_stream_handler-Moves, request_channel_handler-Moves, channel_publisher_handler-Moves,
}

server_vars-Provides :
    (build : Build) (off : Bool) (service : ServiceDescriptor)
    → Provides given (server_vars build off service) own
unfolding server_vars
server_vars-Provides build off service =
    provided (provided (provided (provided (provided (assign_version-Provides _ build off)))))

server_start-Moves : Moves own 0 server_start 1
unfolding server_start depth_after covered
server_start-Moves = Moves-run own 0 1 server_start (λ d. refl)

server_field-IsSafe : (method : MethodDescriptor) → IsSafe own (server_field method)
unfolding server_field depth_after covered
server_field-IsSafe method = IsSafe-run own (server_field method) (λ d. ground arith)

server_identity-IsSafe : (method : MethodDescriptor) → IsSafe own (server_identity method)
unfolding server_identity depth_after covered
server_identity-IsSafe method = IsSafe-run own (server_identity method) (λ d. refl)

server_timed-IsSafe : (method : MethodDescriptor) → IsSafe own (server_timed method)
unfolding server_timed depth_after covered
server_timed-IsSafe method = IsSafe-run own (server_timed method) (λ d. refl)

constructors_start-Moves :
    Moves own 1 server_constructor_start 2 × Moves own 1 server_metrics_start 2
unfolding server_constructor_start server_metrics_start depth_after covered
constructors_start-Moves = (
  Moves-run own 1 2 server_constructor_start (λ d. refl),
  Moves-run own 1 2 server_metrics_start (λ d. refl),
)

constructors_end-Moves : Moves own 2 server_constructor_end 1 × Moves own 2 server_metrics_end 1
unfolding server_constructor_end server_metrics_end depth_after covered
constructors_end-Moves = (
  Moves-run own 2 1 server_constructor_end (λ d. refl),
  Moves-run own 2 1 server_metrics_end (λ d. refl),
)

codec-IsSafe : IsSafe own server_ids × IsSafe own server_serializer × IsSafe own server_deserializer
unfolding server_ids server_serializer server_deserializer depth_after covered
codec-IsSafe = (
  IsSafe-run own server_ids (λ d. refl),
  IsSafe-run own server_serializer (λ d. refl),
  IsSafe-run own server_deserializer (λ d. refl),
)

server_end-Moves : Moves own 1 server_end 0
unfolding server_end depth_after covered
server_end-Moves = Moves-run own 1 0 server_end (λ d. refl)

pub print_server-Moves :
    (build : Build) (off : Bool) (service : ServiceDescriptor)
    → Moves given 0 (print_server build off service) 0
unfolding print_server
print_server-Moves build off service =
    let groups = group service.methods in
    server_vars-Provides build off service
    ⊳ server_start-Moves
    ⨾ within (IsSafe-for_each own service.methods server_field server_field-IsSafe)
    ⨾ constructors_start-Moves.0
    ⨾ within (IsSafe-for_each own service.methods server_identity server_identity-IsSafe)
    ⨾ constructors_end-Moves.0
    ⨾ constructors_start-Moves.1
    ⨾ within (IsSafe-for_each own service.methods server_timed server_timed-IsSafe)
    ⨾ constructors_end-Moves.1
    ⨾ within codec-IsSafe.0
    ⨾ fire_and_forget_handler-Moves build groups.fire_and_forget
    ⨾ request_response_handler-Moves build groups.request_response
    ⨾ request_stream_handler-Moves build groups.request_stream
    ⨾ request_channel_handler-Moves build groups.request_channel
    ⨾ channel_publisher_handler-Moves groups.request_channel
    ⨾ within codec-IsSafe.1
    ⨾ within codec-IsSafe.2
    ⨾ server_end-Moves
