-- ===== src/Server/Braces.antt =====
-- The curly braces of `PrintServer`, part by part.
use proteus_java.Common.{Option-cases, Bool-cases, inl, inr, Bool, refl, arith}
use proteus_java.Descriptor.{ServiceDescriptor, MethodDescriptor, Build}
use proteus_java.Emit.Braces.{braces, Nests, Nests-run, Nests-for_each, ◌⨟◌, inside}
use proteus_java.Service.{assign_version, reassign_version}
use proteus_java.Server.{
  server_vars, server_start, server_field, server_constructor_start, server_identity,
  server_constructor_end, server_metrics_start, server_timed, server_metrics_end, server_ids,
  server_end, print_server,
}
use proteus_java.Server.Groups.{group}
use proteus_java.Server.Codec.{server_serializer, server_deserializer}
use proteus_java.Server.Handlers.Braces.{
  fire_and_forget_handler-Nests, request_response_handler-Nests, request_stream_handler-Nests,
  request_channel_handler-Nests, channel_publisher_handler-Nests,
}

server_vars-Nests :
    (build : Build) (off : Bool) (service : ServiceDescriptor)
    → Nests 0 (server_vars build off service) 0
unfolding server_vars assign_version reassign_version braces
server_vars-Nests build off service = elim (Option-cases build.proteus_version) [
  | inl e ↦ Nests-run 0 0 (server_vars build off service) (λ d. rw e refl)
  | inr (number, e) ↦ elim (Bool-cases off) [
    | inl on ↦ Nests-run 0 0 (server_vars build off service) (λ d. rw (e, on) refl)
    | inr not_on ↦ Nests-run 0 0 (server_vars build off service) (λ d. rw (e, not_on) refl)
  ]
]

server_start-Nests : Nests 0 server_start 1
unfolding server_start braces
server_start-Nests = Nests-run 0 1 server_start (λ d. refl)

server_field-Nests : (method : MethodDescriptor) → Nests 0 (server_field method) 0
unfolding server_field braces
server_field-Nests method = Nests-run 0 0 (server_field method) (λ d. ground arith)

server_identity-Nests : (method : MethodDescriptor) → Nests 0 (server_identity method) 0
unfolding server_identity braces
server_identity-Nests method = Nests-run 0 0 (server_identity method) (λ d. refl)

server_timed-Nests : (method : MethodDescriptor) → Nests 0 (server_timed method) 0
unfolding server_timed braces
server_timed-Nests method = Nests-run 0 0 (server_timed method) (λ d. refl)

constructors_start-Nests : Nests 1 server_constructor_start 2 × Nests 1 server_metrics_start 2
unfolding server_constructor_start server_metrics_start braces
constructors_start-Nests = (
  Nests-run 1 2 server_constructor_start (λ d. refl),
  Nests-run 1 2 server_metrics_start (λ d. refl),
)

constructors_end-Nests : Nests 2 server_constructor_end 1 × Nests 2 server_metrics_end 1
unfolding server_constructor_end server_metrics_end braces
constructors_end-Nests =
    (Nests-run 2 1 server_constructor_end (λ d. refl), Nests-run 2 1 server_metrics_end (λ d. refl))

codec-Nests : Nests 0 server_ids 0 × Nests 0 server_serializer 0 × Nests 0 server_deserializer 0
unfolding server_ids server_serializer server_deserializer braces
codec-Nests = (
  Nests-run 0 0 server_ids (λ d. refl),
  Nests-run 0 0 server_serializer (λ d. refl),
  Nests-run 0 0 server_deserializer (λ d. refl),
)

server_end-Nests : Nests 1 server_end 0
unfolding server_end braces
server_end-Nests = Nests-run 1 0 server_end (λ d. refl)

pub print_server-Nests :
    (build : Build) (off : Bool) (service : ServiceDescriptor)
    → Nests 0 (print_server build off service) 0
unfolding print_server
print_server-Nests build off service =
    let groups = group service.methods in
    server_vars-Nests build off service
    ⨟ server_start-Nests
    ⨟ inside (Nests-for_each service.methods server_field server_field-Nests)
    ⨟ constructors_start-Nests.0
    ⨟ inside (Nests-for_each service.methods server_identity server_identity-Nests)
    ⨟ constructors_end-Nests.0
    ⨟ constructors_start-Nests.1
    ⨟ inside (Nests-for_each service.methods server_timed server_timed-Nests)
    ⨟ constructors_end-Nests.1
    ⨟ inside codec-Nests.0
    ⨟ fire_and_forget_handler-Nests build groups.fire_and_forget
    ⨟ request_response_handler-Nests build groups.request_response
    ⨟ request_stream_handler-Nests build groups.request_stream
    ⨟ request_channel_handler-Nests build groups.request_channel
    ⨟ channel_publisher_handler-Nests groups.request_channel
    ⨟ inside codec-Nests.1
    ⨟ inside codec-Nests.2
    ⨟ server_end-Nests
