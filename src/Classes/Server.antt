-- ===== src/Classes/Server.antt =====
-- What the file of `PrintServer` declares.
use proteus_java.Common.{Option-cases, Bool-cases, inl, inr, List, Bool, [], ◌∷◌, ◌++◌, refl, arith}
use proteus_java.Descriptor.{ServiceDescriptor, MethodDescriptor, Build}
use proteus_java.Emit.Values.{values, apart}
use proteus_java.Service.{assign_version, reassign_version}
use proteus_java.Ids.{server_class_name}
use proteus_java.Classes.{
  Declares, Undeclaring, undeclaring, ◌⊗◌, Undeclaring-for_each, behind_vars,
}
use proteus_java.Server.{
  server_vars, server_start, server_field, server_constructor_start, server_identity,
  server_constructor_end, server_metrics_start, server_timed, server_metrics_end, server_ids,
  server_end, print_server,
}
use proteus_java.Server.Groups.{group}
use proteus_java.Server.Codec.{server_serializer, server_deserializer}
use proteus_java.Server.Handlers.End.{handler_end}
use proteus_java.Server.Handlers.FireAndForget.{
  fire_and_forget_start, fire_and_forget_case, fire_and_forget_switch, fire_and_forget_default,
  fire_and_forget_dispatch, fire_and_forget_handler,
}
use proteus_java.Server.Handlers.RequestResponse.{
  request_response_start, request_response_case, request_response_switch, request_response_default,
  request_response_dispatch, request_response_handler,
}
use proteus_java.Server.Handlers.RequestStream.{
  request_stream_start, request_stream_case, request_stream_switch, request_stream_default,
  request_stream_dispatch, request_stream_handler,
}
use proteus_java.Server.Handlers.RequestChannel.{
  request_channel_start, request_channel_case, request_channel_switch, request_channel_default,
  request_channel_dispatch, request_channel_handler, channel_publisher_start,
  channel_publisher_body, channel_publisher_handler,
}

-- The declaration, with the variable that is set in front of it.
server_start-Declares :
    (build : Build) (off : Bool) (service : ServiceDescriptor)
    → Declares
        (server_vars build off service ++ server_start)
        []
        []
        (server_class_name service ∷ [])
unfolding server_vars server_start assign_version reassign_version values
server_start-Declares build off service = elim (Option-cases build.proteus_version) [
  | inl e ↦ record {
    as_interface = record { runs = λ vars. rw e refl };
    as_client = record { runs = λ vars. rw e refl };
    as_server = record { runs = λ vars. rw e refl };
  }
  | inr (number, e) ↦ elim (Bool-cases off) [
    | inl on ↦ record {
      as_interface = record { runs = λ vars. rw (e, on) refl };
      as_client = record { runs = λ vars. rw (e, on) refl };
      as_server = record { runs = λ vars. rw (e, on) refl };
    }
    | inr not_on ↦ record {
      as_interface = record { runs = λ vars. rw (e, not_on) refl };
      as_client = record { runs = λ vars. rw (e, not_on) refl };
      as_server = record { runs = λ vars. rw (e, not_on) refl };
    }
  ]
]

fire_and_forget_case-Undeclaring :
    (build : Build) (method : MethodDescriptor) → Undeclaring (fire_and_forget_case build method)
unfolding fire_and_forget_case apart
fire_and_forget_case-Undeclaring build method =
    undeclaring (fire_and_forget_case build method) (ground arith)

fire_and_forget_handler-Undeclaring :
    (build : Build) (methods : List MethodDescriptor)
    → Undeclaring (fire_and_forget_handler build methods)
unfolding fire_and_forget_handler fire_and_forget_start fire_and_forget_dispatch
    fire_and_forget_switch fire_and_forget_default handler_end apart
fire_and_forget_handler-Undeclaring build [] = undeclaring (fire_and_forget_handler build []) refl
fire_and_forget_handler-Undeclaring build (m ∷ methods) =
    undeclaring fire_and_forget_start refl
    ⊗ (undeclaring fire_and_forget_switch refl
        ⊗ Undeclaring-for_each (m ∷ methods) (fire_and_forget_case build)
            (fire_and_forget_case-Undeclaring build)
        ⊗ undeclaring fire_and_forget_default refl)
    ⊗ undeclaring handler_end refl

request_response_case-Undeclaring :
    (build : Build) (method : MethodDescriptor) → Undeclaring (request_response_case build method)
unfolding request_response_case apart
request_response_case-Undeclaring build method =
    undeclaring (request_response_case build method) (ground arith)

request_response_handler-Undeclaring :
    (build : Build) (methods : List MethodDescriptor)
    → Undeclaring (request_response_handler build methods)
unfolding request_response_handler request_response_start request_response_dispatch
    request_response_switch request_response_default handler_end apart
request_response_handler-Undeclaring build [] = undeclaring (request_response_handler build []) refl
request_response_handler-Undeclaring build (m ∷ methods) =
    undeclaring request_response_start refl
    ⊗ (undeclaring request_response_switch refl
        ⊗ Undeclaring-for_each (m ∷ methods) (request_response_case build)
            (request_response_case-Undeclaring build)
        ⊗ undeclaring request_response_default refl)
    ⊗ undeclaring handler_end refl

request_stream_case-Undeclaring :
    (build : Build) (method : MethodDescriptor) → Undeclaring (request_stream_case build method)
unfolding request_stream_case apart
request_stream_case-Undeclaring build method =
    undeclaring (request_stream_case build method) (ground arith)

request_stream_handler-Undeclaring :
    (build : Build) (methods : List MethodDescriptor)
    → Undeclaring (request_stream_handler build methods)
unfolding request_stream_handler request_stream_start request_stream_dispatch request_stream_switch
    request_stream_default handler_end apart
request_stream_handler-Undeclaring build [] = undeclaring (request_stream_handler build []) refl
request_stream_handler-Undeclaring build (m ∷ methods) =
    undeclaring request_stream_start refl
    ⊗ (undeclaring request_stream_switch refl
        ⊗ Undeclaring-for_each (m ∷ methods) (request_stream_case build)
            (request_stream_case-Undeclaring build)
        ⊗ undeclaring request_stream_default refl)
    ⊗ undeclaring handler_end refl

request_channel_case-Undeclaring :
    (build : Build) (method : MethodDescriptor) → Undeclaring (request_channel_case build method)
unfolding request_channel_case apart
request_channel_case-Undeclaring build method =
    undeclaring (request_channel_case build method) (ground arith)

request_channel_handler-Undeclaring :
    (build : Build) (methods : List MethodDescriptor)
    → Undeclaring (request_channel_handler build methods)
unfolding request_channel_handler request_channel_start request_channel_dispatch
    request_channel_switch request_channel_default handler_end apart
request_channel_handler-Undeclaring build [] = undeclaring (request_channel_handler build []) refl
request_channel_handler-Undeclaring build (m ∷ methods) =
    undeclaring request_channel_start refl
    ⊗ (undeclaring request_channel_switch refl
        ⊗ Undeclaring-for_each (m ∷ methods) (request_channel_case build)
            (request_channel_case-Undeclaring build)
        ⊗ undeclaring request_channel_default refl)
    ⊗ undeclaring handler_end refl

channel_publisher_handler-Undeclaring :
    (methods : List MethodDescriptor) → Undeclaring (channel_publisher_handler methods)
unfolding channel_publisher_handler channel_publisher_start channel_publisher_body handler_end apart
channel_publisher_handler-Undeclaring [] = undeclaring (channel_publisher_handler []) refl
channel_publisher_handler-Undeclaring (m ∷ methods) =
    undeclaring (channel_publisher_handler (m ∷ methods)) refl

server_field-Undeclaring : (method : MethodDescriptor) → Undeclaring (server_field method)
unfolding server_field apart
server_field-Undeclaring method = undeclaring (server_field method) (ground arith)

server_identity-Undeclaring : (method : MethodDescriptor) → Undeclaring (server_identity method)
unfolding server_identity apart
server_identity-Undeclaring method = undeclaring (server_identity method) refl

server_timed-Undeclaring : (method : MethodDescriptor) → Undeclaring (server_timed method)
unfolding server_timed apart
server_timed-Undeclaring method = undeclaring (server_timed method) refl

pub print_server-Declares :
    (build : Build) (off : Bool) (service : ServiceDescriptor)
    → Declares (print_server build off service) [] [] (server_class_name service ∷ [])
unfolding print_server server_constructor_start server_constructor_end server_metrics_start
    server_metrics_end server_ids server_serializer server_deserializer server_end apart
print_server-Declares build off service =
    behind_vars (server_vars build off service) server_start
      (server_start-Declares build off service)
      (Undeclaring-for_each service.methods server_field server_field-Undeclaring
        ⊗ undeclaring server_constructor_start refl
        ⊗ Undeclaring-for_each service.methods server_identity server_identity-Undeclaring
        ⊗ undeclaring server_constructor_end refl
        ⊗ undeclaring server_metrics_start refl
        ⊗ Undeclaring-for_each service.methods server_timed server_timed-Undeclaring
        ⊗ undeclaring server_metrics_end refl
        ⊗ undeclaring server_ids refl
        ⊗ fire_and_forget_handler-Undeclaring build (group service.methods).fire_and_forget
        ⊗ request_response_handler-Undeclaring build (group service.methods).request_response
        ⊗ request_stream_handler-Undeclaring build (group service.methods).request_stream
        ⊗ request_channel_handler-Undeclaring build (group service.methods).request_channel
        ⊗ channel_publisher_handler-Undeclaring (group service.methods).request_channel
        ⊗ undeclaring server_serializer refl
        ⊗ undeclaring server_deserializer refl
        ⊗ undeclaring server_end refl)
