-- ===== src/Server/Handlers/Safe.antt =====
-- The variables and the indentation of the handlers of `PrintServer`.
use proteus_java.Common.{String, List, [], ◌∷◌, refl, arith}
use proteus_java.Descriptor.{MethodDescriptor, Build}
use proteus_java.Emit.Printer.{depth_after}
use proteus_java.Emit.Template.{covered}
use proteus_java.Emit.Safe.{
  IsSafe, IsSafe-run, IsSafe-for_each, Moves, Moves-run, ◌⨾◌, within, whole,
}
use proteus_java.Server.Handlers.End.{handler_end}
use proteus_java.Server.Handlers.FireAndForget.{
  fire_and_forget_start, fire_and_forget_case, fire_and_forget_switch, fire_and_forget_default,
  fire_and_forget_dispatch, fire_and_forget_handler,
}
use proteus_java.Server.Handlers.RequestResponse.{
  request_response_start, request_response_case, request_response_switch, request_response_default,
  request_response_dispatch, request_response_handler,
}
use proteus_java.Server.Handlers.RequestStream.{
  request_stream_start, request_stream_case, request_stream_switch, request_stream_default,
  request_stream_dispatch, request_stream_handler,
}
use proteus_java.Server.Handlers.RequestChannel.{
  request_channel_start, request_channel_case, request_channel_switch, request_channel_default,
  request_channel_dispatch, request_channel_handler, channel_publisher_start,
  channel_publisher_body, channel_publisher_handler,
}

-- The variables that `GenerateServer` assigns.
abbrev pub given : List String
given =
    "Package" ∷ "Parser" ∷ "MessageLite" ∷ "CodedOutputStream" ∷ "CodedInputStream"
    ∷ "ByteBufAllocator" ∷ "ByteBuffer" ∷ "ByteBuf" ∷ "MeterRegistry" ∷ "ProteusMetrics"
    ∷ "ProteusMetadata" ∷ "AbstractProteusService" ∷ "SwitchTransform" ∷ "ByteBufPayload"
    ∷ "Payload" ∷ "RSocket" ∷ "Generated" ∷ "Publisher" ∷ "Override" ∷ "BiFunction" ∷ "Supplier"
    ∷ "Function" ∷ "flatMap" ∷ "flux" ∷ "from" ∷ "Mono" ∷ "Flux" ∷ []

-- Those that `PrintServer` adds for the service.
abbrev pub own : List String
own =
    "proteus_version" ∷ "server_class_name" ∷ "file_name" ∷ "service_id_name" ∷ "namespace_id_name"
    ∷ "service_name" ∷ given

handler_end-Moves : Moves own 1 handler_end 0
unfolding handler_end depth_after covered
handler_end-Moves = Moves-run own 1 0 handler_end (λ d. refl)

fire_and_forget_case-IsSafe :
    (build : Build) (method : MethodDescriptor) → IsSafe own (fire_and_forget_case build method)
unfolding fire_and_forget_case depth_after covered
fire_and_forget_case-IsSafe build method =
    IsSafe-run own (fire_and_forget_case build method) (λ d. refl)

fire_and_forget_dispatch-Moves :
    (build : Build) (methods : List MethodDescriptor)
    → Moves own 1 (fire_and_forget_dispatch build methods) 1
unfolding fire_and_forget_dispatch fire_and_forget_switch fire_and_forget_default depth_after
    covered
fire_and_forget_dispatch-Moves build [] =
    Moves-run own 1 1 (fire_and_forget_dispatch build []) (λ d. refl)
fire_and_forget_dispatch-Moves build (method ∷ methods) =
    let start : Moves own 1 fire_and_forget_switch 3 =
      Moves-run own 1 3 fire_and_forget_switch (λ d. refl) in
    let end : Moves own 3 fire_and_forget_default 1 =
      Moves-run own 3 1 fire_and_forget_default (λ d. refl) in
    start
    ⨾ within (
        IsSafe-for_each own (method ∷ methods) (fire_and_forget_case build)
          (fire_and_forget_case-IsSafe build))
    ⨾ end

pub fire_and_forget_handler-Moves :
    (build : Build) (methods : List MethodDescriptor)
    → Moves own 1 (fire_and_forget_handler build methods) 1
unfolding fire_and_forget_handler fire_and_forget_start depth_after covered
fire_and_forget_handler-Moves build methods =
    let start : Moves own 0 fire_and_forget_start 1 =
      Moves-run own 0 1 fire_and_forget_start (λ d. refl) in
    within (whole (start ⨾ fire_and_forget_dispatch-Moves build methods ⨾ handler_end-Moves))

request_response_case-IsSafe :
    (build : Build) (method : MethodDescriptor) → IsSafe own (request_response_case build method)
unfolding request_response_case depth_after covered
request_response_case-IsSafe build method =
    IsSafe-run own (request_response_case build method) (λ d. refl)

request_response_dispatch-Moves :
    (build : Build) (methods : List MethodDescriptor)
    → Moves own 1 (request_response_dispatch build methods) 1
unfolding request_response_dispatch request_response_switch request_response_default depth_after
    covered
request_response_dispatch-Moves build [] =
    Moves-run own 1 1 (request_response_dispatch build []) (λ d. refl)
request_response_dispatch-Moves build (method ∷ methods) =
    let start : Moves own 1 request_response_switch 3 =
      Moves-run own 1 3 request_response_switch (λ d. refl) in
    let end : Moves own 3 request_response_default 1 =
      Moves-run own 3 1 request_response_default (λ d. refl) in
    start
    ⨾ within (
        IsSafe-for_each own (method ∷ methods) (request_response_case build)
          (request_response_case-IsSafe build))
    ⨾ end

pub request_response_handler-Moves :
    (build : Build) (methods : List MethodDescriptor)
    → Moves own 1 (request_response_handler build methods) 1
unfolding request_response_handler request_response_start depth_after covered
request_response_handler-Moves build methods =
    let start : Moves own 0 request_response_start 1 =
      Moves-run own 0 1 request_response_start (λ d. refl) in
    within (whole (start ⨾ request_response_dispatch-Moves build methods ⨾ handler_end-Moves))

request_stream_case-IsSafe :
    (build : Build) (method : MethodDescriptor) → IsSafe own (request_stream_case build method)
unfolding request_stream_case depth_after covered
request_stream_case-IsSafe build method =
    IsSafe-run own (request_stream_case build method) (λ d. refl)

request_stream_dispatch-Moves :
    (build : Build) (methods : List MethodDescriptor)
    → Moves own 1 (request_stream_dispatch build methods) 1
unfolding request_stream_dispatch request_stream_switch request_stream_default depth_after covered
request_stream_dispatch-Moves build [] =
    Moves-run own 1 1 (request_stream_dispatch build []) (λ d. refl)
request_stream_dispatch-Moves build (method ∷ methods) =
    let start : Moves own 1 request_stream_switch 3 =
      Moves-run own 1 3 request_stream_switch (λ d. refl) in
    let end : Moves own 3 request_stream_default 1 =
      Moves-run own 3 1 request_stream_default (λ d. refl) in
    start
    ⨾ within (
        IsSafe-for_each own (method ∷ methods) (request_stream_case build)
          (request_stream_case-IsSafe build))
    ⨾ end

pub request_stream_handler-Moves :
    (build : Build) (methods : List MethodDescriptor)
    → Moves own 1 (request_stream_handler build methods) 1
unfolding request_stream_handler request_stream_start depth_after covered
request_stream_handler-Moves build methods =
    let start : Moves own 0 request_stream_start 1 =
      Moves-run own 0 1 request_stream_start (λ d. refl) in
    within (whole (start ⨾ request_stream_dispatch-Moves build methods ⨾ handler_end-Moves))

request_channel_case-IsSafe :
    (build : Build) (method : MethodDescriptor) → IsSafe own (request_channel_case build method)
unfolding request_channel_case depth_after covered
request_channel_case-IsSafe build method =
    IsSafe-run own (request_channel_case build method) (λ d. ground arith)

request_channel_dispatch-Moves :
    (build : Build) (methods : List MethodDescriptor)
    → Moves own 1 (request_channel_dispatch build methods) 1
unfolding request_channel_dispatch request_channel_switch request_channel_default depth_after
    covered
request_channel_dispatch-Moves build [] =
    Moves-run own 1 1 (request_channel_dispatch build []) (λ d. refl)
request_channel_dispatch-Moves build (method ∷ methods) =
    let start : Moves own 1 request_channel_switch 3 =
      Moves-run own 1 3 request_channel_switch (λ d. refl) in
    let end : Moves own 3 request_channel_default 1 =
      Moves-run own 3 1 request_channel_default (λ d. refl) in
    start
    ⨾ within (
        IsSafe-for_each own (method ∷ methods) (request_channel_case build)
          (request_channel_case-IsSafe build))
    ⨾ end

pub request_channel_handler-Moves :
    (build : Build) (methods : List MethodDescriptor)
    → Moves own 1 (request_channel_handler build methods) 1
unfolding request_channel_handler request_channel_start depth_after covered
request_channel_handler-Moves build methods =
    let start : Moves own 0 request_channel_start 1 =
      Moves-run own 0 1 request_channel_start (λ d. refl) in
    within (whole (start ⨾ request_channel_dispatch-Moves build methods ⨾ handler_end-Moves))

channel_publisher_body-Moves :
    (methods : List MethodDescriptor) → Moves own 1 (channel_publisher_body methods) 1
unfolding channel_publisher_body depth_after covered
channel_publisher_body-Moves [] = Moves-run own 1 1 (channel_publisher_body []) (λ d. refl)
channel_publisher_body-Moves (method ∷ methods) =
    Moves-run own 1 1 (channel_publisher_body (method ∷ methods)) (λ d. refl)

pub channel_publisher_handler-Moves :
    (methods : List MethodDescriptor) → Moves own 1 (channel_publisher_handler methods) 1
unfolding channel_publisher_handler channel_publisher_start depth_after covered
channel_publisher_handler-Moves methods =
    let start : Moves own 0 channel_publisher_start 1 =
      Moves-run own 0 1 channel_publisher_start (λ d. refl) in
    within (whole (start ⨾ channel_publisher_body-Moves methods ⨾ handler_end-Moves))
