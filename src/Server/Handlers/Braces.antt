-- ===== src/Server/Handlers/Braces.antt =====
-- The curly braces of the handlers of `PrintServer`.
use proteus_java.Common.{List, [], ◌∷◌, refl, arith}
use proteus_java.Descriptor.{MethodDescriptor, Build}
use proteus_java.Emit.Braces.{braces, Nests, Nests-run, Nests-for_each, ◌⨟◌, inside}
use proteus_java.Server.Handlers.End.{handler_end}
use proteus_java.Server.Handlers.FireAndForget.{
  fire_and_forget_start, fire_and_forget_case, fire_and_forget_switch, fire_and_forget_default,
  fire_and_forget_dispatch, fire_and_forget_handler,
}
use proteus_java.Server.Handlers.RequestResponse.{
  request_response_start, request_response_case, request_response_switch, request_response_default,
  request_response_dispatch, request_response_handler,
}
use proteus_java.Server.Handlers.RequestStream.{
  request_stream_start, request_stream_case, request_stream_switch, request_stream_default,
  request_stream_dispatch, request_stream_handler,
}
use proteus_java.Server.Handlers.RequestChannel.{
  request_channel_start, request_channel_case, request_channel_switch, request_channel_default,
  request_channel_dispatch, request_channel_handler, channel_publisher_start,
  channel_publisher_body, channel_publisher_handler,
}

handler_end-Nests : Nests 1 handler_end 0
unfolding handler_end braces
handler_end-Nests = Nests-run 1 0 handler_end (λ d. refl)

fire_and_forget_case-Nests :
    (build : Build) (method : MethodDescriptor) → Nests 0 (fire_and_forget_case build method) 0
unfolding fire_and_forget_case braces
fire_and_forget_case-Nests build method =
    Nests-run 0 0 (fire_and_forget_case build method) (λ d. refl)

fire_and_forget_dispatch-Nests :
    (build : Build) (methods : List MethodDescriptor)
    → Nests 1 (fire_and_forget_dispatch build methods) 1
unfolding fire_and_forget_dispatch fire_and_forget_switch fire_and_forget_default braces
fire_and_forget_dispatch-Nests build [] =
    Nests-run 1 1 (fire_and_forget_dispatch build []) (λ d. refl)
fire_and_forget_dispatch-Nests build (method ∷ methods) =
    let start : Nests 1 fire_and_forget_switch 3 =
      Nests-run 1 3 fire_and_forget_switch (λ d. refl) in
    let end : Nests 3 fire_and_forget_default 1 =
      Nests-run 3 1 fire_and_forget_default (λ d. refl) in
    start
    ⨟ inside (
        Nests-for_each (method ∷ methods) (fire_and_forget_case build)
          (fire_and_forget_case-Nests build))
    ⨟ end

pub fire_and_forget_handler-Nests :
    (build : Build) (methods : List MethodDescriptor)
    → Nests 1 (fire_and_forget_handler build methods) 1
unfolding fire_and_forget_handler fire_and_forget_start braces
fire_and_forget_handler-Nests build methods =
    let start : Nests 0 fire_and_forget_start 1 = Nests-run 0 1 fire_and_forget_start (λ d. refl) in
    inside ((start ⨟ fire_and_forget_dispatch-Nests build methods ⨟ handler_end-Nests))

request_response_case-Nests :
    (build : Build) (method : MethodDescriptor) → Nests 0 (request_response_case build method) 0
unfolding request_response_case braces
request_response_case-Nests build method =
    Nests-run 0 0 (request_response_case build method) (λ d. refl)

request_response_dispatch-Nests :
    (build : Build) (methods : List MethodDescriptor)
    → Nests 1 (request_response_dispatch build methods) 1
unfolding request_response_dispatch request_response_switch request_response_default braces
request_response_dispatch-Nests build [] =
    Nests-run 1 1 (request_response_dispatch build []) (λ d. refl)
request_response_dispatch-Nests build (method ∷ methods) =
    let start : Nests 1 request_response_switch 3 =
      Nests-run 1 3 request_response_switch (λ d. refl) in
    let end : Nests 3 request_response_default 1 =
      Nests-run 3 1 request_response_default (λ d. refl) in
    start
    ⨟ inside (
        Nests-for_each (method ∷ methods) (request_response_case build)
          (request_response_case-Nests build))
    ⨟ end

pub request_response_handler-Nests :
    (build : Build) (methods : List MethodDescriptor)
    → Nests 1 (request_response_handler build methods) 1
unfolding request_response_handler request_response_start braces
request_response_handler-Nests build methods =
    let start : Nests 0 request_response_start 1 =
      Nests-run 0 1 request_response_start (λ d. refl) in
    inside ((start ⨟ request_response_dispatch-Nests build methods ⨟ handler_end-Nests))

request_stream_case-Nests :
    (build : Build) (method : MethodDescriptor) → Nests 0 (request_stream_case build method) 0
unfolding request_stream_case braces
request_stream_case-Nests build method =
    Nests-run 0 0 (request_stream_case build method) (λ d. refl)

request_stream_dispatch-Nests :
    (build : Build) (methods : List MethodDescriptor)
    → Nests 1 (request_stream_dispatch build methods) 1
unfolding request_stream_dispatch request_stream_switch request_stream_default braces
request_stream_dispatch-Nests build [] =
    Nests-run 1 1 (request_stream_dispatch build []) (λ d. refl)
request_stream_dispatch-Nests build (method ∷ methods) =
    let start : Nests 1 request_stream_switch 3 = Nests-run 1 3 request_stream_switch (λ d. refl) in
    let end : Nests 3 request_stream_default 1 = Nests-run 3 1 request_stream_default (λ d. refl) in
    start
    ⨟ inside (
        Nests-for_each (method ∷ methods) (request_stream_case build)
          (request_stream_case-Nests build))
    ⨟ end

pub request_stream_handler-Nests :
    (build : Build) (methods : List MethodDescriptor)
    → Nests 1 (request_stream_handler build methods) 1
unfolding request_stream_handler request_stream_start braces
request_stream_handler-Nests build methods =
    let start : Nests 0 request_stream_start 1 = Nests-run 0 1 request_stream_start (λ d. refl) in
    inside ((start ⨟ request_stream_dispatch-Nests build methods ⨟ handler_end-Nests))

request_channel_case-Nests :
    (build : Build) (method : MethodDescriptor) → Nests 0 (request_channel_case build method) 0
unfolding request_channel_case braces
request_channel_case-Nests build method =
    Nests-run 0 0 (request_channel_case build method) (λ d. ground arith)

request_channel_dispatch-Nests :
    (build : Build) (methods : List MethodDescriptor)
    → Nests 1 (request_channel_dispatch build methods) 1
unfolding request_channel_dispatch request_channel_switch request_channel_default braces
request_channel_dispatch-Nests build [] =
    Nests-run 1 1 (request_channel_dispatch build []) (λ d. refl)
request_channel_dispatch-Nests build (method ∷ methods) =
    let start : Nests 1 request_channel_switch 3 =
      Nests-run 1 3 request_channel_switch (λ d. refl) in
    let end : Nests 3 request_channel_default 1 =
      Nests-run 3 1 request_channel_default (λ d. refl) in
    start
    ⨟ inside (
        Nests-for_each (method ∷ methods) (request_channel_case build)
          (request_channel_case-Nests build))
    ⨟ end

pub request_channel_handler-Nests :
    (build : Build) (methods : List MethodDescriptor)
    → Nests 1 (request_channel_handler build methods) 1
unfolding request_channel_handler request_channel_start braces
request_channel_handler-Nests build methods =
    let start : Nests 0 request_channel_start 1 = Nests-run 0 1 request_channel_start (λ d. refl) in
    inside ((start ⨟ request_channel_dispatch-Nests build methods ⨟ handler_end-Nests))

channel_publisher_body-Nests :
    (methods : List MethodDescriptor) → Nests 1 (channel_publisher_body methods) 1
unfolding channel_publisher_body braces
channel_publisher_body-Nests [] = Nests-run 1 1 (channel_publisher_body []) (λ d. refl)
channel_publisher_body-Nests (method ∷ methods) =
    Nests-run 1 1 (channel_publisher_body (method ∷ methods)) (λ d. refl)

pub channel_publisher_handler-Nests :
    (methods : List MethodDescriptor) → Nests 1 (channel_publisher_handler methods) 1
unfolding channel_publisher_handler channel_publisher_start braces
channel_publisher_handler-Nests methods =
    let start : Nests 0 channel_publisher_start 1 =
      Nests-run 0 1 channel_publisher_start (λ d. refl) in
    inside ((start ⨟ channel_publisher_body-Nests methods ⨟ handler_end-Nests))
