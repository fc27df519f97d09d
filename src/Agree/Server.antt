-- ===== src/Agree/Server.antt =====
-- The cases that `PrintServer` prints in its handlers.
use proteus_java.Common.{true, List, [], ◌∷◌, map, append-nil, ◌≡◌, refl, ◌∙◌, arith}
use proteus_java.Descriptor.{MethodDescriptor, Build}
use proteus_java.Emit.{Program}
use proteus_java.Emit.Values.{values, apart, Yields, Yields-for_each, Yields-eq, ◌⋆◌, silent}
use proteus_java.Ids.{method_id_field_name}
use proteus_java.Agree.{
  Interaction, fire_and_forget, request_response, request_stream, request_channel, select,
  case_text, watched, for_each-map,
}
use proteus_java.Agree.Groups.{group-select}
use proteus_java.Server.Groups.{group}
use proteus_java.Server.Handlers.End.{handler_end}
use proteus_java.Server.Handlers.FireAndForget.{
  fire_and_forget_start, fire_and_forget_case, fire_and_forget_switch, fire_and_forget_default,
  fire_and_forget_dispatch, fire_and_forget_handler,
}
use proteus_java.Server.Handlers.RequestResponse.{
  request_response_start, request_response_case, request_response_switch, request_response_default,
  request_response_dispatch, request_response_handler,
}
use proteus_java.Server.Handlers.RequestStream.{
  request_stream_start, request_stream_case, request_stream_switch, request_stream_default,
  request_stream_dispatch, request_stream_handler,
}
use proteus_java.Server.Handlers.RequestChannel.{
  request_channel_start, request_channel_case, request_channel_switch, request_channel_default,
  request_channel_dispatch, request_channel_handler, channel_publisher_start,
  channel_publisher_body, channel_publisher_handler,
}

-- A part that opens no case.
pub no_case : (ops : Program) → apart watched ops ≡ true → Yields case_text "method_id_name" ops []
no_case ops h = silent watched ops refl h

fire_and_forget_case-Yields :
    (build : Build) (method : MethodDescriptor)
    → Yields case_text "method_id_name"
        (fire_and_forget_case build method)
        (method_id_field_name method ∷ [])
unfolding fire_and_forget_case values
fire_and_forget_case-Yields build method = record { runs = λ vars. ground arith }

fire_and_forget_handler-Yields :
    (build : Build) (methods : List MethodDescriptor)
    → Yields case_text "method_id_name"
        (fire_and_forget_handler build methods)
        (map method_id_field_name methods)
unfolding fire_and_forget_handler fire_and_forget_start fire_and_forget_dispatch
    fire_and_forget_switch fire_and_forget_default handler_end apart
fire_and_forget_handler-Yields build [] =
    no_case fire_and_forget_start refl
    ⋆ no_case (fire_and_forget_dispatch build []) refl
    ⋆ no_case handler_end refl
fire_and_forget_handler-Yields build (m ∷ methods) =
    Yields-eq (append-nil _ ∙ append-nil _ ∙ for_each-map method_id_field_name (m ∷ methods)) (
      no_case fire_and_forget_start refl
      ⋆ (no_case fire_and_forget_switch refl
          ⋆ Yields-for_each (m ∷ methods) (fire_and_forget_case-Yields build)
          ⋆ no_case fire_and_forget_default refl)
      ⋆ no_case handler_end refl)

request_response_case-Yields :
    (build : Build) (method : MethodDescriptor)
    → Yields case_text "method_id_name"
        (request_response_case build method)
        (method_id_field_name method ∷ [])
unfolding request_response_case values
request_response_case-Yields build method = record { runs = λ vars. ground arith }

request_response_handler-Yields :
    (build : Build) (methods : List MethodDescriptor)
    → Yields case_text "method_id_name"
        (request_response_handler build methods)
        (map method_id_field_name methods)
unfolding request_response_handler request_response_start request_response_dispatch
    request_response_switch request_response_default handler_end apart
request_response_handler-Yields build [] =
    no_case request_response_start refl
    ⋆ no_case (request_response_dispatch build []) refl
    ⋆ no_case handler_end refl
request_response_handler-Yields build (m ∷ methods) =
    Yields-eq (append-nil _ ∙ append-nil _ ∙ for_each-map method_id_field_name (m ∷ methods)) (
      no_case request_response_start refl
      ⋆ (no_case request_response_switch refl
          ⋆ Yields-for_each (m ∷ methods) (request_response_case-Yields build)
          ⋆ no_case request_response_default refl)
      ⋆ no_case handler_end refl)

request_stream_case-Yields :
    (build : Build) (method : MethodDescriptor)
    → Yields case_text "method_id_name"
        (request_stream_case build method)
        (method_id_field_name method ∷ [])
unfolding request_stream_case values
request_stream_case-Yields build method = record { runs = λ vars. ground arith }

request_stream_handler-Yields :
    (build : Build) (methods : List MethodDescriptor)
    → Yields case_text "method_id_name"
        (request_stream_handler build methods)
        (map method_id_field_name methods)
unfolding request_stream_handler request_stream_start request_stream_dispatch request_stream_switch
    request_stream_default handler_end apart
request_stream_handler-Yields build [] =
    no_case request_stream_start refl
    ⋆ no_case (request_stream_dispatch build []) refl
    ⋆ no_case handler_end refl
request_stream_handler-Yields build (m ∷ methods) =
    Yields-eq (append-nil _ ∙ append-nil _ ∙ for_each-map method_id_field_name (m ∷ methods)) (
      no_case request_stream_start refl
      ⋆ (no_case request_stream_switch refl
          ⋆ Yields-for_each (m ∷ methods) (request_stream_case-Yields build)
          ⋆ no_case request_stream_default refl)
      ⋆ no_case handler_end refl)

request_channel_case-Yields :
    (build : Build) (method : MethodDescriptor)
    → Yields case_text "method_id_name"
        (request_channel_case build method)
        (method_id_field_name method ∷ [])
unfolding request_channel_case values
request_channel_case-Yields build method = record { runs = λ vars. ground arith }

request_channel_handler-Yields :
    (build : Build) (methods : List MethodDescriptor)
    → Yields case_text "method_id_name"
        (request_channel_handler build methods)
        (map method_id_field_name methods)
unfolding request_channel_handler request_channel_start request_channel_dispatch
    request_channel_switch request_channel_default handler_end apart
request_channel_handler-Yields build [] =
    no_case request_channel_start refl
    ⋆ no_case (request_channel_dispatch build []) refl
    ⋆ no_case handler_end refl
request_channel_handler-Yields build (m ∷ methods) =
    Yields-eq (append-nil _ ∙ append-nil _ ∙ for_each-map method_id_field_name (m ∷ methods)) (
      no_case request_channel_start refl
      ⋆ (no_case request_channel_switch refl
          ⋆ Yields-for_each (m ∷ methods) (request_channel_case-Yields build)
          ⋆ no_case request_channel_default refl)
      ⋆ no_case handler_end refl)

pub channel_publisher_handler-Yields :
    (methods : List MethodDescriptor)
    → Yields case_text "method_id_name" (channel_publisher_handler methods) []
unfolding channel_publisher_handler channel_publisher_start channel_publisher_body handler_end apart
channel_publisher_handler-Yields [] = no_case (channel_publisher_handler []) refl
channel_publisher_handler-Yields (m ∷ methods) =
    no_case (channel_publisher_handler (m ∷ methods)) refl

-- The handler for one interaction model, on the vector of `group` for it.
abbrev pub handler : Build → Interaction → List MethodDescriptor → Program
handler build fire_and_forget methods =
    fire_and_forget_handler build (group methods).fire_and_forget
handler build request_response methods =
    request_response_handler build (group methods).request_response
handler build request_stream methods = request_stream_handler build (group methods).request_stream
handler build request_channel methods =
    request_channel_handler build (group methods).request_channel

pub handler-Yields :
    (build : Build) (i : Interaction) (methods : List MethodDescriptor)
    → Yields case_text "method_id_name"
        (handler build i methods)
        (map method_id_field_name (select i methods))
handler-Yields build fire_and_forget methods =
    rw (group-select methods)
      (fire_and_forget_handler-Yields build (select fire_and_forget methods))
handler-Yields build request_response methods =
    rw (group-select methods)
      (request_response_handler-Yields build (select request_response methods))
handler-Yields build request_stream methods =
    rw (group-select methods) (request_stream_handler-Yields build (select request_stream methods))
handler-Yields build request_channel methods =
    rw (group-select methods)
      (request_channel_handler-Yields build (select request_channel methods))
