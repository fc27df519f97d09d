-- ===== src/Agree/Sections.antt =====
-- The handlers of the server class, found by the texts that open them.
use proteus_java.Common.{
  true, List, [], ◌∷◌, ◌++◌, map, ◌≡◌, refl, arith, Bytes, if◌then◌else◌, str_eq, for_each,
}
use proteus_java.Descriptor.{MethodDescriptor, Build}
use proteus_java.Emit.{Program, indented}
use proteus_java.Emit.Values.{values, apart}
use proteus_java.Emit.Sections.{Sections, section, apart-append, apart-for_each}
use proteus_java.Ids.{method_id_field_name}
use proteus_java.Agree.{
  Interaction, fire_and_forget, request_response, request_stream, request_channel, select,
  case_text, head_text, heads,
}
use proteus_java.Agree.Server.{handler, handler-Yields}
use proteus_java.Server.Groups.{group}
use proteus_java.Server.Handlers.End.{handler_end}
use proteus_java.Server.Handlers.FireAndForget.{
  fire_and_forget_start, fire_and_forget_case, fire_and_forget_switch, fire_and_forget_default,
  fire_and_forget_dispatch, fire_and_forget_handler,
}
use proteus_java.Server.Handlers.RequestResponse.{
  request_response_start, request_response_case, request_response_switch, request_response_default,
  request_response_dispatch, request_response_handler,
}
use proteus_java.Server.Handlers.RequestStream.{
  request_stream_start, request_stream_case, request_stream_switch, request_stream_default,
  request_stream_dispatch, request_stream_handler,
}
use proteus_java.Server.Handlers.RequestChannel.{
  request_channel_start, request_channel_case, request_channel_switch, request_channel_default,
  request_channel_dispatch, request_channel_handler,
}

-- The cases that stand in the handler for the model `i`.
abbrev pub InHandler : Interaction → Program → List Bytes → Type 0
InHandler i ops vs = Sections heads (head_text i) case_text "method_id_name" ops vs

fire_and_forget_body-apart :
    (build : Build) (methods : List MethodDescriptor)
    → apart heads (fire_and_forget_dispatch build methods ++ handler_end) ≡ true
unfolding fire_and_forget_dispatch fire_and_forget_switch fire_and_forget_case
    fire_and_forget_default handler_end apart
fire_and_forget_body-apart build [] = refl
fire_and_forget_body-apart build (m ∷ methods) =
    apart-append heads
      (for_each (m ∷ methods) (fire_and_forget_case build) ++ fire_and_forget_default) handler_end
      (apart-append heads (for_each (m ∷ methods) (fire_and_forget_case build))
        fire_and_forget_default
        (apart-for_each heads (m ∷ methods) (fire_and_forget_case build) (λ method. ground arith))
        refl)
      refl

request_response_body-apart :
    (build : Build) (methods : List MethodDescriptor)
    → apart heads (request_response_dispatch build methods ++ handler_end) ≡ true
unfolding request_response_dispatch request_response_switch request_response_case
    request_response_default handler_end apart
request_response_body-apart build [] = refl
request_response_body-apart build (m ∷ methods) =
    apart-append heads
      (for_each (m ∷ methods) (request_response_case build) ++ request_response_default) handler_end
      (apart-append heads (for_each (m ∷ methods) (request_response_case build))
        request_response_default
        (apart-for_each heads (m ∷ methods) (request_response_case build) (λ method. ground arith))
        refl)
      refl

request_stream_body-apart :
    (build : Build) (methods : List MethodDescriptor)
    → apart heads (request_stream_dispatch build methods ++ handler_end) ≡ true
unfolding request_stream_dispatch request_stream_switch request_stream_case request_stream_default
    handler_end apart
request_stream_body-apart build [] = refl
request_stream_body-apart build (m ∷ methods) =
    apart-append heads
      (for_each (m ∷ methods) (request_stream_case build) ++ request_stream_default) handler_end
      (apart-append heads (for_each (m ∷ methods) (request_stream_case build))
        request_stream_default
        (apart-for_each heads (m ∷ methods) (request_stream_case build) (λ method. ground arith))
        refl)
      refl

request_channel_body-apart :
    (build : Build) (methods : List MethodDescriptor)
    → apart heads (request_channel_dispatch build methods ++ handler_end) ≡ true
unfolding request_channel_dispatch request_channel_switch request_channel_case
    request_channel_default handler_end apart
request_channel_body-apart build [] = refl
request_channel_body-apart build (m ∷ methods) =
    apart-append heads
      (for_each (m ∷ methods) (request_channel_case build) ++ request_channel_default) handler_end
      (apart-append heads (for_each (m ∷ methods) (request_channel_case build))
        request_channel_default
        (apart-for_each heads (m ∷ methods) (request_channel_case build) (λ method. ground arith))
        refl)
      refl

-- The first model's handler, seen by one who looks for the second model's.
pub handler-InHandler :
    (build : Build) (x i : Interaction) (methods : List MethodDescriptor)
    → InHandler i (handler build x methods) (
        if str_eq (head_text x) (head_text i)
        then map method_id_field_name (select x methods)
        else [])
unfolding apart fire_and_forget_handler fire_and_forget_start request_response_handler
    request_response_start request_stream_handler request_stream_start request_channel_handler
    request_channel_start values
handler-InHandler build fire_and_forget i methods =
    section (head_text fire_and_forget)
      (indented ∷ (fire_and_forget_dispatch build (group methods).fire_and_forget ++ handler_end))
      refl (fire_and_forget_body-apart build (group methods).fire_and_forget)
      (record { runs = λ vars. (handler-Yields build fire_and_forget methods).runs vars })
handler-InHandler build request_response i methods =
    section (head_text request_response)
      (indented ∷ (request_response_dispatch build (group methods).request_response ++ handler_end))
      refl (request_response_body-apart build (group methods).request_response)
      (record { runs = λ vars. (handler-Yields build request_response methods).runs vars })
handler-InHandler build request_stream i methods =
    section (head_text request_stream)
      (indented ∷ (request_stream_dispatch build (group methods).request_stream ++ handler_end))
      refl (request_stream_body-apart build (group methods).request_stream)
      (record { runs = λ vars. (handler-Yields build request_stream methods).runs vars })
handler-InHandler build request_channel i methods =
    section (head_text request_channel)
      (indented ∷ (request_channel_dispatch build (group methods).request_channel ++ handler_end))
      refl (request_channel_body-apart build (group methods).request_channel)
      (record { runs = λ vars. (handler-Yields build request_channel methods).runs vars })
