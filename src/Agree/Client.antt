-- ===== src/Agree/Client.antt =====
-- What `PrintClient` prints to call RSocket.
use proteus_java.Common.{
  String, Bool, true, [], ◌∷◌, map, append-nil, ◌≡◌, refl, ◌∙◌, arith, if◌then◌else◌,
}
use proteus_java.Descriptor.{ServiceDescriptor, MethodDescriptor, Build}
use proteus_java.Emit.{Program}
use proteus_java.Emit.Template.{has}
use proteus_java.Emit.Values.{
  values, apart, Yields, Yields-for_each, Yields-eq, ◌⋆◌, silent, silent_each,
}
use proteus_java.Ids.{method_id_field_name}
use proteus_java.Service.{assign_version}
use proteus_java.Service.Safe.{reassign_version-apart}
use proteus_java.Agree.{
  Interaction, fire_and_forget, request_response, request_stream, request_channel, interaction,
  same, select, request_text, metadata_text, watched, for_each-select,
}
use proteus_java.Client.{
  client_vars, client_start, client_field, client_constructor_start, client_identity,
  client_constructor_end, client_metrics_start, client_timed, client_metrics_end, client_end,
  print_client,
}
use proteus_java.Client.Methods.{
  short_method, long_result, channel_start, channel_end, single_start, request_stream_body,
  request_response_body, fire_and_forget_body, single_request, single_end, channel_method,
  single_method, long_method, client_method,
}
use proteus_java.Client.Codec.{client_serialize, client_deserializer}

-- One method is called in one way, with its own constant.
pub client_method-calls :
    (build : Build) (i : Interaction) (method : MethodDescriptor)
    → Yields
        (request_text i)
        "method_id_name"
        (client_method build method)
        (if same (interaction method) i then method_id_field_name method ∷ [] else [])
unfolding client_method short_method long_method channel_method single_method long_result
    channel_start channel_end single_start request_stream_body request_response_body
    fire_and_forget_body single_request single_end values
client_method-calls build fire_and_forget method = record { runs = λ vars. ground arith }
client_method-calls build request_response method = record { runs = λ vars. ground arith }
client_method-calls build request_stream method = record { runs = λ vars. ground arith }
client_method-calls build request_channel method = record { runs = λ vars. ground arith }

-- And with its own constant in the metadata.
pub client_method-metadata :
    (build : Build) (i : Interaction) (method : MethodDescriptor)
    → Yields
        (metadata_text i)
        "method_id_name"
        (client_method build method)
        (if same (interaction method) i then method_id_field_name method ∷ [] else [])
unfolding client_method short_method long_method channel_method single_method long_result
    channel_start channel_end single_start request_stream_body request_response_body
    fire_and_forget_body single_request single_end values
client_method-metadata build fire_and_forget method = record { runs = λ vars. ground arith }
client_method-metadata build request_response method = record { runs = λ vars. ground arith }
client_method-metadata build request_stream method = record { runs = λ vars. ground arith }
client_method-metadata build request_channel method = record { runs = λ vars. ground arith }

module _ (i : Interaction) (text : String) (h : has text watched ≡ true) where
  -- A part that never calls RSocket.
  no_call : (ops : Program) → apart watched ops ≡ true → Yields text "method_id_name" ops []
  no_call ops a = silent watched ops h a

  client_vars-Yields :
      (build : Build) (off : Bool) (service : ServiceDescriptor)
      → Yields text "method_id_name" (client_vars build off service) []
  unfolding client_vars assign_version apart
  client_vars-Yields build off service =
      no_call (client_vars build off service)
        (reassign_version-apart watched build.proteus_version off)

  client_field-Yields :
      (build : Build) (method : MethodDescriptor)
      → Yields text "method_id_name" (client_field build method) []
  unfolding client_field apart
  client_field-Yields build method = no_call (client_field build method) (ground arith)

  client_identity-Yields :
      (method : MethodDescriptor) → Yields text "method_id_name" (client_identity method) []
  unfolding client_identity apart
  client_identity-Yields method = no_call (client_identity method) refl

  client_timed-Yields :
      (method : MethodDescriptor) → Yields text "method_id_name" (client_timed method) []
  unfolding client_timed apart
  client_timed-Yields method = no_call (client_timed method) refl

  -- What each method yields, for the whole class and in the order of the methods.
  pub print_client-Yields :
      (build : Build)
      → ((method : MethodDescriptor)
          → Yields text "method_id_name"
              (client_method build method)
              (if same (interaction method) i then method_id_field_name method ∷ [] else []))
      → (off : Bool) (service : ServiceDescriptor)
      → Yields text "method_id_name"
          (print_client build off service)
          (map method_id_field_name (select i service.methods))
  unfolding print_client client_start client_constructor_start client_constructor_end
      client_metrics_start client_metrics_end client_serialize client_deserializer client_end apart
  print_client-Yields build called off service =
      Yields-eq (append-nil _ ∙ for_each-select i method_id_field_name service.methods) (
        client_vars-Yields build off service
        ⋆ no_call client_start refl
        ⋆ silent_each service.methods (client_field-Yields build)
        ⋆ no_call client_constructor_start refl
        ⋆ silent_each service.methods client_identity-Yields
        ⋆ no_call client_constructor_end refl
        ⋆ no_call client_metrics_start refl
        ⋆ silent_each service.methods client_timed-Yields
        ⋆ no_call client_metrics_end refl
        ⋆ Yields-for_each service.methods called
        ⋆ no_call client_serialize refl
        ⋆ no_call client_deserializer refl
        ⋆ no_call client_end refl)
