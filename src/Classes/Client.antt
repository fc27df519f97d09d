-- ===== src/Classes/Client.antt =====
-- What the file of `PrintClient` declares.
use proteus_java.Common.{Option-cases, Bool-cases, inl, inr, Bool, [], ◌∷◌, ◌++◌, refl, arith}
use proteus_java.Descriptor.{ServiceDescriptor, MethodDescriptor, Build}
use proteus_java.Emit.Values.{values, apart}
use proteus_java.Service.{assign_version, reassign_version}
use proteus_java.Ids.{client_class_name}
use proteus_java.Classes.{
  Declares, Undeclaring, undeclaring, ◌⊗◌, Undeclaring-for_each, behind_vars,
}
use proteus_java.Client.{
  client_vars, client_start, client_field, client_constructor_start, client_identity,
  client_constructor_end, client_metrics_start, client_timed, client_metrics_end, client_end,
  print_client,
}
use proteus_java.Client.Methods.{
  short_method, long_result, channel_start, channel_end, single_start, request_stream_body,
  request_response_body, fire_and_forget_body, single_request, single_end, channel_method,
  single_method, long_method, client_method,
}
use proteus_java.Client.Codec.{client_serialize, client_deserializer}

-- The declaration, with the variable that is set in front of it.
client_start-Declares :
    (build : Build) (off : Bool) (service : ServiceDescriptor)
    → Declares
        (client_vars build off service ++ client_start)
        []
        (client_class_name service ∷ [])
        []
unfolding client_vars client_start assign_version reassign_version values
client_start-Declares build off service = elim (Option-cases build.proteus_version) [
  | inl e ↦ record {
    as_interface = record { runs = λ vars. rw e refl };
    as_client = record { runs = λ vars. rw e refl };
    as_server = record { runs = λ vars. rw e refl };
  }
  | inr (number, e) ↦ elim (Bool-cases off) [
    | inl on ↦ record {
      as_interface = record { runs = λ vars. rw (e, on) refl };
      as_client = record { runs = λ vars. rw (e, on) refl };
      as_server = record { runs = λ vars. rw (e, on) refl };
    }
    | inr not_on ↦ record {
      as_interface = record { runs = λ vars. rw (e, not_on) refl };
      as_client = record { runs = λ vars. rw (e, not_on) refl };
      as_server = record { runs = λ vars. rw (e, not_on) refl };
    }
  ]
]

client_field-Undeclaring :
    (build : Build) (method : MethodDescriptor) → Undeclaring (client_field build method)
unfolding client_field apart
client_field-Undeclaring build method = undeclaring (client_field build method) (ground arith)

client_identity-Undeclaring : (method : MethodDescriptor) → Undeclaring (client_identity method)
unfolding client_identity apart
client_identity-Undeclaring method = undeclaring (client_identity method) refl

client_timed-Undeclaring : (method : MethodDescriptor) → Undeclaring (client_timed method)
unfolding client_timed apart
client_timed-Undeclaring method = undeclaring (client_timed method) refl

client_method-Undeclaring :
    (build : Build) (method : MethodDescriptor) → Undeclaring (client_method build method)
unfolding client_method short_method long_method channel_method single_method long_result
    channel_start channel_end single_start request_stream_body request_response_body
    fire_and_forget_body single_request single_end apart
client_method-Undeclaring build method = undeclaring (client_method build method) (ground arith)

pub print_client-Declares :
    (build : Build) (off : Bool) (service : ServiceDescriptor)
    → Declares (print_client build off service) [] (client_class_name service ∷ []) []
unfolding print_client client_constructor_start client_constructor_end client_metrics_start
    client_metrics_end client_serialize client_deserializer client_end apart
print_client-Declares build off service =
    behind_vars (client_vars build off service) client_start
      (client_start-Declares build off service)
      (Undeclaring-for_each service.methods (client_field build) (client_field-Undeclaring build)
        ⊗ undeclaring client_constructor_start refl
        ⊗ Undeclaring-for_each service.methods client_identity client_identity-Undeclaring
        ⊗ undeclaring client_constructor_end refl
        ⊗ undeclaring client_metrics_start refl
        ⊗ Undeclaring-for_each service.methods client_timed client_timed-Undeclaring
        ⊗ undeclaring client_metrics_end refl
        ⊗ Undeclaring-for_each service.methods (client_method build)
            (client_method-Undeclaring build)
        ⊗ undeclaring client_serialize refl
        ⊗ undeclaring client_deserializer refl
        ⊗ undeclaring client_end refl)
