-- ===== src/Client/Braces.antt =====
-- The curly braces of `PrintClient`, part by part.
use proteus_java.Common.{Option-cases, Bool-cases, inl, inr, Bool, refl, arith}
use proteus_java.Descriptor.{ServiceDescriptor, MethodDescriptor, Build}
use proteus_java.Emit.Braces.{braces, Nests, Nests-run, Nests-for_each, Nests-if, ◌⨟◌, inside}
use proteus_java.Service.{assign_version, reassign_version}
use proteus_java.Client.{
  client_vars, client_start, client_field, client_constructor_start, client_identity,
  client_constructor_end, client_metrics_start, client_timed, client_metrics_end, client_end,
  print_client,
}
use proteus_java.Client.Methods.{
  short_method, long_result, channel_start, channel_end, single_start, request_stream_body,
  request_response_body, fire_and_forget_body, single_request, single_end, channel_method,
  single_method, long_method, client_method,
}
use proteus_java.Client.Codec.{client_serialize, client_deserializer}

client_vars-Nests :
    (build : Build) (off : Bool) (service : ServiceDescriptor)
    → Nests 0 (client_vars build off service) 0
unfolding client_vars assign_version reassign_version braces
client_vars-Nests build off service = elim (Option-cases build.proteus_version) [
  | inl e ↦ Nests-run 0 0 (client_vars build off service) (λ d. rw e refl)
  | inr (number, e) ↦ elim (Bool-cases off) [
    | inl on ↦ Nests-run 0 0 (client_vars build off service) (λ d. rw (e, on) refl)
    | inr not_on ↦ Nests-run 0 0 (client_vars build off service) (λ d. rw (e, not_on) refl)
  ]
]

client_field-Nests :
    (build : Build) (method : MethodDescriptor) → Nests 0 (client_field build method) 0
unfolding client_field braces
client_field-Nests build method = Nests-run 0 0 (client_field build method) (λ d. ground arith)

client_identity-Nests : (method : MethodDescriptor) → Nests 0 (client_identity method) 0
unfolding client_identity braces
client_identity-Nests method = Nests-run 0 0 (client_identity method) (λ d. refl)

client_timed-Nests : (method : MethodDescriptor) → Nests 0 (client_timed method) 0
unfolding client_timed braces
client_timed-Nests method = Nests-run 0 0 (client_timed method) (λ d. refl)

short_method-Nests : (method : MethodDescriptor) → Nests 0 (short_method method) 0
unfolding short_method braces
short_method-Nests method = Nests-run 0 0 (short_method method) (λ d. ground arith)

long_result-Nests : (method : MethodDescriptor) → Nests 0 (long_result method) 0
unfolding long_result braces
long_result-Nests method = Nests-run 0 0 (long_result method) (λ d. ground arith)

channel_start-Nests : Nests 0 channel_start 2
unfolding channel_start braces
channel_start-Nests = Nests-run 0 2 channel_start (λ d. refl)

channel_end-Nests : (method : MethodDescriptor) → Nests 2 (channel_end method) 0
unfolding channel_end braces
channel_end-Nests method = Nests-run 2 0 (channel_end method) (λ d. ground arith)

single_request-Nests : (method : MethodDescriptor) → Nests 0 (single_request method) 0
unfolding single_request request_stream_body request_response_body fire_and_forget_body braces
single_request-Nests method =
    Nests-if method.server_streaming _ _ (Nests-run 0 0 request_stream_body (λ d. refl)) (
      Nests-if _ _ _ (Nests-run 0 0 request_response_body (λ d. refl))
        (Nests-run 0 0 fire_and_forget_body (λ d. refl)))

single_start-Nests : Nests 0 single_start 1
unfolding single_start braces
single_start-Nests = Nests-run 0 1 single_start (λ d. refl)

single_end-Nests : Nests 1 single_end 0
unfolding single_end braces
single_end-Nests = Nests-run 1 0 single_end (λ d. refl)

long_method-Nests : (method : MethodDescriptor) → Nests 0 (long_method method) 0
unfolding long_method channel_method single_method
long_method-Nests method =
    long_result-Nests method
    ⨟ Nests-if method.client_streaming _ _ (channel_start-Nests ⨟ channel_end-Nests method)
        (single_start-Nests ⨟ inside (single_request-Nests method) ⨟ single_end-Nests)

client_method-Nests :
    (build : Build) (method : MethodDescriptor) → Nests 0 (client_method build method) 0
unfolding client_method braces
client_method-Nests build method = record {
  runs = λ d. (short_method-Nests method ⨟ long_method-Nests method).runs d;
}

client_start-Nests : Nests 0 client_start 1
unfolding client_start braces
client_start-Nests = Nests-run 0 1 client_start (λ d. refl)

constructors_start-Nests : Nests 1 client_constructor_start 2 × Nests 1 client_metrics_start 2
unfolding client_constructor_start client_metrics_start braces
constructors_start-Nests = (
  Nests-run 1 2 client_constructor_start (λ d. refl),
  Nests-run 1 2 client_metrics_start (λ d. refl),
)

constructors_end-Nests : Nests 2 client_constructor_end 1 × Nests 2 client_metrics_end 1
unfolding client_constructor_end client_metrics_end braces
constructors_end-Nests =
    (Nests-run 2 1 client_constructor_end (λ d. refl), Nests-run 2 1 client_metrics_end (λ d. refl))

codec-Nests : Nests 0 client_serialize 0 × Nests 0 client_deserializer 0
unfolding client_serialize client_deserializer braces
codec-Nests =
    (Nests-run 0 0 client_serialize (λ d. refl), Nests-run 0 0 client_deserializer (λ d. refl))

client_end-Nests : Nests 1 client_end 0
unfolding client_end braces
client_end-Nests = Nests-run 1 0 client_end (λ d. refl)

pub print_client-Nests :
    (build : Build) (off : Bool) (service : ServiceDescriptor)
    → Nests 0 (print_client build off service) 0
unfolding print_client
print_client-Nests build off service =
    client_vars-Nests build off service
    ⨟ client_start-Nests
    ⨟ inside (Nests-for_each service.methods (client_field build) (client_field-Nests build))
    ⨟ constructors_start-Nests.0
    ⨟ inside (Nests-for_each service.methods client_identity client_identity-Nests)
    ⨟ constructors_end-Nests.0
    ⨟ constructors_start-Nests.1
    ⨟ inside (Nests-for_each service.methods client_timed client_timed-Nests)
    ⨟ constructors_end-Nests.1
    ⨟ inside (Nests-for_each service.methods (client_method build) (client_method-Nests build))
    ⨟ inside codec-Nests.0
    ⨟ inside codec-Nests.1
    ⨟ client_end-Nests
