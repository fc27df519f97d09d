-- ===== src/Client/Safe.antt =====
-- The variables and the indentation of `PrintClient`, part by part.
use proteus_java.Common.{String, List, Bool, [], ◌∷◌, refl, arith}
use proteus_java.Descriptor.{ServiceDescriptor, MethodDescriptor, Build}
use proteus_java.Emit.Printer.{depth_after}
use proteus_java.Emit.Template.{covered}
use proteus_java.Emit.Safe.{
  IsSafe, IsSafe-run, IsSafe-append, IsSafe-for_each, IsSafe-if, Moves, Moves-run, ◌⨾◌, ◌⊳◌, within,
  whole, assigned-IsSafe, Provides, provided,
}
use proteus_java.Service.Safe.{assign_version-Provides}
use proteus_java.Client.{
  client_vars, client_start, client_field, client_constructor_start, client_identity,
  client_constructor_end, client_metrics_start, client_timed, client_metrics_end, client_end,
  print_client,
}
use proteus_java.Client.Methods.{
  short_method, long_result, channel_start, channel_end, single_start, request_stream_body,
  request_response_body, fire_and_forget_body, single_request, single_end, channel_method,
  single_method, long_method, client_method,
}
use proteus_java.Client.Codec.{client_serialize, client_deserializer}

-- The variables that `GenerateClient` assigns.
abbrev pub given : List String
given =
    "Package" ∷ "Parser" ∷ "MessageLite" ∷ "MeterRegistry" ∷ "ProteusMetrics" ∷ "ProteusMetadata"
    ∷ "CodedOutputStream" ∷ "CodedInputStream" ∷ "ByteBuffer" ∷ "Unpooled" ∷ "ByteBufAllocator"
    ∷ "ByteBuf" ∷ "ByteBufPayload" ∷ "Payload" ∷ "RSocket" ∷ "Generated" ∷ "Publisher" ∷ "Override"
    ∷ "Supplier" ∷ "Function" ∷ "from" ∷ "Mono" ∷ "Flux" ∷ []

-- Those that `PrintClient` adds for the service.
abbrev own : List String
own =
    "proteus_version" ∷ "client_class_name" ∷ "file_name" ∷ "service_id_name" ∷ "namespace_id_name"
    ∷ "service_name" ∷ given

-- Those that it adds for a method.
abbrev of_method : List String
of_method = "method_id_name" ∷ "lower_method_name" ∷ "output_type" ∷ "input_type" ∷ own

client_vars-Provides :
    (build : Build) (off : Bool) (service : ServiceDescriptor)
    → Provides given (client_vars build off service) own
unfolding client_vars
client_vars-Provides build off service =
    provided (provided (provided (provided (provided (assign_version-Provides _ build off)))))

client_field-IsSafe :
    (build : Build) (method : MethodDescriptor) → IsSafe own (client_field build method)
unfolding client_field depth_after covered
client_field-IsSafe build method = IsSafe-run own (client_field build method) (λ d. ground arith)

client_identity-IsSafe : (method : MethodDescriptor) → IsSafe own (client_identity method)
unfolding client_identity depth_after covered
client_identity-IsSafe method = IsSafe-run own (client_identity method) (λ d. refl)

client_timed-IsSafe : (method : MethodDescriptor) → IsSafe own (client_timed method)
unfolding client_timed depth_after covered
client_timed-IsSafe method = IsSafe-run own (client_timed method) (λ d. refl)

short_method-IsSafe : (method : MethodDescriptor) → IsSafe of_method (short_method method)
unfolding short_method depth_after covered
short_method-IsSafe method = IsSafe-run of_method (short_method method) (λ d. ground arith)

long_result-IsSafe : (method : MethodDescriptor) → IsSafe of_method (long_result method)
unfolding long_result depth_after covered
long_result-IsSafe method = IsSafe-run of_method (long_result method) (λ d. ground arith)

channel_start-Moves : Moves of_method 0 channel_start 2
unfolding channel_start depth_after covered
channel_start-Moves = Moves-run of_method 0 2 channel_start (λ d. refl)

channel_end-Moves : (method : MethodDescriptor) → Moves of_method 2 (channel_end method) 0
unfolding channel_end depth_after covered
channel_end-Moves method = Moves-run of_method 2 0 (channel_end method) (λ d. ground arith)

single_request-IsSafe : (method : MethodDescriptor) → IsSafe of_method (single_request method)
unfolding single_request request_stream_body request_response_body fire_and_forget_body depth_after
    covered
single_request-IsSafe method =
    IsSafe-if of_method method.server_streaming _ _
      (IsSafe-run of_method request_stream_body (λ d. refl))
      (IsSafe-if of_method _ _ _ (IsSafe-run of_method request_response_body (λ d. refl))
        (IsSafe-run of_method fire_and_forget_body (λ d. refl)))

single_start-Moves : Moves of_method 0 single_start 1
unfolding single_start depth_after covered
single_start-Moves = Moves-run of_method 0 1 single_start (λ d. refl)

single_end-Moves : Moves of_method 1 single_end 0
unfolding single_end depth_after covered
single_end-Moves = Moves-run of_method 1 0 single_end (λ d. refl)

long_method-IsSafe : (method : MethodDescriptor) → IsSafe of_method (long_method method)
unfolding long_method channel_method single_method
long_method-IsSafe method = IsSafe-append of_method _ _ (long_result-IsSafe method) (
    IsSafe-if of_method method.client_streaming _ _
      (whole (channel_start-Moves ⨾ channel_end-Moves method))
      (whole (single_start-Moves ⨾ within (single_request-IsSafe method) ⨾ single_end-Moves)))

client_method-IsSafe :
    (build : Build) (method : MethodDescriptor) → IsSafe own (client_method build method)
unfolding client_method
client_method-IsSafe build method = assigned-IsSafe (
    assigned-IsSafe (
      assigned-IsSafe (
        assigned-IsSafe
          (IsSafe-append of_method _ _ (short_method-IsSafe method) (long_method-IsSafe method)))))

client_start-Moves : Moves own 0 client_start 1
unfolding client_start depth_after covered
client_start-Moves = Moves-run own 0 1 client_start (λ d. refl)

constructors_start-Moves :
    Moves own 1 client_constructor_start 2 × Moves own 1 client_metrics_start 2
unfolding client_constructor_start client_metrics_start depth_after covered
constructors_start-Moves = (
  Moves-run own 1 2 client_constructor_start (λ d. refl),
  Moves-run own 1 2 client_metrics_start (λ d. refl),
)

constructors_end-Moves : Moves own 2 client_constructor_end 1 × Moves own 2 client_metrics_end 1
unfolding client_constructor_end client_metrics_end depth_after covered
constructors_end-Moves = (
  Moves-run own 2 1 client_constructor_end (λ d. refl),
  Moves-run own 2 1 client_metrics_end (λ d. refl),
)

codec-IsSafe : IsSafe own client_serialize × IsSafe own client_deserializer
unfolding client_serialize client_deserializer depth_after covered
codec-IsSafe =
    (IsSafe-run own client_serialize (λ d. refl), IsSafe-run own client_deserializer (λ d. refl))

client_end-Moves : Moves own 1 client_end 0
unfolding client_end depth_after covered
client_end-Moves = Moves-run own 1 0 client_end (λ d. refl)

pub print_client-Moves :
    (build : Build) (off : Bool) (service : ServiceDescriptor)
    → Moves given 0 (print_client build off service) 0
unfolding print_client
print_client-Moves build off service =
    client_vars-Provides build off service
    ⊳ client_start-Moves
    ⨾ within (IsSafe-for_each own service.methods (client_field build) (client_field-IsSafe build))
    ⨾ constructors_start-Moves.0
    ⨾ within (IsSafe-for_each own service.methods client_identity client_identity-IsSafe)
    ⨾ constructors_end-Moves.0
    ⨾ constructors_start-Moves.1
    ⨾ within (IsSafe-for_each own service.methods client_timed client_timed-IsSafe)
    ⨾ constructors_end-Moves.1
    ⨾ within
        (IsSafe-for_each own service.methods (client_method build) (client_method-IsSafe build))
    ⨾ within codec-IsSafe.0
    ⨾ within codec-IsSafe.1
    ⨾ client_end-Moves
