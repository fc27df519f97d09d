-- ===== src/Agree/Class.antt =====
-- The whole class that `PrintServer` prints.
use proteus_java.Common.{
  str_eq, if◌then◌else◌, Bool, List, [], ◌∷◌, ◌++◌, map, append-nil, ◌≡◌, refl, ap, arith, Bytes,
}
use proteus_java.Descriptor.{ServiceDescriptor, MethodDescriptor, Build}
use proteus_java.Emit.{Program}
use proteus_java.Emit.Values.{apart, Yields, Yields-eq, ◌⋆◌, silent_each}
use proteus_java.Ids.{method_id_field_name}
use proteus_java.Service.{assign_version}
use proteus_java.Service.Safe.{reassign_version-apart}
use proteus_java.Agree.{
  Interaction, head_text, fire_and_forget, request_response, request_stream, request_channel,
  select, case_text, watched,
}
use proteus_java.Emit.Sections.{◌⊕◌, hushed, Sections-eq}
use proteus_java.Agree.Sections.{InHandler, handler-InHandler}
use proteus_java.Agree.Service.{sorted}
use proteus_java.Agree.Server.{no_case, handler-Yields, channel_publisher_handler-Yields}
use proteus_java.Server.{
  server_vars, server_start, server_field, server_constructor_start, server_identity,
  server_constructor_end, server_metrics_start, server_timed, server_metrics_end, server_ids,
  server_end, print_server,
}
use proteus_java.Server.Groups.{group}
use proteus_java.Server.Codec.{server_serializer, server_deserializer}

abbrev Quiet : Program → Type 0
Quiet ops = Yields case_text "method_id_name" ops []

server_vars-Yields :
    (build : Build) (off : Bool) (service : ServiceDescriptor)
    → Quiet (server_vars build off service)
unfolding server_vars assign_version apart
server_vars-Yields build off service =
    no_case (server_vars build off service)
      (reassign_version-apart watched build.proteus_version off)

server_field-Yields : (method : MethodDescriptor) → Quiet (server_field method)
unfolding server_field apart
server_field-Yields method = no_case (server_field method) (ground arith)

server_identity-Yields : (method : MethodDescriptor) → Quiet (server_identity method)
unfolding server_identity apart
server_identity-Yields method = no_case (server_identity method) refl

server_timed-Yields : (method : MethodDescriptor) → Quiet (server_timed method)
unfolding server_timed apart
server_timed-Yields method = no_case (server_timed method) refl

map-append :
    (f : MethodDescriptor → Bytes) (xs ys : List MethodDescriptor)
    → map f xs ++ map f ys ≡ map f (xs ++ ys)
map-append f [] ys = refl
map-append f (x ∷ xs) ys = ap (λ (t : List Bytes). f x ∷ t) (map-append f xs ys)

map-sorted :
    (f : MethodDescriptor → Bytes) (methods : List MethodDescriptor)
    → map f (select fire_and_forget methods)
        ++ (map f (select request_response methods)
            ++ (map f (select request_stream methods) ++ map f (select request_channel methods)))
      ≡ map f (sorted methods)
map-sorted f methods = rw (map-append, map-append, map-append) refl

-- The cases of the class, in the order of the handlers.
pub print_server-Yields :
    (build : Build) (off : Bool) (service : ServiceDescriptor)
    → Yields case_text "method_id_name"
        (print_server build off service)
        (map method_id_field_name (sorted service.methods))
unfolding print_server server_start server_constructor_start server_constructor_end
    server_metrics_start server_metrics_end server_ids server_serializer server_deserializer
    server_end apart
print_server-Yields build off service =
    Yields-eq (rw append-nil (map-sorted method_id_field_name service.methods)) (
      server_vars-Yields build off service
      ⋆ no_case server_start refl
      ⋆ silent_each service.methods server_field-Yields
      ⋆ no_case server_constructor_start refl
      ⋆ silent_each service.methods server_identity-Yields
      ⋆ no_case server_constructor_end refl
      ⋆ no_case server_metrics_start refl
      ⋆ silent_each service.methods server_timed-Yields
      ⋆ no_case server_metrics_end refl
      ⋆ no_case server_ids refl
      ⋆ handler-Yields build fire_and_forget service.methods
      ⋆ handler-Yields build request_response service.methods
      ⋆ handler-Yields build request_stream service.methods
      ⋆ handler-Yields build request_channel service.methods
      ⋆ channel_publisher_handler-Yields (group service.methods).request_channel
      ⋆ no_case server_serializer refl
      ⋆ no_case server_deserializer refl
      ⋆ no_case server_end refl)

-- The values of one model are found in its own handler alone.
one_handler :
    (i : Interaction) (f : Interaction → List Bytes)
    → (if str_eq (head_text fire_and_forget) (head_text i) then f fire_and_forget else [])
        ++ ((if str_eq (head_text request_response) (head_text i) then f request_response else [])
            ++ ((if str_eq (head_text request_stream) (head_text i) then f request_stream else [])
                ++ ((if str_eq (head_text request_channel) (head_text i)
                      then f request_channel
                      else [])
                    ++ [])))
      ≡ f i
one_handler fire_and_forget f = append-nil _
one_handler request_response f = append-nil _
one_handler request_stream f = append-nil _
one_handler request_channel f = append-nil _

-- The cases of the handler for one model, in the order of the methods.
pub print_server-InHandler :
    (build : Build) (i : Interaction) (off : Bool) (service : ServiceDescriptor)
    → InHandler i
        (print_server build off service)
        (map method_id_field_name (select i service.methods))
unfolding print_server server_start server_constructor_start server_constructor_end
    server_metrics_start server_metrics_end server_ids server_serializer server_deserializer
    server_end apart
print_server-InHandler build i off service =
    Sections-eq (one_handler i (λ x. map method_id_field_name (select x service.methods))) (
      hushed (server_vars-Yields build off service)
      ⊕ hushed (no_case server_start refl)
      ⊕ hushed (silent_each service.methods server_field-Yields)
      ⊕ hushed (no_case server_constructor_start refl)
      ⊕ hushed (silent_each service.methods server_identity-Yields)
      ⊕ hushed (no_case server_constructor_end refl)
      ⊕ hushed (no_case server_metrics_start refl)
      ⊕ hushed (silent_each service.methods server_timed-Yields)
      ⊕ hushed (no_case server_metrics_end refl)
      ⊕ hushed (no_case server_ids refl)
      ⊕ handler-InHandler build fire_and_forget i service.methods
      ⊕ handler-InHandler build request_response i service.methods
      ⊕ handler-InHandler build request_stream i service.methods
      ⊕ handler-InHandler build request_channel i service.methods
      ⊕ hushed (channel_publisher_handler-Yields (group service.methods).request_channel)
      ⊕ hushed (no_case server_serializer refl)
      ⊕ hushed (no_case server_deserializer refl)
      ⊕ hushed (no_case server_end refl))
