-- ===== src/Server/Groups.antt =====
-- The four vectors into which `PrintServer` sorts the methods of a service.
use proteus_java.Common.{List, [], ◌∷◌, ◌++◌, if◌then◌else◌}
use proteus_java.Descriptor.{MethodDescriptor}
use proteus_java.Service.{has_fields}

pub record Groups : Type 0 where
  pub fire_and_forget : List MethodDescriptor
  pub request_response : List MethodDescriptor
  pub request_stream : List MethodDescriptor
  pub request_channel : List MethodDescriptor

-- One round of the loop; `push_back` puts the method at the end.
unfoldable pub classify : Groups → MethodDescriptor → Groups
classify g method =
    if method.client_streaming
    then record g { request_channel = g.request_channel ++ method ∷ [] }
    else if method.server_streaming
    then record g { request_stream = g.request_stream ++ method ∷ [] }
    else if has_fields method
    then record g { request_response = g.request_response ++ method ∷ [] }
    else record g { fire_and_forget = g.fire_and_forget ++ method ∷ [] }

unfoldable pub classify_all : List MethodDescriptor → Groups → Groups
classify_all [] g = g
classify_all (method ∷ methods) g = classify_all methods (classify g method)

unfoldable pub group : List MethodDescriptor → Groups
unfolding classify_all
group methods = classify_all methods (record {
  fire_and_forget = [];
  request_response = [];
  request_stream = [];
  request_channel = [];
})
