-- ===== src/Agree/Groups.antt =====
-- The four vectors of `PrintServer`, compared with the interaction models of the methods.
use proteus_java.Common.{
  Bool-cases, inl, inr, List, [], ◌∷◌, ◌++◌, append-nil, append_assoc, ◌≡◌, ◌∙◌,
}
use proteus_java.Descriptor.{MethodDescriptor}
use proteus_java.Service.{has_fields}
use proteus_java.Server.Groups.{Groups, classify, classify_all, group}
use proteus_java.Agree.{fire_and_forget, request_response, request_stream, request_channel, select}

-- The loop over the methods keeps, in each vector, the methods of one interaction model.
abbrev sorted_behind : Groups → List MethodDescriptor → Groups
sorted_behind g methods = record {
  fire_and_forget = g.fire_and_forget ++ select fire_and_forget methods;
  request_response = g.request_response ++ select request_response methods;
  request_stream = g.request_stream ++ select request_stream methods;
  request_channel = g.request_channel ++ select request_channel methods;
}

sorted_behind-classify :
    (g : Groups) (m : MethodDescriptor) (methods : List MethodDescriptor)
    → sorted_behind (classify g m) methods ≡ sorted_behind g (m ∷ methods)
unfolding classify select
sorted_behind-classify g m methods = elim (Bool-cases m.client_streaming) [
  | inl e ↦ rw (e, append_assoc)
  | inr e ↦ elim (Bool-cases m.server_streaming) [
    | inl e' ↦ rw (e, e', append_assoc)
    | inr e' ↦ elim (Bool-cases (has_fields m)) [
      | inl f ↦ rw (e, e', f, append_assoc)
      | inr f ↦ rw (e, e', f, append_assoc)
    ]
  ]
]

classify_all-select :
    (methods : List MethodDescriptor) (g : Groups)
    → classify_all methods g ≡ sorted_behind g methods
unfolding classify_all select
classify_all-select [] g = simp append-nil
classify_all-select (m ∷ methods) g =
    classify_all-select methods (classify g m) ∙ sorted_behind-classify g m methods

-- Each vector holds the methods of its interaction model, in the order of the service.
pub group-select :
    (methods : List MethodDescriptor)
    → group methods ≡ record {
      fire_and_forget = select fire_and_forget methods;
      request_response = select request_response methods;
      request_stream = select request_stream methods;
      request_channel = select request_channel methods;
    }
unfolding group
group-select methods = classify_all-select methods _
