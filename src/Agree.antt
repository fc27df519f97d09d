-- ===== src/Agree.antt =====
-- The four interaction models of RSocket, as `PrintClient` and `PrintServer` choose among them.
pub mod Client
pub mod Groups
pub mod Server
pub mod Interface
pub mod Service
pub mod Sections
pub mod Class
pub mod Calls
use proteus_java.Common.{
  Bool, true, false, List, [], ◌∷◌, ◌++◌, map, ap, ◌≡◌, refl, Bool-cases, inl, inr, for_each,
  String, if◌then◌else◌, Bytes,
}
use proteus_java.Emit.Template.{has}
use proteus_java.Descriptor.{MethodDescriptor}
use proteus_java.Service.{has_fields}

pub data Interaction : Type 0 where
  fire_and_forget request_response request_stream request_channel : Interaction

-- What the `.proto` file says of a method decides it.
abbrev pub interaction : MethodDescriptor → Interaction
interaction method =
    if method.client_streaming
    then request_channel
    else if method.server_streaming
    then request_stream
    else if has_fields method
    then request_response
    else fire_and_forget

abbrev pub same : Interaction → Interaction → Bool
same fire_and_forget fire_and_forget = true
same request_response request_response = true
same request_stream request_stream = true
same request_channel request_channel = true
same _ _ = false

-- The methods with one interaction model, in the order of the service.
unfoldable pub select : Interaction → List MethodDescriptor → List MethodDescriptor
select i [] = []
select i (method ∷ methods) =
    let rest = select i methods in if same (interaction method) i then method ∷ rest else rest

-- The text with which the client calls RSocket.
abbrev pub request_text : Interaction → String
request_text fire_and_forget =
    "final int length = $ProteusMetadata$.computeLength();\n$ByteBuf$ metadataBuf = $ByteBufAllocator$.DEFAULT.directBuffer(length);\n$ProteusMetadata$.encode(metadataBuf, $service_name$.$namespace_id_name$, $service_name$.$service_id_name$, $service_name$.$method_id_name$, metadata);\n$ByteBuf$ data = serialize(message);\nreturn rSocket.fireAndForget($ByteBufPayload$.create(data, metadataBuf));\n"
request_text request_response =
    "final int length = $ProteusMetadata$.computeLength();\n$ByteBuf$ metadataBuf = $ByteBufAllocator$.DEFAULT.directBuffer(length);\n$ProteusMetadata$.encode(metadataBuf, $service_name$.$namespace_id_name$, $service_name$.$service_id_name$, $service_name$.$method_id_name$, metadata);\n$ByteBuf$ data = serialize(message);\nreturn rSocket.requestResponse($ByteBufPayload$.create(data, metadataBuf));\n"
request_text request_stream =
    "final int length = $ProteusMetadata$.computeLength();\n$ByteBuf$ metadataBuf = $ByteBufAllocator$.DEFAULT.directBuffer(length);\n$ProteusMetadata$.encode(metadataBuf, $service_name$.$namespace_id_name$, $service_name$.$service_id_name$, $service_name$.$method_id_name$, metadata);\n$ByteBuf$ data = serialize(message);\nreturn rSocket.requestStream($ByteBufPayload$.create(data, metadataBuf));\n"
request_text request_channel = "return rSocket.requestChannel($Flux$.$from$(messages).map(\n"

-- The text with which the client encodes the metadata of a call: for a channel a text of its own, in
-- the function that wraps the messages, and else the text of the call.
abbrev pub metadata_text : Interaction → String
metadata_text fire_and_forget = request_text fire_and_forget
metadata_text request_response = request_text request_response
metadata_text request_stream = request_text request_stream
metadata_text request_channel =
    "final int length = $ProteusMetadata$.computeLength();\nfinal $ByteBuf$ metadataBuf = $ByteBufAllocator$.DEFAULT.directBuffer(length);\n$ProteusMetadata$.encode(metadataBuf, $service_name$.$namespace_id_name$, $service_name$.$service_id_name$, $service_name$.$method_id_name$, metadata);\nreturn $ByteBufPayload$.create(data, metadataBuf);\n"

-- The text that opens a case of a handler, and the text that declares the constant of a method.
abbrev pub case_text : String
case_text = "case $service_name$.$method_id_name$: {\n"

abbrev pub constant_text : String
constant_text = "int $method_id_name$ = $method_id$;\n"

-- The texts that are looked for.
abbrev pub watched : List String
watched =
    request_text fire_and_forget
    ∷ request_text request_response
    ∷ request_text request_stream
    ∷ request_text request_channel
    ∷ metadata_text request_channel
    ∷ case_text
    ∷ constant_text
    ∷ []

pub request_watched : (i : Interaction) → has (request_text i) watched ≡ true
request_watched fire_and_forget = refl
request_watched request_response = refl
request_watched request_stream = refl
request_watched request_channel = refl

pub metadata_watched : (i : Interaction) → has (metadata_text i) watched ≡ true
metadata_watched fire_and_forget = refl
metadata_watched request_response = refl
metadata_watched request_stream = refl
metadata_watched request_channel = refl

-- The text that opens the handler for one interaction model.
abbrev pub head_text : Interaction → String
head_text fire_and_forget = "@$Override$\npublic $Mono$<Void> fireAndForget($Payload$ payload) {\n"
head_text request_response =
    "@$Override$\npublic $Mono$<$Payload$> requestResponse($Payload$ payload) {\n"
head_text request_stream =
    "@$Override$\npublic $Flux$<$Payload$> requestStream($Payload$ payload) {\n"
head_text request_channel =
    "@$Override$\npublic $Flux$<$Payload$> requestChannel($Payload$ payload, $Flux$<$Payload$> publisher) {\n"

-- The texts that open the handlers, the second one for channels included.
abbrev pub heads : List String
heads =
    head_text fire_and_forget
    ∷ head_text request_response
    ∷ head_text request_stream
    ∷ head_text request_channel
    ∷ "@$Override$\npublic $Flux$<$Payload$> requestChannel($Publisher$<$Payload$> payloads) {\n"
    ∷ []

-- One method's part of `select`.
pub for_each-select :
    (i : Interaction) (f : MethodDescriptor → Bytes) (methods : List MethodDescriptor)
    → for_each methods (λ m. if same (interaction m) i then f m ∷ [] else [])
      ≡ map f (select i methods)
unfolding select
for_each-select i f [] = refl
for_each-select i f (method ∷ methods) = elim (Bool-cases (same (interaction method) i)) [
  | inl e ↦ rw e (ap (λ (t : List Bytes). f method ∷ t) (for_each-select i f methods))
  | inr e ↦ rw e (for_each-select i f methods)
]

pub for_each-map :
    (f : MethodDescriptor → Bytes) (methods : List MethodDescriptor)
    → for_each methods (λ m. f m ∷ []) ≡ map f methods
for_each-map f [] = refl
for_each-map f (method ∷ methods) = ap (λ (t : List Bytes). f method ∷ t) (for_each-map f methods)
