-- ===== src/Classes.antt =====
-- The Java interface or class that a file declares.
pub mod Interface
pub mod Client
pub mod Server
pub mod Files
use proteus_java.Common.{
  String, Bool, true, List, [], ◌∷◌, ◌++◌, append_assoc, ◌≡◌, refl, subst, Bytes, for_each,
}
use proteus_java.Emit.{Program}
use proteus_java.Emit.Values.{values, apart, Yields, silent, ◌⋆◌}
use proteus_java.Emit.Sections.{apart-append, apart-for_each}

-- The texts that declare an interface, a client class and a server class.
abbrev pub interface_text : String
interface_text =
    "@$Generated$(\n    value = \"by Proteus proto compiler$proteus_version$\",\n    comments = \"Source: $file_name$\")\npublic interface $service_name$ {\n"

abbrev pub client_text : String
client_text =
    "@$Generated$(\n    value = \"by Proteus proto compiler$proteus_version$\",\n    comments = \"Source: $file_name$\")\npublic final class $client_class_name$ implements $service_name$ {\n"

abbrev pub server_text : String
server_text =
    "@$Generated$(\n    value = \"by Proteus proto compiler$proteus_version$\",\n    comments = \"Source: $file_name$\")\npublic final class $server_class_name$ extends $AbstractProteusService$ {\n"

-- What a reader of a file finds declared in it.
abbrev pub declared : Program → List Bytes
declared ops =
    values interface_text "service_name" [] ops
    ++ (values client_text "client_class_name" [] ops
        ++ values server_text "server_class_name" [] ops)

abbrev pub class_texts : List String
class_texts = interface_text ∷ client_text ∷ server_text ∷ []

-- The names that effects declare, in each of the three ways and in their order.
pub record Declares (ops : Program) (interfaces clients servers : List Bytes) : Type 0 where
  pub as_interface : Yields interface_text "service_name" ops interfaces
  pub as_client : Yields client_text "client_class_name" ops clients
  pub as_server : Yields server_text "server_class_name" ops servers

-- Effects that declare nothing.
pub record Undeclaring (ops : Program) : Type 0 where
  none_declared : apart class_texts ops ≡ true

pub undeclaring : (ops : Program) → apart class_texts ops ≡ true → Undeclaring ops
undeclaring ops h = record { none_declared = h }

infixr 5 ◌⊗◌ ◌⊙◌
pub ◌⊗◌ : {xs ys : Program} → Undeclaring xs → Undeclaring ys → Undeclaring (xs ++ ys)
◌⊗◌ {xs} {ys} hx hy = record {
  none_declared = apart-append class_texts xs ys hx.none_declared hy.none_declared;
}

pub Undeclaring-for_each {ℓ} :
    {A : Type ℓ} (xs : List A) (body : A → Program)
    → ((x : A) → Undeclaring (body x))
    → Undeclaring (for_each xs body)
Undeclaring-for_each xs body h = record {
  none_declared = apart-for_each class_texts xs body (λ x. (h x).none_declared);
}

pub Undeclaring-Declares : {ops : Program} → Undeclaring ops → Declares ops [] [] []
Undeclaring-Declares {ops} h = record {
  as_interface = silent class_texts ops refl h.none_declared;
  as_client = silent class_texts ops refl h.none_declared;
  as_server = silent class_texts ops refl h.none_declared;
}

pub ◌⊙◌ :
    {xs ys : Program} {i c s j d t : List Bytes}
    → Declares xs i c s
    → Declares ys j d t
    → Declares (xs ++ ys) (i ++ j) (c ++ d) (s ++ t)
◌⊙◌ hx hy = record {
  as_interface = hx.as_interface ⋆ hy.as_interface;
  as_client = hx.as_client ⋆ hy.as_client;
  as_server = hx.as_server ⋆ hy.as_server;
}

-- A declaration that needs the variables in front of it, and what follows.
pub behind_vars :
    (vars start : Program) {rest : Program} {i c s : List Bytes}
    → Declares (vars ++ start) i c s
    → Undeclaring rest
    → Declares (vars ++ (start ++ rest)) (i ++ []) (c ++ []) (s ++ [])
behind_vars vars start {rest} {i} {c} {s} h r =
    subst (λ (ops : Program). Declares ops (i ++ []) (c ++ []) (s ++ []))
      (append_assoc vars start rest) (h ⊙ Undeclaring-Declares r)
