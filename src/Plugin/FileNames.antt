-- ===== src/Plugin/FileNames.antt =====
-- The names of the files that `Generate` opens.
use mathlib.Core.List.{append_cancel_left, append_cancel_right}
use mathlib.Core.Option.{some-injective}
use proteus_java.Common.{
  ℕ, List, [], ◌∷◌, ◌++◌, Option, none, some, ◌≡◌, ◌≢◌, refl, sym, ap, ◌∙◌, arith, Bytes, codes,
}
use proteus_java.Descriptor.{ServiceDescriptor, Build}
use proteus_java.Ids.{client_class_name, server_class_name}
use proteus_java.Plugin.{Settings, OutputFile, service_files}

-- The three files of a service, in the order in which they are opened.
pub data Kind : Type 0 where
  interface_file client_file server_file : Kind

abbrev pub name_of : Kind → List OutputFile → Option Bytes
name_of k [] = none
name_of interface_file (f ∷ files) = some f.name
name_of client_file (f ∷ []) = none
name_of client_file (f ∷ g ∷ files) = some g.name
name_of server_file (f ∷ []) = none
name_of server_file (f ∷ g ∷ []) = none
name_of server_file (f ∷ g ∷ h ∷ files) = some h.name

-- A name that is no class name of a client or a server.
pub record IsBase (name : Bytes) : Type 0 where
  pub no_client : (p : Bytes) → ¬ (name ≡ p ++ codes "Client")
  pub no_server : (p : Bytes) → ¬ (name ≡ p ++ codes "Server")

-- The last byte, or 0.
unfoldable pub last_byte : Bytes → ℕ
last_byte [] = 0
last_byte (c ∷ []) = c
last_byte (c ∷ d ∷ s) = last_byte (d ∷ s)

last_byte-append : (p s : Bytes) (c : ℕ) → last_byte (p ++ c ∷ s) ≡ last_byte (c ∷ s)
unfolding last_byte
last_byte-append [] s c = refl
last_byte-append (x ∷ []) s c = refl
last_byte-append (x ∷ y ∷ p) s c = last_byte-append (y ∷ p) s c

different : ¬ (last_byte (codes "t") ≡ last_byte (codes "r"))
unfolding last_byte
different e = omega (arith, e)

client_no_server : (p q : Bytes) → ¬ (p ++ codes "Client" ≡ q ++ codes "Server")
unfolding last_byte
client_no_server p q e =
    let t =
      sym (last_byte-append p (codes "lient") b'C')
      ∙ ap last_byte e
      ∙ last_byte-append q (codes "erver") b'S' in
    different t

-- The last letter of a name rules both out.
pub last_byte-IsBase : (name : Bytes) → last_byte name ≢ b't' → last_byte name ≢ b'r' → IsBase name
unfolding last_byte
last_byte-IsBase name ht hr = record {
  no_client = λ p e. ht (ap last_byte e ∙ last_byte-append p (codes "lient") b'C');
  no_server = λ p e. hr (ap last_byte e ∙ last_byte-append p (codes "erver") b'S');
}

-- The class behind a file's name.
abbrev class_of : Kind → ServiceDescriptor → Bytes
class_of interface_file service = service.name
class_of client_file service = client_class_name service
class_of server_file service = server_class_name service

class_of-inj :
    (s t : ServiceDescriptor) (i j : Kind)
    → IsBase s.name
    → IsBase t.name
    → class_of i s ≡ class_of j t
    → (i ≡ j) × (s.name ≡ t.name)
unfolding client_class_name server_class_name
class_of-inj s t interface_file interface_file hs ht e = (refl, e)
class_of-inj s t interface_file client_file hs ht e = absurd (hs.no_client t.name e)
class_of-inj s t interface_file server_file hs ht e = absurd (hs.no_server t.name e)
class_of-inj s t client_file interface_file hs ht e = absurd (ht.no_client s.name (sym e))
class_of-inj s t client_file client_file hs ht e =
    (refl, append_cancel_right s.name t.name (codes "Client") e)
class_of-inj s t client_file server_file hs ht e = absurd (client_no_server s.name t.name e)
class_of-inj s t server_file interface_file hs ht e = absurd (ht.no_server s.name (sym e))
class_of-inj s t server_file client_file hs ht e = absurd (client_no_server t.name s.name (sym e))
class_of-inj s t server_file server_file hs ht e =
    (refl, append_cancel_right s.name t.name (codes "Server") e)

name_of-service_files :
    (build : Build) (settings : Settings) (dir : Bytes) (service : ServiceDescriptor) (k : Kind)
    → name_of k (service_files build settings dir service)
      ≡ some (dir ++ class_of k service ++ codes ".java")
unfolding service_files
name_of-service_files build settings dir service interface_file = refl
name_of-service_files build settings dir service client_file = refl
name_of-service_files build settings dir service server_file = refl

-- In one directory, two files of services whose names end neither in `Client` nor in `Server` have
-- the same name only if they are the same of the three files and the services have the same name.
pub service_files-apart :
    (build : Build) (settings : Settings) (dir : Bytes) (s t : ServiceDescriptor) (i j : Kind)
    → IsBase s.name
    → IsBase t.name
    → name_of i (service_files build settings dir s)
      ≡ name_of j (service_files build settings dir t)
    → (i ≡ j) × (s.name ≡ t.name)
service_files-apart build settings dir s t i j hs ht e =
    let same = some-injective _ _ (
      sym (name_of-service_files build settings dir s i)
      ∙ e
      ∙ name_of-service_files build settings dir t j) in
    class_of-inj s t i j hs ht
      (append_cancel_left dir _ _ (append_cancel_right _ _ (codes ".java") same))
