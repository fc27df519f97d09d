-- ===== src/Ids.antt =====
-- The names and numbers of a service and its methods in the generated Java: the small functions of
-- `compiler/src/java_plugin/cpp/java_generator.cpp` over the descriptors.
pub mod Number
pub mod JavaNames
use proteus_java.Common.{
  ℕ, zero, suc, ◌+◌, ◌-◌, ◌/◌, ◌%◌, ◌^◌, [], ◌∷◌, ◌++◌, ltb, if◌then◌else◌, Bytes, codes,
}
use proteus_java.Descriptor.{Descriptor, MethodDescriptor, ServiceDescriptor, Build}
use proteus_java.Names.{mixed_lower, to_all_upper_case, hash, word_mod}

-- The decimal digits of a number, at most as many as the fuel.
unfoldable pub digits_up_to : ℕ → ℕ → Bytes
digits_up_to zero n = []
digits_up_to (suc fuel) n =
    let front = digits_up_to fuel (n / 10) in
    (if ltb n 10 then [] else front) ++ (b'0' + n % 10) ∷ []

-- Ten digits hold every 32-bit number.
unfoldable pub decimal : ℕ → Bytes
unfolding digits_up_to
decimal n = digits_up_to 10 n

-- `std::to_string(int32_t)` of a bit pattern.
unfoldable pub to_string : ℕ → Bytes
to_string word = if ltb word (2 ^ 31) then decimal word else b'-' ∷ decimal (word_mod - word)

unfoldable pub lower_method_name : MethodDescriptor → Bytes
lower_method_name method = mixed_lower method.name

unfoldable pub method_id_field_name : MethodDescriptor → Bytes
method_id_field_name method = codes "METHOD_" ++ to_all_upper_case method.name

unfoldable pub method_id : MethodDescriptor → Bytes
method_id method = to_string (hash method.full_name)

unfoldable pub message_full_java_name : Build → Descriptor → Bytes
message_full_java_name build desc = build.class_name desc

unfoldable pub service_id_field_name : ServiceDescriptor → Bytes
service_id_field_name service = codes "SERVICE_ID"

unfoldable pub service_id : ServiceDescriptor → Bytes
service_id service = to_string (hash service.name)

unfoldable pub namespace_id_field_name : ServiceDescriptor → Bytes
namespace_id_field_name service = codes "NAMESPACE_ID"

unfoldable pub namespace_id : ServiceDescriptor → Bytes
namespace_id service = to_string (hash service.file.package_name)

unfoldable pub client_class_name : ServiceDescriptor → Bytes
client_class_name service = service.name ++ codes "Client"

unfoldable pub server_class_name : ServiceDescriptor → Bytes
server_class_name service = service.name ++ codes "Server"
