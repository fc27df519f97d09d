-- ===== src/Ids/JavaNames.antt =====
-- The names that a method and its constant have in Java.
use mathlib.Core.List.{head-eq_of_cons-eq}
use proteus_java.Common.{
  ℕ, Bool, true, false, ◌||◌, ◌&&◌, ◌≡◌, ◌≢◌, refl, List, [], ◌∷◌, ◌++◌, ◌==◌, Bytes, codes, String,
  All, arith,
}
use proteus_java.Descriptor.{MethodDescriptor, ServiceDescriptor}
use proteus_java.Names.{to_all_upper_case}
use proteus_java.Names.Case.{is_word, IsIdentifier, IsCapital, constant_name}
use proteus_java.Ids.{method_id_field_name, service_id_field_name, namespace_id_field_name}

-- The words that Java reserves, with its three literals.
abbrev pub reserved : List String
reserved =
    "abstract" ∷ "assert" ∷ "boolean" ∷ "break" ∷ "byte" ∷ "case" ∷ "catch" ∷ "char" ∷ "class"
    ∷ "const" ∷ "continue" ∷ "default" ∷ "do" ∷ "double" ∷ "else" ∷ "enum" ∷ "extends" ∷ "final"
    ∷ "finally" ∷ "float" ∷ "for" ∷ "goto" ∷ "if" ∷ "implements" ∷ "import" ∷ "instanceof" ∷ "int"
    ∷ "interface" ∷ "long" ∷ "native" ∷ "new" ∷ "package" ∷ "private" ∷ "protected" ∷ "public"
    ∷ "return" ∷ "short" ∷ "static" ∷ "strictfp" ∷ "super" ∷ "switch" ∷ "synchronized" ∷ "this"
    ∷ "throw" ∷ "throws" ∷ "transient" ∷ "try" ∷ "void" ∷ "volatile" ∷ "while" ∷ "_" ∷ "true"
    ∷ "false" ∷ "null" ∷ []

abbrev pub spelled : Bytes → Bytes → Bool
spelled [] [] = true
spelled (c ∷ w) (d ∷ v) = c == d && spelled w v
spelled _ _ = false

abbrev pub is_reserved : Bytes → List String → Bool
is_reserved w [] = false
is_reserved w (s ∷ ss) = spelled w (codes s) || is_reserved w ss

-- An identifier of Java, of ASCII letters, digits and underscores.
abbrev pub IsJavaIdentifier : Bytes → Type 0
IsJavaIdentifier w = IsIdentifier w × (is_reserved w reserved ≡ false)

other_start : (d : ℕ) (u v : Bytes) → b'M' ≢ d → b'M' ∷ u ≢ d ∷ v
other_start d u v ne e = ne (head-eq_of_cons-eq e)

capital_start : (w : Bytes) → is_reserved (codes "METHOD_" ++ w) reserved ≡ false
capital_start w = refl

-- If the method's name holds letters, digits and underscores alone, the constant with its number is
-- named by a Java identifier, which is no reserved word, has no small letter and is neither the
-- constant of the service nor that of the namespace.
pub java_constants :
    (method : MethodDescriptor) (service : ServiceDescriptor)
    → All (λ c. is_word c ≡ true) method.name
    → IsJavaIdentifier (method_id_field_name method)
      × All IsCapital (method_id_field_name method)
      × (method_id_field_name method ≢ service_id_field_name service)
      × (method_id_field_name method ≢ namespace_id_field_name service)
unfolding method_id_field_name service_id_field_name namespace_id_field_name
java_constants method service h =
    let (named, capital) = constant_name method.name h in
    (
      (named, capital_start (to_all_upper_case method.name)),
      capital,
      other_start b'S' _ _ (omega arith),
      other_start b'N' _ _ (omega arith),
    )
