-- ===== src/Emit.antt =====
-- What the generator does to the two objects that it holds: the variable map
-- (`std::map<string, string>* vars`) and the printer (`google::protobuf::io::Printer* p`).
-- Neither ever answers the generator, so a printing function is the list of its effects.
pub mod Template
pub mod Printer
pub mod Safe
pub mod Values
pub mod Sections
pub mod Mute
pub mod Braces
use proteus_java.Common.{
  String, List, [], ◌∷◌, ◌++◌, Option, none, some, str_eq, if◌then◌else◌, Bytes,
}

-- The variable map, the latest assignment first.
abbrev pub Vars : Type 0
Vars = List (String × Bytes)

abbrev pub lookup : String → Vars → Option Bytes
lookup k [] = none
lookup k ((j, v) ∷ vars) = if str_eq j k then some v else lookup k vars

pub data Op : Type 0 where
  assigned : String → Bytes → Op
  printed : String → Op
  printed_text : String → Op
  printed_with : String → String → Bytes → Op
  indented outdented : Op

abbrev pub Program : Type 0
Program = List Op

infixr 5 ◌>>◌
abbrev pub ◌>>◌ : Program → Program → Program
a >> b = a ++ b

abbrev pub skip : Program
skip = []

-- `(*vars)[key] = value`
abbrev pub assign : String → Bytes → Program
assign key value = assigned key value ∷ []

-- `p->Print(*vars, text)`
abbrev pub print : String → Program
print text = printed text ∷ []

-- `p->Print(text)`
abbrev pub print_text : String → Program
print_text text = printed_text text ∷ []

-- `p->Print(text, key, value)`
abbrev pub print_with : String → String → Bytes → Program
print_with text key value = printed_with text key value ∷ []

-- `p->Indent()`
abbrev pub indent : Program
indent = indented ∷ []

-- `p->Outdent()`
abbrev pub outdent : Program
outdent = outdented ∷ []
