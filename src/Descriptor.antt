-- ===== src/Descriptor.antt =====
-- What the generator reads of a `.proto` file through protobuf's descriptors, and what it takes
-- from code outside the repository.
use proteus_java.Common.{ℕ, Bool, List, Option, Bytes}

pub record SourceLocation : Type 0 where
  pub leading_comments : Bytes
  pub trailing_comments : Bytes

-- A message type.
pub record Descriptor : Type 0 where
  pub full_name : Bytes
  pub field_count : ℕ

pub record MethodDescriptor : Type 0 where
  pub name : Bytes
  pub full_name : Bytes
  pub input_type : Descriptor
  pub output_type : Descriptor
  pub client_streaming : Bool
  pub server_streaming : Bool
  pub source_location : Option SourceLocation

pub record FileDescriptor : Type 0 where
  pub name : Bytes
  pub package_name : Bytes

pub record ServiceDescriptor : Type 0 where
  pub name : Bytes
  pub file : FileDescriptor
  pub methods : List MethodDescriptor
  pub source_location : Option SourceLocation

-- Two overloads of `google::protobuf::compiler::java::ClassName`, and the macro PROTEUS_VERSION
-- that the build may define.
pub record Build : Type 0 where
  pub class_name : Descriptor → Bytes
  pub file_class_name : FileDescriptor → Bytes
  pub proteus_version : Option Bytes
