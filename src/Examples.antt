-- ===== src/Examples.antt =====
-- A small service, its build and a printer that keeps the indentation alone.
mod Runs
mod Files
mod Parts
use mathlib.Core.List.{Perm}
use proteus_java.Common.{
  ℕ, zero, suc, ◌<◌, ◌≡◌, ◌≢◌, refl, true, false, Bool, Bool-cases, inl, inr, List, [], ◌∷◌, ◌++◌,
  map, Option, none, some, arith, if◌then◌else◌, String, Bytes, codes, All, for_each,
}
use mathlib.Core.List.{flatten}
use proteus_java.Descriptor.{
  SourceLocation, Descriptor, MethodDescriptor, FileDescriptor, ServiceDescriptor, Build,
}
use proteus_java.Emit.{Vars}
use proteus_java.Emit.Template.{covered, keys}
use proteus_java.Emit.Printer.{Printer}
use proteus_java.Emit.Values.{values}
use proteus_java.Names.{mixed_lower, to_all_upper_case, word_mod, hash}
use proteus_java.Names.Hash.{IsChar, hash_range, hash_one_byte}
use proteus_java.Ids.{lower_method_name, method_id_field_name, method_id, service_id, namespace_id}
use proteus_java.Ids.Number.{read_int, ids_read_back}
use proteus_java.Split.{is_delim, split}
use proteus_java.Split.Tokens.{tokens}
use proteus_java.Split.Agree.{IsPiece, kept, split-tokens, split_pieces}
use proteus_java.Javadoc.{
  escape_javadoc, get_doc_lines, write_service_doc_comment, write_method_doc_comment,
  write_doc_comment,
}
use proteus_java.Javadoc.Lines.{IsDocLine, get_doc_lines-IsDocLine}
use proteus_java.Javadoc.Comment.{texts, IsComment, comments_IsComment}
use proteus_java.Generate.{
  lite, normal, service_java_package, generate_interface, generate_client, generate_server,
}
use proteus_java.Generate.Package.{PackageOf, service_java_package-PackageOf}
use proteus_java.Emit.Braces.{braces}
use proteus_java.Generate.Braces.{generate_braces}
use proteus_java.Generate.Safe.{Completes, generate-Completes}
use proteus_java.Agree.{request_channel, request_text, case_text, constant_text}
use proteus_java.Agree.Server.{handler}
use proteus_java.Agree.Calls.{client_calls, server_cases, declared_constants}
use proteus_java.Plugin.{java_package_to_dir, read_options, generate}
use proteus_java.Plugin.Dir.{
  package_of_dir, java_package_to_dir-dotless, package_of_dir-java_package_to_dir,
}
use proteus_java.Plugin.Options.{with_keys, given_option, read_options-given_option}
use proteus_java.Plugin.FileNames.{
  client_file, last_byte, IsBase, last_byte-IsBase, service_files-apart,
}

abbrev pub hello_file : FileDescriptor
hello_file = record { name = codes "hello.proto"; package_name = codes "hello.v1" }

abbrev pub request_type : Descriptor
request_type = record { full_name = codes "hello.v1.Request"; field_count = 1 }

abbrev pub empty_type : Descriptor
empty_type = record { full_name = codes "hello.v1.Empty"; field_count = 0 }

abbrev pub get_user : MethodDescriptor
get_user = record {
  name = codes "GetUser";
  full_name = codes "hello.v1.Hello.GetUser";
  input_type = request_type;
  output_type = request_type;
  client_streaming = false;
  server_streaming = false;
  source_location =
      some (record { leading_comments = codes " ends */ <here>\n\n"; trailing_comments = [] });
}

abbrev pub log_event : MethodDescriptor
log_event = record {
  name = codes "log_event";
  full_name = codes "hello.v1.Hello.log_event";
  input_type = request_type;
  output_type = empty_type;
  client_streaming = false;
  server_streaming = false;
  source_location = none;
}

abbrev pub watch_all : MethodDescriptor
watch_all = record get_user { name = codes "WatchAll"; server_streaming = true }

abbrev pub chat_room : MethodDescriptor
chat_room = record get_user {
  name = codes "ChatRoom";
  client_streaming = true;
  server_streaming = true;
}

abbrev pub hello : ServiceDescriptor
hello = record {
  name = codes "Hello";
  file = hello_file;
  methods = chat_room ∷ get_user ∷ log_event ∷ watch_all ∷ [];
  source_location = none;
}

abbrev pub hello_build : Build
hello_build = record {
  class_name = λ type. type.full_name;
  file_class_name = λ file. codes "com.example.HelloOuterClass";
  proteus_version = some (codes "1.5");
}

-- A printer that keeps the indentation alone.
abbrev pub counter_write : Vars → String → ℕ → Option ℕ
counter_write vars text s = if covered text (keys vars) then some s else none

abbrev pub counter_outdent : ℕ → Option ℕ
counter_outdent zero = none
counter_outdent (suc s) = some s

pub counter_write-covered :
    (vars : Vars) (text : String) (s : ℕ)
    → covered text (keys vars) ≡ true
    → (t : ℕ) × (counter_write vars text s ≡ some t) × (t ≡ s)
counter_write-covered vars text s h = (s, (rw h refl), refl)

pub counter_outdent_depth : (s d : ℕ) → s ≡ suc d → (t : ℕ) × (counter_outdent s ≡ some t) × (t ≡ d)
counter_outdent_depth s d h = (d, (rw h refl), refl)

abbrev pub counter : Printer
counter = record {
  State = ℕ;
  write = counter_write;
  indent = λ s. suc s;
  outdent = counter_outdent;
  depth = λ s. s;
  write_covered = counter_write-covered;
  indent_depth = λ s. refl;
  outdent_depth = counter_outdent_depth;
}

-- The options of `--proteus_out=lite,noversion:out`, as protobuf splits them.
abbrev pub two_options : List (Bytes × Bytes)
two_options = (codes "lite", []) ∷ (codes "noversion", []) ∷ []
