-- ===== src/Service.antt =====
-- What `PrintInterface`, `PrintClient` and `PrintServer` have in common.
pub mod Safe
use proteus_java.Common.{Bool, true, false, Option, none, some, [], ◌++◌, ltb, Bytes, codes}
use proteus_java.Descriptor.{MethodDescriptor, Build}
use proteus_java.Emit.{Program, skip, assign, ◌>>◌}

-- `output_type->field_count() > 0`
abbrev pub has_fields : MethodDescriptor → Bool
has_fields method = ltb 0 method.output_type.field_count

-- The lines under `#ifdef PROTEUS_VERSION`: `none` if the macro is not defined.
unfoldable pub reassign_version : Option Bytes → Bool → Program
reassign_version none disable_version = skip
reassign_version (some number) true = skip
reassign_version (some number) false =
    assign "proteus_version" (codes " (version " ++ (number ++ codes ")"))

unfoldable pub assign_version : Build → Bool → Program
unfolding reassign_version
assign_version build disable_version = do
  assign "proteus_version" []
  reassign_version build.proteus_version disable_version
