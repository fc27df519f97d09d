-- ===== src/Agree/Service.antt =====
-- The cases of the whole server, over the constants of the interface.
use mathlib.Core.List.{Perm, perm_middle}
use mathlib.Core.List.Perm
use proteus_java.Common.{List, [], ◌∷◌, ◌++◌, ◌≡◌, refl}
use proteus_java.Descriptor.{MethodDescriptor}
use proteus_java.Agree.{
  Interaction, fire_and_forget, request_response, request_stream, request_channel, interaction,
  select,
}

-- The methods, sorted by interaction model.
abbrev pub sorted : List MethodDescriptor → List MethodDescriptor
sorted methods =
    select fire_and_forget methods
    ++ (select request_response methods
        ++ (select request_stream methods ++ select request_channel methods))

-- The method in front moves into the group of its interaction model.
sorted-cons :
    (i : Interaction) (m : MethodDescriptor) (methods : List MethodDescriptor)
    → interaction m ≡ i
    → Perm (sorted (m ∷ methods)) (m ∷ sorted methods)
unfolding select
sorted-cons fire_and_forget m methods e = rw e Perm.rfl
sorted-cons request_response m methods e = rw e (perm_middle (select fire_and_forget methods) _)
sorted-cons request_stream m methods e = rw e (
    Perm.trans
      (Perm.append_left (select fire_and_forget methods)
        (perm_middle (select request_response methods) _))
      (perm_middle (select fire_and_forget methods) _))
sorted-cons request_channel m methods e = rw e (
    Perm.trans
      (Perm.append_left (select fire_and_forget methods) (
        Perm.trans
          (Perm.append_left (select request_response methods)
            (perm_middle (select request_stream methods) _))
          (perm_middle (select request_response methods) _)))
      (perm_middle (select fire_and_forget methods) _))

-- No method is lost and none is taken twice.
pub sorted-Perm : (methods : List MethodDescriptor) → Perm (sorted methods) methods
unfolding select
sorted-Perm [] = Perm.rfl
sorted-Perm (m ∷ methods) =
    Perm.trans (sorted-cons (interaction m) m methods refl) (Perm.cons m (sorted-Perm methods))
