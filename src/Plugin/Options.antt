-- ===== src/Plugin/Options.antt =====
-- What the options of the plugin set.
use proteus_java.Common.{
  Bool, true, false, ◌||◌, Bool-cases, inl, inr, List, [], ◌∷◌, ◌≡◌, refl, ap, ◌∙◌, arith,
  if◌then◌else◌, Bytes, codes,
}
use proteus_java.Generate.{ProtoFlavor, lite}
use proteus_java.Plugin.{same_bytes, Settings, read_option, read_options}

-- Some option has the key.
unfoldable pub given_option : Bytes → List (Bytes × Bytes) → Bool
given_option key [] = false
given_option key (option ∷ options) = same_bytes option.0 key || given_option key options

-- The two keys differ in their first letter.
one_key :
    (key : Bytes)
    → same_bytes key (codes "lite") ≡ true
    → same_bytes key (codes "noversion") ≡ false
unfolding same_bytes
one_key [] h = refl
one_key (c ∷ key) h = ground arith

either_way : (b : Bool) (flavor : ProtoFlavor) → (if b then flavor else flavor) ≡ flavor
either_way true flavor = refl
either_way false flavor = refl

or_true : (b : Bool) → b || true ≡ true
or_true true = refl
or_true false = refl

-- The settings once it is known which of the two keys are given.
abbrev pub with_keys : Bool → Bool → Settings → Settings
with_keys lite_given noversion_given settings = record {
  flavor = if lite_given then lite else settings.flavor;
  disable_version = noversion_given || settings.disable_version;
}

-- What one option does, where `rest` says of either key whether the ones behind it have it.
read_option-rest :
    (option : Bytes × Bytes) (settings : Settings) (rest_lite rest_noversion : Bool)
    → with_keys rest_lite rest_noversion (read_option settings option)
      ≡ with_keys
          (same_bytes option.0 (codes "lite") || rest_lite)
          (same_bytes option.0 (codes "noversion") || rest_noversion)
          settings
unfolding read_option
read_option-rest option settings rest_lite rest_noversion =
    elim (Bool-cases (same_bytes option.0 (codes "lite"))) [
      | inl e ↦
          rw (e, one_key option.0 e)
            (ap
              (λ (f : ProtoFlavor). record {
                flavor = f;
                disable_version = rest_noversion || settings.disable_version;
              })
              (either_way rest_lite lite))
      | inr e ↦ elim (Bool-cases (same_bytes option.0 (codes "noversion"))) [
        | inl e' ↦
            rw (e, e')
              (ap
                (λ (b : Bool). record {
                  flavor = if rest_lite then lite else settings.flavor;
                  disable_version = b;
                })
                (or_true rest_noversion))
        | inr e' ↦ rw (e, e') refl
      ]
    ]

-- The flavor becomes `lite` if some option has the key `lite`, and the version is left out if some
-- option has the key `noversion`, wherever the option stands and whatever its value is; all else
-- stays as it was.
pub read_options-given_option :
    (options : List (Bytes × Bytes)) (settings : Settings)
    → read_options options settings
      ≡ with_keys
          (given_option (codes "lite") options)
          (given_option (codes "noversion") options)
          settings
unfolding read_options given_option
read_options-given_option [] settings = refl
read_options-given_option (option ∷ options) settings =
    read_options-given_option options (read_option settings option)
    ∙ read_option-rest option settings (given_option (codes "lite") options)
        (given_option (codes "noversion") options)
