-- ===== src/Transform/Registry.antt =====
-- A defined transform is found again, and definitions leave all other names alone.
use rawduck.Prelude.{
  ◌≡◌, refl, sym, ◌∙◌, codes, take, ap, Str, lower, str_eq, str_eq_iff, str_eq_refl, false, none,
  some, [], ◌∷◌, if◌then◌else◌, ok, arith,
}
use rawduck.Duck.{Duck}
use rawduck.Flatten.{is_empty}
use rawduck.Transform.{
  Registry, find_transform, set_transform, raw_builtin_transforms, resolve_builtin_transform,
  resolve_transform, raw_transform_define, raw_explode_options, raw_transform_is_otlp,
}

find_transform-set_transform :
    (r : Registry) (name path other : Str)
    → find_transform (set_transform r name path) other
      ≡ (if str_eq name other then some path else find_transform r other)
unfolding find_transform set_transform
find_transform-set_transform [] name path other = refl
find_transform-set_transform ((n, p) ∷ r) name path other = ground (
  arith,
  find_transform-set_transform r name path other,
  str_eq_iff n name,
  str_eq_iff n other,
  str_eq_iff name other,
)

define_ok :
    (r r' : Registry) (name path : Str)
    → raw_transform_define r name path ≡ ok r'
    → (is_empty name ≡ false)
      × (is_empty path ≡ false)
      × (resolve_builtin_transform name ≡ none)
      × (r' ≡ set_transform r (lower name) path)
unfolding raw_transform_define
define_ok r r' name path h = ground arith

is_empty-lower : (s : Str) → is_empty (lower s) ≡ is_empty s
is_empty-lower [] = refl
is_empty-lower (c ∷ s) = refl

resolve_registered :
    (duck : Duck) (r : Registry) (other path : Str)
    → is_empty other ≡ false
    → resolve_builtin_transform other ≡ none
    → find_transform r (lower other) ≡ some path
    → resolve_transform duck r other []
      ≡ ok (raw_explode_options duck path (raw_transform_is_otlp other))
unfolding resolve_transform
resolve_registered duck r other path h b f = rw (h, b, resolve_transform) (rw f refl)

-- After raw_transform_define(name, path) succeeded, ResolveTransform of the name in any case gives
-- the split path, with the OTLP flag by the prefix of the name.
pub resolve_transform-define :
    (duck : Duck) (r r' : Registry) (name path other : Str)
    → raw_transform_define r name path ≡ ok r'
    → lower other ≡ lower name
    → resolve_transform duck r' other []
      ≡ ok (raw_explode_options duck path (raw_transform_is_otlp name))
unfolding resolve_builtin_transform
resolve_transform-define duck r r' name path other h e =
    let d = define_ok r r' name path h in
    resolve_registered duck r' other path
      (sym (is_empty-lower other) ∙ ap is_empty e ∙ is_empty-lower name ∙ d.0)
      (ap (find_transform raw_builtin_transforms) e ∙ d.2)
      (rw
        (
          d.3,
          find_transform-set_transform r (lower name) path (lower other),
          sym e,
          str_eq_refl (lower other),
        )
        refl)
    ∙ ap (λ l. ok (raw_explode_options duck path (str_eq (take 5 l) (codes "otlp-")))) e

same_entry :
    (duck : Duck) (r r' : Registry) (transform explode : Str)
    → find_transform r (lower transform) ≡ find_transform r' (lower transform)
    → resolve_transform duck r transform explode ≡ resolve_transform duck r' transform explode
unfolding resolve_transform
same_entry duck r r' transform explode h = rw (h, resolve_transform) refl

-- Any other transform, by name or by path, resolves as it did before.
pub resolve_transform-others :
    (duck : Duck) (r r' : Registry) (name path transform explode : Str)
    → raw_transform_define r name path ≡ ok r'
    → str_eq (lower name) (lower transform) ≡ false
    → resolve_transform duck r' transform explode ≡ resolve_transform duck r transform explode
unfolding resolve_transform
resolve_transform-others duck r r' name path transform explode h e =
    let d = define_ok r r' name path h in
    same_entry duck r' r transform explode
      (rw d.3 (rw (find_transform-set_transform r (lower name) path (lower transform), e) refl))
