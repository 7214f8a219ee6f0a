-- ===== src/Api/Validation.antt =====
-- Validate of Pod and Node, in the terms of the tags, for a validator that does what its
-- documentation says.
use gokube.Prelude.{
  Text, ℤ, pos, Bool, true, false, ◌≡◌, ◌≢◌, refl, ◌↔◌, List, [], ◌∷◌, All, all, arith, ltb_ℤ, ◌&&◌,
  text_eq_iff,
}
use gokube.Api.{
  Slice, nil, elements, Container, Pod, PodStatus, other, Validator, valid_container, validate_pod,
  status_eq,
}

-- go-playground/validator: `required` is "not the zero value" on a string, "not nil" on a slice, and
-- `gte=0` is "at least 0".
pub record IsDocumented (v : Validator) : Type 0 where
  pub required_iff : (t : Text) → (v.required t ≡ true) ↔ (t ≢ [])
  pub required_slice_iff : (cs : Slice Container) → (v.required_slice cs ≡ true) ↔ (cs ≢ nil)
  pub gte_zero_iff : (n : ℤ) → (v.gte_zero n ≡ true) ↔ (ltb_ℤ n (pos 0) ≡ false)

abbrev pub IsNamed : Container → Type 0
IsNamed c = (c.name ≢ []) × (c.image ≢ [])

-- What the tags of Pod, PodSpec, ObjectMeta and Container say.
pub record IsValidPod (p : Pod) : Type 0 where
  pub named : p.name ≢ []
  pub some_slice : p.spec.containers ≢ nil
  pub containers : All IsNamed (elements p.spec.containers)
  pub replicas : ltb_ℤ p.spec.replicas (pos 0) ≡ false

and_iff : (a b : Bool) → ((a && b) ≡ true) ↔ ((a ≡ true) × (b ≡ true))
and_iff a b = (λ h. ground arith, λ h. ground arith)

module _ (v : Validator) (d : IsDocumented v) where
  all-IsNamed_iff : (cs : List Container) → (all (valid_container v) cs ≡ true) ↔ All IsNamed cs
  unfolding valid_container
  all-IsNamed_iff [] = (λ h. tt, λ h. refl)
  all-IsNamed_iff (c ∷ cs) = (
    λ h.
        let (here, rest) = (and_iff (valid_container v c) (all (valid_container v) cs)).0 h in
        let (n, i) = (and_iff (v.required c.name) (v.required c.image)).0 here in
        (((d.required_iff c.name).0 n, (d.required_iff c.image).0 i), (all-IsNamed_iff cs).0 rest),
    λ h. ground (
      arith,
      (d.required_iff c.name).1 h.0.0,
      (d.required_iff c.image).1 h.0.1,
      (all-IsNamed_iff cs).1 h.1,
    ),
  )

  -- A pod validates exactly when it has a name, a container slice that is not nil, in which every
  -- container has a name and an image, and a replica count that is not negative.
  pub validate_pod_iff : (p : Pod) → (validate_pod v p ≡ true) ↔ IsValidPod p
  unfolding validate_pod
  validate_pod_iff p = (
    λ h.
        let (n, rest) = (and_iff _ _).0 h in
        let (cs, r) = (and_iff _ _).0 rest in
        let (s, a) = (and_iff _ _).0 cs in
        record {
          named = (d.required_iff p.name).0 n;
          some_slice = (d.required_slice_iff p.spec.containers).0 s;
          containers = (all-IsNamed_iff (elements p.spec.containers)).0 a;
          replicas = (d.gte_zero_iff p.spec.replicas).0 r;
        },
    λ h. ground (
      arith,
      (d.required_iff p.name).1 h.named,
      (d.required_slice_iff p.spec.containers).1 h.some_slice,
      (all-IsNamed_iff (elements p.spec.containers)).1 h.containers,
      (d.gte_zero_iff p.spec.replicas).1 h.replicas,
    ),
  )

pub status_eq_iff : (a b : PodStatus) → (status_eq a b ≡ true) ↔ (a ≡ b)
unfolding status_eq
status_eq_iff (other s) (other t) =
    (λ h. ground (arith, (text_eq_iff s t).0), λ h. ground (arith, (text_eq_iff s t).1))
status_eq_iff a b = (λ h. ground arith, λ h. ground arith)
