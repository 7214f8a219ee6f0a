-- ===== src/Kubelet/Running/Naming.antt =====
-- pkg/kubelet/kubelet.go: what getContainerState sees of a container that StartContainer started.
use gokube.Prelude.{
  Text, codes, Bool, true, false, ◌++◌, length-append, Option, none, some, length, starts_with, ◌<◌,
  ◌≡◌, ◌≢◌, refl, ap, ◌∙◌, arith,
}
use gokube.Api.{Pod, Container}
use gokube.Names.{NameGenerator}
use gokube.Kubelet.{Inspected, get_container_state, unique_container_name}
use gokube.Kubelet.Containers.{unique_name_longer}
use gokube.Kubelet.Running.{
  Pulled, no_pull, no_copy, pulled, Runtime, labels_of, start_answer, create_answer, pull_answer,
  start_container,
}

-- What Docker documents of an inspection: a container is found by its name, which may be written with a
-- slash before it, and by the first letters of its id.
abbrev pub IsOther : Text → Text → Type 0
IsOther m name = (m ≢ name) × (m ≢ codes "/" ++ name)

abbrev pub IsNoId : (Text → Type 0) → Text → Type 0
IsNoId is_id m = (id : Text) → is_id id → starts_with m id ≡ false

-- While Docker does nothing else, a pull changes no inspection, and the creation and the start of a
-- container change none that does not find it.
pub record IsInspected {D : Type 0} (docker : Runtime D) : Type 1 where
  pub inspect : D → Text → Inspected
  pub IsId : Text → Type 0
  pub IsNamed : D → Text → Text → Type 0
  pub pull_keeps : (image m : Text) (d : D) → inspect (docker.image_pull image d).1 m ≡ inspect d m
  pub create_names :
      (name image id : Text) (labels : Text → Option Text) (d : D)
      → (docker.container_create name image labels d).0 ≡ some id
      → IsNamed (docker.container_create name image labels d).1 id name
  pub create_keeps :
      (name image m : Text) (labels : Text → Option Text) (d : D)
      → IsOther m name
      → IsNoId IsId m
      → inspect (docker.container_create name image labels d).1 m ≡ inspect d m
  pub start_keeps :
      (id name m : Text) (d : D)
      → IsNamed d id name
      → IsOther m name
      → IsNoId IsId m
      → inspect (docker.container_start id d).1 m ≡ inspect d m

module _ {G D : Type 0} (gen : NameGenerator G) (docker : Runtime D)
    (seen : IsInspected docker) where
  after_start : (id : Text) (g : G) (r : Bool × D) → (start_answer gen docker id g r).2 ≡ r.1
  after_start id g (true, d) = refl
  after_start id g (false, d) = refl

  after_create :
      (name m : Text) (g : G) (r : Option Text × D)
      → ((id : Text) → r.0 ≡ some id → seen.IsNamed r.1 id name)
      → IsOther m name
      → IsNoId seen.IsId m
      → seen.inspect (create_answer gen docker g r).2 m ≡ seen.inspect r.1 m
  after_create name m g (none, d) named other no_id = refl
  after_create name m g (some id, d) named other no_id =
      ap (λ e. seen.inspect e m) (after_start id g (docker.container_start id d))
      ∙ seen.start_keeps id name m d (named id refl) other no_id

  after_pull :
      (pod : Pod) (c : Container) (g : G) (r : Pulled × D)
      → IsOther c.name (unique_container_name gen pod c.name g).0
      → IsNoId seen.IsId c.name
      → seen.inspect (pull_answer gen docker pod c g r).2 c.name ≡ seen.inspect r.1 c.name
  after_pull pod c g (no_pull, d) other no_id = refl
  after_pull pod c g (no_copy, d) other no_id = refl
  after_pull pod c g (pulled, d) other no_id =
      let (name, g₁) = unique_container_name gen pod c.name g in
      let labels = labels_of pod c.name in
      after_create name c.name g₁ (docker.container_create name c.image labels d)
        (λ id. seen.create_names name c.image id labels d) other no_id
      ∙ seen.create_keeps name c.image c.name labels d other no_id

  -- Whatever StartContainer returns for a container whose name has at most 62 bytes and is not the
  -- beginning of an id, getContainerState answers for that container as if it had not been called: what
  -- was missing before is missing afterwards, also where the container was started.
  pub start_container_unseen :
      (pod : Pod) (c : Container) (g : G) (d : D)
      → length c.name < 63
      → IsNoId seen.IsId c.name
      → get_container_state (seen.inspect (start_container gen docker pod c g d).2) c.name
        ≡ get_container_state (seen.inspect d) c.name
  unfolding start_container get_container_state
  start_container_unseen pod c g d short no_id =
      let longer = unique_name_longer gen pod c.name g short in
      let other : IsOther c.name (unique_container_name gen pod c.name g).0 = (
        λ e. omega (arith, longer, ap length e),
        λ e. omega (
          arith,
          longer,
          ap length e,
          length-append (codes "/") (unique_container_name gen pod c.name g).0,
        ),
      ) in
      ap (λ i. get_container_state (λ (m : Text). i) c.name)
        (after_pull pod c g (docker.image_pull c.image d) other no_id
          ∙ seen.pull_keeps c.image c.name d)
