-- ===== src/Api/Ownership.antt =====
-- Which pods a replica set owns: those whose name begins with its name.
use gokube.Prelude.{
  Text, starts_with, starts_with-append, starts_with-split, starts_with_trans, true, ◌≡◌, ◌≢◌, ◌↔◌,
  ◌++◌, arith,
}
use gokube.Api.{Pod, pod_failed, ObjectMeta, is_owned_by, is_pod_active_and_owned_by}
use gokube.Api.Validation.{status_eq_iff}

-- A pod counts for a replica set exactly when its name is the set's name and some rest, and it has
-- not failed.
pub active_and_owned_iff :
    (p : Pod) (meta : ObjectMeta)
    → (is_pod_active_and_owned_by p meta ≡ true)
      ↔ (((r : Text) × (p.name ≡ meta.name ++ r)) × (p.status ≢ pod_failed))
unfolding is_pod_active_and_owned_by
active_and_owned_iff p meta = (
  λ h. (
    starts_with-split meta.name p.name (ground arith),
    λ e. ground (arith, (status_eq_iff p.status pod_failed).1 e),
  ),
  λ h. ground (arith, starts_with-append meta.name h.0.0, (status_eq_iff p.status pod_failed).0),
)

-- A set also owns whatever a set with a longer name owns.
pub is_owned_by_prefix :
    (p : Pod) (short long : ObjectMeta)
    → starts_with short.name long.name ≡ true
    → is_owned_by p long ≡ true
    → is_owned_by p short ≡ true
unfolding is_owned_by
is_owned_by_prefix p short long h k = starts_with_trans short.name long.name p.name h k
