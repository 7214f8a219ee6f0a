-- ===== src/Registry/Nodes/Keys.antt =====
-- The keys of nodes: where plain names go, and where names with slashes and dots go.
use gokube.Prelude.{Text, codes, ◌≡◌, ◌∙◌, sym, ◌++◌, text_eq_ne, append_cancel, [], text_eq}
use gokube.Registry.PathJoin.{IsPlain, split, split-no_slash, enter, resolve}
use gokube.Registry.Pods.{pod_key}
use gokube.Registry.Nodes.{node_key, node_prefix}
use mathlib.Core.List.{append-nil}

-- A plain name stands under its own name, below the prefix that ListNodes asks for.
pub node_key_plain : (name : Text) → IsPlain name → node_key name ≡ node_prefix ++ name
unfolding node_key split resolve enter text_eq
node_key_plain name p = simp (
  split-no_slash name p.no_slash,
  text_eq_ne name [] p.some_byte,
  text_eq_ne name (codes ".") p.not_dot,
  text_eq_ne name (codes "..") p.not_dots,
  append-nil,
)

-- Two plain names never share a key.
pub node_key_injective : (a b : Text) → IsPlain a → IsPlain b → node_key a ≡ node_key b → a ≡ b
node_key_injective a b p q e =
    append_cancel node_prefix a b (sym (node_key_plain a p) ∙ (e ∙ node_key_plain b q))

-- A name that climbs out of the prefix is the key of a pod: for a plain NAME, a node called
-- ../../pods/NAME is stored in the place of the pod NAME.
pub node_key_escapes :
    (name : Text) → IsPlain name → node_key (codes "../../pods/" ++ name) ≡ pod_key name
unfolding node_key split resolve enter text_eq
node_key_escapes name p = simp (
  split-no_slash name p.no_slash,
  text_eq_ne name [] p.some_byte,
  text_eq_ne name (codes ".") p.not_dot,
  text_eq_ne name (codes "..") p.not_dots,
  append-nil,
)
