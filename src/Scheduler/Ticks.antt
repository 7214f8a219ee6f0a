-- ===== src/Scheduler/Ticks.antt =====
-- The loop of Start: a pass that fails does not keep later ones from scheduling.
use gokube.Prelude.{◌≡◌, refl, ap, ◌∙◌, List, [], ◌∷◌, ◌++◌, All, Elem}
use gokube.Exec.{ok}
use gokube.Api.{pod_scheduled, Pod, pod_pending, Node, Validator}
use gokube.Storage.{Storage, Lawful, holds, Neighbour}
use gokube.Registry.Pods.{pod_key, list_pending_pods}
use gokube.Registry.Pods.Creation.{IsSound}
use gokube.Registry.Pods.Listing.{IsStored}
use gokube.Registry.Nodes.{list_nodes}
use gokube.Scheduler.{schedule_pending_pods, Tick, start}
use gokube.Scheduler.Passes.{schedule_assigns, schedule-IsSound}

module _ {S : Type 0} (v : Validator) (sp : Storage S Pod) (sn : Storage S Node) (l : Lawful sp)
    (near : Neighbour sn l.slot) (exact : (p : Pod) → l.written p ≡ holds p) where
  -- Others leave sound pods sound.
  abbrev pub IsOrderly : Tick S → Type 0
  IsOrderly t = (s : S) → IsSound v l.slot s → IsSound v l.slot (t.others s)

  start-append :
      (before : List (Tick S)) (t : Tick S) (s : S)
      → start v sp sn (before ++ (t ∷ [])) s
        ≡ (schedule_pending_pods v sp t.draws sn (t.others (start v sp sn before s))).1
  unfolding start
  start-append [] t s = refl
  start-append (u ∷ before) t s =
      start-append before t (schedule_pending_pods v sp u.draws sn (u.others s)).1

  start-IsSound :
      (ticks : List (Tick S)) (s : S)
      → All IsOrderly ticks
      → IsSound v l.slot s
      → IsSound v l.slot (start v sp sn ticks s)
  unfolding start
  start-IsSound [] s o k = k
  start-IsSound (t ∷ ticks) s o k =
      start-IsSound ticks (schedule_pending_pods v sp t.draws sn (t.others s)).1 o.1
        (schedule-IsSound v sp sn t.draws l near exact (t.others s) (o.0 s k))

  -- Whatever the ticks of Start before, and whether their passes failed: at the next tick whose pass
  -- succeeds, every pod that is pending by then is stored as Scheduled on a node that ListNodes returns, and
  -- otherwise as it was, if the pods were sound at first, other processes keep them so, and pods read
  -- back as written.
  pub start_schedules :
      (before : List (Tick S)) (t : Tick S) (s : S) (p : Pod)
      → IsSound v l.slot s
      → All IsOrderly before
      → IsOrderly t
      → IsStored sp l p (t.others (start v sp sn before s))
      → p.status ≡ pod_pending
      → (schedule_pending_pods v sp t.draws sn (t.others (start v sp sn before s))).0 ≡ ok tt
      → (nodes : List Node) × (n : Node) × ((list_nodes sn
            (list_pending_pods sp (t.others (start v sp sn before s))).1).0
          ≡ ok nodes)
        × Elem n nodes
        × (l.slot (start v sp sn (before ++ (t ∷ [])) s) (pod_key p.name)
            ≡ holds (record p { node_name = n.name; status = pod_scheduled }))
  start_schedules before t s p sound orderly o stored pending h =
      let u = t.others (start v sp sn before s) in
      let (nodes, n, listed, m, e) =
        schedule_assigns v sp sn t.draws l near exact u p h
          (o (start v sp sn before s) (start-IsSound before s orderly sound)) stored pending in
      (nodes, n, listed, m, ap (λ x. l.slot x (pod_key p.name)) (start-append before t s) ∙ e)
