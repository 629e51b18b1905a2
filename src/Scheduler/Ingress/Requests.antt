-- ===== src/Scheduler/Ingress/Requests.antt =====
-- Which builds backend/server/src/scheduler/ingress.rs asks for, and where they go.
use eka_ci.Prelude.{
  ℕ, ◌≡◌, ◌≢◌, ◌⊎◌, inl, inr, refl, true, false, some, List, [], ◌∷◌, ◌++◌, get, ltb, length, ℕ_eq,
  arith, Bool-cases, Option-cases, is_empty,
}
use eka_ci.Drv.{DrvId}
use eka_ci.Graph.Cache.{LruCache}
use eka_ci.Graph.State.{GraphNode}
use eka_ci.Service.State.{CachedNode, to_drv, GraphDatabase, is_buildable}
use eka_ci.Service.Commands.{Response, dropped}
use eka_ci.Scheduler.Features.{BuilderFeatures, can_build}
use eka_ci.Scheduler.Routing.{PlatformQueue, local_tx, route, route_lem}
use eka_ci.Scheduler.Ingress.{
  IngressState, request, mark_buildable, announce, send_buildable, deliver,
  handle_check_buildable_task, requests_capacity,
}

requests-deliver :
    {C D : Type 0} (n : CachedNode) (st : IngressState C D) (answer : Response)
    → ((deliver n st answer).0.requests ≡ st.requests)
      ⊎ ((deliver n st answer).0.requests ≡ st.requests ++ to_drv n ∷ [])
unfolding deliver request
requests-deliver n st dropped = inl refl
requests-deliver n st _ = elim (Bool-cases (ltb (length st.requests) requests_capacity)) [
  | inl e ↦ rw e (inr refl)
  | inr e ↦ rw e (inl refl)
]

module _ {C D : Type 0} ⦃lru : LruCache GraphNode C⦄ ⦃db : GraphDatabase D⦄ (now : ℕ)
    (builders : List BuilderFeatures) (d : DrvId) where
  requests-announce :
      (n : CachedNode) (st : IngressState C D)
      → (announce now builders d n st).0.requests ≡ st.requests
  unfolding announce mark_buildable
  requests-announce n st = ground arith

  requests-send_buildable :
      (n : CachedNode) (st : IngressState C D)
      → ((send_buildable now builders d n st).0.requests ≡ st.requests)
        ⊎ ((send_buildable now builders d n st).0.requests ≡ st.requests ++ to_drv n ∷ [])
  unfolding send_buildable
  requests-send_buildable n st =
      let (st', answer) = announce now builders d n st in
      ground (arith, requests-deliver n st' answer, requests-announce n st)

  -- A check of a derivation leaves the channel to the builders as it is, or puts one request behind
  -- the others: for this derivation as the mirror holds it, all of whose dependencies succeeded, and
  -- whose required features some builder has.
  pub handle_check_buildable_task-requests :
      (st : IngressState C D)
      → let st' = (handle_check_buildable_task now builders d st).0 in
        (st'.requests ≡ st.requests)
        ⊎ ((n : CachedNode) × (get d st.service.shared_view ≡ some n)
            × (is_buildable st.service.shared_view d ≡ true)
            × (can_build builders n.required_system_features ≡ true)
            × (st'.requests ≡ st.requests ++ to_drv n ∷ []))
  unfolding handle_check_buildable_task
  handle_check_buildable_task-requests st =
      elim (Bool-cases (is_buildable st.service.shared_view d)) [
        | inr e ↦ rw (e, handle_check_buildable_task) (inl refl)
        | inl e ↦ elim (Option-cases (get d st.service.shared_view)) [
          | inl f ↦ rw (e, f, handle_check_buildable_task) (inl refl)
          | inr (n, f) ↦ elim (Bool-cases (can_build builders n.required_system_features)) [
            | inr able ↦ rw (e, f, able, handle_check_buildable_task) (inl refl)
            | inl able ↦ elim (requests-send_buildable n st) [
              | inl same ↦ rw (e, f, able, handle_check_buildable_task) (inl same)
              | inr more ↦
                  rw (handle_check_buildable_task, e, f, able) (inr (n, refl, refl, able, more))
            ]
          ]
        ]
      ]

-- A request that is made from a node of the mirror never goes to the local builder of a queue that
-- has remote builders, since the mirror does not keep the preference for local builds.
pub route-to_drv :
    (q : PlatformQueue) (n : CachedNode)
    → is_empty q.builders ≡ false
    → route q (to_drv n) ≢ some local_tx
unfolding to_drv
route-to_drv q n remote e = ground (arith, remote, e, route_lem q (to_drv n))
