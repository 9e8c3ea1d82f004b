-- ===== src/Oauth/Flows.antt =====
-- internal/oauth/flow.go: a state is good for one callback.
use kaggen.Oauth.{
  FlowManager, PendingFlow, accept_flow, handle_callback, start_auth, TokenAnswer,
  cleanup_old_flows, finish_flow, flow_expired, invalid_state,
}
use kaggen.Base.{
  ℕ, ◌≡◌, ◌≢◌, inl, inr, ite, Bool, Option, none, List, [], ◌∷◌, arith, Option-cases, All, Text,
  text_discrete, text_key, nat_key, get, del, get-put, get-del, get-del_where-none,
}

-- What may happen to the pending flows.
pub data FlowOp : Type 0 where
  begins : Bool → PendingFlow → FlowOp
  calls_back : Text → Text → Bool → TokenAnswer → Text → ℕ → FlowOp
  cleans : ℕ → FlowOp

module _ (seal : Text → Text → Text) (unseal : Text → Text → Option Text)
    (configured : Text → Bool) where
  unfoldable pub apply_op : FlowOp → FlowManager → FlowManager
  apply_op (begins c f) fm = (start_auth c f fm).0
  apply_op (calls_back n1 n2 written exchanged state now) fm =
      (handle_callback seal unseal configured state now n1 n2 written exchanged fm).0
  apply_op (cleans now) fm = record fm { active_flows = cleanup_old_flows now fm.active_flows }

  unfoldable pub apply_ops : List FlowOp → FlowManager → FlowManager
  apply_ops [] fm = fm
  apply_ops (o ∷ os) fm = apply_ops os (apply_op o fm)

  -- No flow is started under the state.
  abbrev pub Spares : Text → FlowOp → Type 0
  Spares state (begins c f) = f.state ≢ state
  Spares state (calls_back n1 n2 written exchanged s now) = Unit
  Spares state (cleans now) = Unit

  accept_flow-active_flows :
      (now : ℕ) (n1 n2 : Text) (written : Bool) (exchanged : TokenAnswer) (f : PendingFlow)
      (fm : FlowManager)
      → (accept_flow seal unseal configured now n1 n2 written exchanged f fm).0.active_flows
        ≡ fm.active_flows
  unfolding accept_flow finish_flow
  accept_flow-active_flows now n1 n2 written (inl e) f fm = ground arith
  accept_flow-active_flows now n1 n2 written (inr t) f fm = ground arith

  handle_callback-active_flows :
      (state : Text) (now : ℕ) (n1 n2 : Text) (written : Bool) (exchanged : TokenAnswer)
      (fm : FlowManager) (j : Text)
      → get j
          (handle_callback seal unseal configured state now n1 n2 written exchanged
            fm).0.active_flows
        ≡ ite (text_discrete state j) none (get j fm.active_flows)
  unfolding handle_callback
  handle_callback-active_flows state now n1 n2 written exchanged fm j =
      elim (Option-cases (get state fm.active_flows)) [
        | inl miss ↦ elim (text_discrete state j) [
          | yes same ↦ ground (arith, miss, same)
          | no apart ↦ ground (arith, miss, apart)
        ]
        | inr (f, hit) ↦ ground (
          arith,
          hit,
          get-del state j fm.active_flows,
          accept_flow-active_flows now n1 n2 written exchanged f
              (record fm { active_flows = del state fm.active_flows }),
        )
      ]

  apply_op-none :
      (state : Text) (o : FlowOp) (fm : FlowManager)
      → Spares state o
      → get state fm.active_flows ≡ none
      → get state (apply_op o fm).active_flows ≡ none
  unfolding apply_op start_auth cleanup_old_flows
  apply_op-none state (begins c f) fm apart h =
      ground (arith, apart, h, get-put f.state state f fm.active_flows)
  apply_op-none state (calls_back n1 n2 written exchanged s now) fm spares h =
      ground (arith, h, handle_callback-active_flows s now n1 n2 written exchanged fm state)
  apply_op-none state (cleans now) fm spares h =
      get-del_where-none state (flow_expired now) fm.active_flows h

  apply_ops-none :
      (state : Text) (os : List FlowOp) (fm : FlowManager)
      → All (Spares state) os
      → get state fm.active_flows ≡ none
      → get state (apply_ops os fm).active_flows ≡ none
  unfolding apply_ops
  apply_ops-none state [] fm spare h = h
  apply_ops-none state (o ∷ os) fm spare h =
      apply_ops-none state os (apply_op o fm) spare.1 (apply_op-none state o fm spare.0 h)

  -- Whatever a callback for a state came to, and whatever else happens, another callback for it is
  -- refused and changes nothing, unless a flow was started under the same state in between.
  pub handle_callback-once :
      (state : Text) (now later : ℕ) (n1 n2 n3 n4 : Text) (written again : Bool)
      (exchanged other : TokenAnswer) (os : List FlowOp) (fm : FlowManager)
      → All (Spares state) os
      → let after = apply_ops os (apply_op (calls_back n1 n2 written exchanged state now) fm) in
        handle_callback seal unseal configured state later n3 n4 again other after
        ≡ (after, inl invalid_state)
  unfolding handle_callback apply_op
  handle_callback-once state now later n1 n2 n3 n4 written again exchanged other os fm spare =
      let first = apply_op (calls_back n1 n2 written exchanged state now) fm in
      let gone : get state first.active_flows ≡ none = ground (
        arith,
        text_discrete state state,
        handle_callback-active_flows state now n1 n2 written exchanged fm state,
      ) in
      let still = apply_ops-none state os first spare gone in ground (arith, still)
