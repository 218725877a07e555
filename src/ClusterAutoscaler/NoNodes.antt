-- ===== src/ClusterAutoscaler/NoNodes.antt =====
-- A cluster-autoscaler check whose nodes cannot be listed.
use kibertas.Prelude.{◌<>◌, [], ◌∷◌, ◌++◌, ◌≡◌, arith, if◌then◌else◌}
use kibertas.Go.Errors.{Error, text}
use kibertas.Api.{Call, refused}
use kibertas.Run.{or_throw, State, fail, panicked, Env, ◌>>=◌}
use kibertas.Notify.{add_message}
use kibertas.Notify.Effects.{is_delivered, calls_after_send, send_lem}
use kibertas.Steps.{report_nodes}
use kibertas.ClusterAutoscaler.Objects.{ClusterAutoscaler}
use kibertas.ClusterAutoscaler.Check.{list_nodes, node_label, check}

-- The state of a run when the error is reported.
abbrev pub unlisted : ClusterAutoscaler → State → Error → State
unlisted c s e = record {
  messages =
      (s.messages ++ "cluster-autoscaler check start\n" ∷ [])
      ++ ("Error List Nodes: " <> (text e <> "\n")) ∷ [];
  calls = Call.list_nodes (node_label c) ∷ s.calls;
}

-- If the nodes cannot be listed, the cluster-autoscaler check returns that error, or panics if its
-- message has no response, and has made no call but that to list the nodes and the message.
nodes_unlisted :
    (c : ClusterAutoscaler) (env : Env) (s : State) (e : Error)
    → env.nodes s.calls (Call.list_nodes (node_label c)) ≡ refused e
    → let s' = unlisted c s e in
      check c env s ≡ (
        if is_delivered env c.chatwork s' then fail e else panicked,
        record { messages = []; calls = calls_after_send env c.chatwork s' },
      )
unfolding check list_nodes report_nodes add_message ◌>>=◌
nodes_unlisted c env s e h = rw (h, or_throw, send_lem) (ground arith)
