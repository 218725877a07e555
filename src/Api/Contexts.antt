-- ===== src/Api/Contexts.antt =====
-- The contexts of the requests.
use kibertas.Api.Calls.{Call}

-- The context that the first signal cancels, with those that a poll derives from it; or one that is
-- never cancelled: `context.TODO()`, `context.Background()`, and no context at all.
pub data Context : Type 0 where
  signals background : Context

-- The context that a request is made with. Deletions, and the update of a namespace, get a context of
-- their own; a DNS query, an HTTP request and a message get none.
abbrev pub context_of : Call → Context
context_of (Call.update_namespace n) = background
context_of (Call.delete_namespace n) = background
context_of (Call.delete_deployment n name) = background
context_of (Call.delete_service n name) = background
context_of (Call.delete_ingress n name) = background
context_of (Call.delete_certificate c) = background
context_of (Call.delete_issuer i) = background
context_of (Call.exchange name server) = background
context_of (Call.http_get endpoint host) = background
context_of (Call.post_message r) = background
context_of Call.now = background
context_of (Call.random n) = background
context_of Call.load_kubeconfig = background
context_of Call.new_clientset = background
context_of Call.new_client = background
context_of _ = signals
