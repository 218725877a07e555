-- ===== src/Config.antt =====
-- config/config.go
use kibertas.Prelude.{is_set, if◌then◌else◌}
use kibertas.Go.Errors.{plain}
use kibertas.Api.{Call, AwsConfig}
use kibertas.Run.{Action, pure, throw, exit, ◌>>=◌, ◌>>◌, on_error, call, or_throw, issue}

-- `NewAwsConfig`
unfoldable pub new_aws_config : Action AwsConfig
new_aws_config = do
  reply ← call (λ env. env.aws) Call.load_aws_config
  cfg ← or_throw reply
  if is_set cfg.region
      then pure cfg
      else throw (plain "region is empty: please set AWS_DEFAULT_REGION")

-- `NewK8sClientset`: `ctrl.GetConfig`, and `kubernetes.NewForConfig`
unfoldable pub new_k8s_clientset : Action (Unit {0})
unfolding issue
new_k8s_clientset = do issue Call.load_kubeconfig; issue Call.new_clientset

-- `NewK8sClient`: `ctrl.GetConfigOrDie` ends the process where `ctrl.GetConfig` would return an
-- error.
unfoldable pub new_k8s_client : Action (Unit {0})
unfolding issue
new_k8s_client = do on_error (issue Call.load_kubeconfig) (λ e. exit); issue Call.new_client
