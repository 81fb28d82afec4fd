-- ===== src/Exceptions.antt =====
-- kazoo/exceptions.py: the exception classes with a server's error code.
pub mod Codes

pub data ZookeeperError : Type 0 where
  rolled_back_error system_zookeeper_error runtime_inconsistency : ZookeeperError
  data_inconsistency connection_loss marshalling_error : ZookeeperError
  unimplemented_error operation_timeout_error bad_arguments_error : ZookeeperError
  unknown_session_error new_config_no_quorum_error reconfig_in_process_error : ZookeeperError
  api_error no_node_error no_auth_error : ZookeeperError
  bad_version_error no_children_for_ephemerals_error node_exists_error : ZookeeperError
  not_empty_error session_expired_error invalid_callback_error : ZookeeperError
  invalid_acl_error auth_failed_error session_moved_error : ZookeeperError
  not_read_only_call_error ephemeral_on_local_session_error no_watcher_error : ZookeeperError
  request_timeout_error reconfig_disabled_error session_closed_require_sasl_error : ZookeeperError
  quota_exceeded_error throttled_op_error : ZookeeperError
