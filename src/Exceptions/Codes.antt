-- ===== src/Exceptions/Codes.antt =====
-- `EXCEPTIONS` of kazoo/exceptions.py: the table that the decorators fill, by error code.
use kazoo.Base.{
  List, [], ◌∷◌, ◌≡◌, refl, Bool-cases, inl, inr, Result, ok, err, runtime_error, out_of_fuel, ◌≢◌,
  arith, if◌then◌else◌,
}
use kazoo.Base.Int.{ℤ, pos, negsuc, int_eq, int_eq→eq}
use kazoo.Exceptions.{
  ZookeeperError, rolled_back_error, system_zookeeper_error, runtime_inconsistency,
  data_inconsistency, connection_loss, marshalling_error, unimplemented_error,
  operation_timeout_error, bad_arguments_error, unknown_session_error, new_config_no_quorum_error,
  reconfig_in_process_error, api_error, no_node_error, no_auth_error, bad_version_error,
  no_children_for_ephemerals_error, node_exists_error, not_empty_error, session_expired_error,
  invalid_callback_error, invalid_acl_error, auth_failed_error, session_moved_error,
  not_read_only_call_error, ephemeral_on_local_session_error, no_watcher_error,
  request_timeout_error, reconfig_disabled_error, session_closed_require_sasl_error,
  quota_exceeded_error, throttled_op_error,
}

-- The `code` attribute that the decorator sets.
abbrev pub code : ZookeeperError → ℤ
code rolled_back_error = pos 0
code system_zookeeper_error = negsuc 0
code runtime_inconsistency = negsuc 1
code data_inconsistency = negsuc 2
code connection_loss = negsuc 3
code marshalling_error = negsuc 4
code unimplemented_error = negsuc 5
code operation_timeout_error = negsuc 6
code bad_arguments_error = negsuc 7
code unknown_session_error = negsuc 11
code new_config_no_quorum_error = negsuc 12
code reconfig_in_process_error = negsuc 13
code api_error = negsuc 99
code no_node_error = negsuc 100
code no_auth_error = negsuc 101
code bad_version_error = negsuc 102
code no_children_for_ephemerals_error = negsuc 107
code node_exists_error = negsuc 109
code not_empty_error = negsuc 110
code session_expired_error = negsuc 111
code invalid_callback_error = negsuc 112
code invalid_acl_error = negsuc 113
code auth_failed_error = negsuc 114
code session_moved_error = negsuc 117
code not_read_only_call_error = negsuc 118
code ephemeral_on_local_session_error = negsuc 119
code no_watcher_error = negsuc 120
code request_timeout_error = negsuc 121
code reconfig_disabled_error = negsuc 122
code session_closed_require_sasl_error = negsuc 123
code quota_exceeded_error = negsuc 124
code throttled_op_error = negsuc 126

-- The classes in the order in which they are declared.
abbrev pub classes : List ZookeeperError
classes =
    rolled_back_error ∷ system_zookeeper_error ∷ runtime_inconsistency ∷ data_inconsistency
    ∷ connection_loss ∷ marshalling_error ∷ unimplemented_error ∷ operation_timeout_error
    ∷ bad_arguments_error ∷ unknown_session_error ∷ new_config_no_quorum_error
    ∷ reconfig_in_process_error ∷ api_error ∷ no_node_error ∷ no_auth_error ∷ bad_version_error
    ∷ no_children_for_ephemerals_error ∷ node_exists_error ∷ not_empty_error ∷ session_expired_error
    ∷ invalid_callback_error ∷ invalid_acl_error ∷ auth_failed_error ∷ session_moved_error
    ∷ not_read_only_call_error ∷ ephemeral_on_local_session_error ∷ no_watcher_error
    ∷ request_timeout_error ∷ reconfig_disabled_error ∷ session_closed_require_sasl_error
    ∷ quota_exceeded_error ∷ throttled_op_error ∷ []

find_code : ℤ → List ZookeeperError → Result ZookeeperError
find_code c [] = err runtime_error
find_code c (e ∷ es) = if int_eq (code e) c then ok e else find_code c es

-- `EXCEPTIONS[c]`: a missing code calls `_invalid_error_code`, which raises.
unfoldable pub exceptions : ℤ → Result ZookeeperError
unfolding find_code
exceptions c = find_code c classes

-- No two classes share a code: each class is found under its own.
pub exceptions-code : (e : ZookeeperError) → exceptions (code e) ≡ ok e
unfolding exceptions
exceptions-code rolled_back_error = refl
exceptions-code system_zookeeper_error = refl
exceptions-code runtime_inconsistency = refl
exceptions-code data_inconsistency = refl
exceptions-code connection_loss = refl
exceptions-code marshalling_error = refl
exceptions-code unimplemented_error = refl
exceptions-code operation_timeout_error = refl
exceptions-code bad_arguments_error = refl
exceptions-code unknown_session_error = refl
exceptions-code new_config_no_quorum_error = refl
exceptions-code reconfig_in_process_error = refl
exceptions-code api_error = refl
exceptions-code no_node_error = refl
exceptions-code no_auth_error = refl
exceptions-code bad_version_error = refl
exceptions-code no_children_for_ephemerals_error = refl
exceptions-code node_exists_error = refl
exceptions-code not_empty_error = refl
exceptions-code session_expired_error = refl
exceptions-code invalid_callback_error = refl
exceptions-code invalid_acl_error = refl
exceptions-code auth_failed_error = refl
exceptions-code session_moved_error = refl
exceptions-code not_read_only_call_error = refl
exceptions-code ephemeral_on_local_session_error = refl
exceptions-code no_watcher_error = refl
exceptions-code request_timeout_error = refl
exceptions-code reconfig_disabled_error = refl
exceptions-code session_closed_require_sasl_error = refl
exceptions-code quota_exceeded_error = refl
exceptions-code throttled_op_error = refl

find_code-eq_ok :
    (c : ℤ) (es : List ZookeeperError) (e : ZookeeperError) → find_code c es ≡ ok e → code e ≡ c
unfolding find_code
find_code-eq_ok c [] e h = cc
find_code-eq_ok c (x ∷ es) e h = elim (Bool-cases (int_eq (code x) c)) [
  | inl same ↦ cc (rw same at h, int_eq→eq (code x) c same)
  | inr other ↦ find_code-eq_ok c es e (rw other at h)
]

-- What is found under a code has that code.
pub exceptions-eq_ok : (c : ℤ) (e : ZookeeperError) → exceptions c ≡ ok e → code e ≡ c
unfolding exceptions
exceptions-eq_ok c e h = find_code-eq_ok c classes e h

find_code-ne-out_of_fuel : (c : ℤ) (es : List ZookeeperError) → find_code c es ≢ err out_of_fuel
unfolding find_code
find_code-ne-out_of_fuel c [] = λ h. cc
find_code-ne-out_of_fuel c (x ∷ es) = ground (arith, find_code-ne-out_of_fuel c es)

pub exceptions-ne-out_of_fuel : (c : ℤ) → exceptions c ≢ err out_of_fuel
unfolding exceptions
exceptions-ne-out_of_fuel c = find_code-ne-out_of_fuel c classes
