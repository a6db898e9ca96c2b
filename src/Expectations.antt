-- ===== src/Expectations.antt =====
-- connectivity/check/policy.go and connectivity/check/action.go: what a test expects of an action,
-- and how the exit code of its command is judged.
use cilium_cli.Prelude.{
  ℕ, String, Option, none, some, Bool, true, false, not, ◌&&◌, ◌==◌, nat_eq, int_eq, if◌then◌else◌,
  ℤ, pos, negsuc, minus_one,
}
use cilium_cli.Flow.{
  Flow, reason_unknown, reason_policy_deny, reason_policy_denied, reason_auth_required,
}

abbrev pub exit_any_error : ℤ
exit_any_error = minus_one

abbrev pub exit_invalid_code : ℤ
exit_invalid_code = negsuc 1

abbrev pub exit_curl_http_error : ℤ
exit_curl_http_error = pos 22

abbrev pub exit_curl_timeout : ℤ
exit_curl_timeout = pos 28

-- `ExitCode.Check`; the code of a process is a byte.
unfoldable pub check : ℤ → ℕ → Bool
check e code = if e == exit_any_error then not (code == 0) else e == pos code

unfoldable pub default_drop_reason : Flow → Bool
default_drop_reason flow = not (flow.drop_reason_desc == reason_unknown)

unfoldable pub policy_deny_reason : Flow → Bool
policy_deny_reason flow = flow.drop_reason_desc == reason_policy_deny

unfoldable pub default_deny_reason : Flow → Bool
default_deny_reason flow = flow.drop_reason_desc == reason_policy_denied

unfoldable pub auth_required_drop_reason : Flow → Bool
auth_required_drop_reason flow = flow.drop_reason_desc == reason_auth_required

pub record HttpExpectation : Type 0 where
  pub status : String
  pub method : String
  pub url : String

pub record Result : Type 0 where
  pub drop : Bool
  pub egress_drop : Bool
  pub ingress_drop : Bool
  pub drop_reason_func : Option (Flow → Bool)
  pub is_none : Bool
  pub dns_proxy : Bool
  pub l7_proxy : Bool
  pub http : HttpExpectation
  pub exit_code : ℤ

abbrev pub result_ok : Result
result_ok = record {
  drop = false;
  egress_drop = false;
  ingress_drop = false;
  drop_reason_func = none;
  is_none = false;
  dns_proxy = false;
  l7_proxy = false;
  http = record { status = ""; method = ""; url = "" };
  exit_code = pos 0;
}

abbrev pub result_none : Result
result_none = record result_ok { is_none = true }

abbrev pub result_dns_ok : Result
result_dns_ok = record result_ok { dns_proxy = true }

abbrev pub result_dns_ok_drop_curl_timeout : Result
result_dns_ok_drop_curl_timeout = record result_ok {
  dns_proxy = true;
  drop = true;
  drop_reason_func = some default_drop_reason;
  exit_code = exit_curl_timeout;
}

abbrev pub result_dns_ok_drop_curl_http_error : Result
result_dns_ok_drop_curl_http_error = record result_ok {
  dns_proxy = true;
  l7_proxy = true;
  drop = true;
  drop_reason_func = some default_drop_reason;
  exit_code = exit_curl_http_error;
}

abbrev pub result_curl_http_error : Result
result_curl_http_error = record result_ok {
  l7_proxy = true;
  drop = false;
  drop_reason_func = some default_drop_reason;
  exit_code = exit_curl_http_error;
}

abbrev pub result_drop : Result
result_drop = record result_ok {
  drop = true;
  exit_code = exit_any_error;
  drop_reason_func = some default_drop_reason;
}

abbrev pub result_drop_auth_required : Result
result_drop_auth_required = record result_ok {
  drop = true;
  drop_reason_func = some auth_required_drop_reason;
}

-- The results with a drop on one side, by the function that accepts the reason.
abbrev pub egress_drop_for : (Flow → Bool) → Result
egress_drop_for reason = record result_ok {
  drop = true;
  drop_reason_func = some reason;
  egress_drop = true;
  exit_code = exit_any_error;
}

abbrev pub ingress_drop_for : (Flow → Bool) → Result
ingress_drop_for reason = record result_ok {
  drop = true;
  ingress_drop = true;
  drop_reason_func = some reason;
  exit_code = exit_any_error;
}

abbrev pub result_any_reason_egress_drop : Result
result_any_reason_egress_drop = egress_drop_for default_drop_reason

abbrev pub result_policy_deny_egress_drop : Result
result_policy_deny_egress_drop = egress_drop_for policy_deny_reason

abbrev pub result_default_deny_egress_drop : Result
result_default_deny_egress_drop = egress_drop_for default_deny_reason

abbrev pub result_ingress_any_reason_drop : Result
result_ingress_any_reason_drop = ingress_drop_for default_drop_reason

abbrev pub result_policy_deny_ingress_drop : Result
result_policy_deny_ingress_drop = ingress_drop_for policy_deny_reason

abbrev pub result_default_deny_ingress_drop : Result
result_default_deny_ingress_drop = ingress_drop_for default_deny_reason

abbrev pub result_drop_curl_timeout : Result
result_drop_curl_timeout = record result_ok { drop = true; exit_code = exit_curl_timeout }

abbrev pub result_drop_curl_http_error : Result
result_drop_curl_http_error = record result_ok {
  l7_proxy = true;
  drop = true;
  exit_code = exit_curl_http_error;
}

-- `Action.expectedExitCode`
unfoldable pub expected_exit_code : Result → Result → ℤ
expected_exit_code egress ingress =
    if (egress.exit_code == pos 0) && (ingress.exit_code == pos 0)
    then pos 0
    else if not (egress.exit_code == pos 0)
    then egress.exit_code
    else ingress.exit_code
